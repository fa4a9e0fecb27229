-- ===== src/Usage/History.antt =====
-- The records that internal/web/usage.go keeps and writes.
use mathlib.Core.List.{append_assoc, append-nil}
use m365_copilot2api_dsm.Prelude.{◌≡◌, refl, sym, ◌∙◌, true, List, [], ◌∷◌, ◌++◌, is_empty, arith}
use m365_copilot2api_dsm.Usage.{
  read_records, no_byte, UsageRecord, UsageLog, add_record, WriteEnd, unopened, unwritten,
  flush_pending,
}
use m365_copilot2api_dsm.Usage.Lines.{Ends}

-- What happens to a log: a record, or a flush with the records that come while the file is written.
pub data Event : Type 0 where
  comes : UsageRecord → Event
  flushes : WriteEnd → List UsageRecord → Event

unfoldable pub add_all : List UsageRecord → UsageLog → UsageLog
add_all [] s = s
add_all (r ∷ rs) s = add_all rs (add_record r s)

unfoldable pub run : UsageLog → List Event → UsageLog
run s [] = s
run s (comes r ∷ events) = run (add_record r s) events
run s (flushes how rs ∷ events) = run (flush_pending how (add_all rs) s) events

-- The records that came in a run, in order.
unfoldable pub came : List Event → List UsageRecord
came [] = []
came (comes r ∷ events) = r ∷ came events
came (flushes how rs ∷ events) = rs ++ came events

-- A write goes in whole, or not at all.
abbrev pub IsWhole : WriteEnd → Type 0
IsWhole unopened = ⊥
IsWhole (unwritten n piece) = (n ≡ 0) × (piece ≡ no_byte)
IsWhole _ = Unit {0}

abbrev pub AllWhole : List Event → Type 0
AllWhole [] = Unit {0}
AllWhole (comes r ∷ events) = AllWhole events
AllWhole (flushes how rs ∷ events) = IsWhole how × AllWhole events

-- All that a log holds for its file: the records that a start would read, and the pending ones.
abbrev pub held : UsageLog → List UsageRecord
held s = read_records s.file ++ s.pending

pub add_all-held :
    (rs : List UsageRecord) (s : UsageLog)
    → ((add_all rs s).file ≡ s.file) × ((add_all rs s).pending ≡ s.pending ++ rs)
unfolding add_all add_record
add_all-held [] s = (refl, sym (append-nil s.pending))
add_all-held (r ∷ rs) s =
    let (file, pending) = add_all-held rs (add_record r s) in
    (file, pending ∙ append_assoc s.pending (r ∷ []) rs)

pub joined_held : (rs : List UsageRecord) (s : UsageLog) → held (add_all rs s) ≡ held s ++ rs
joined_held rs s =
    let (file, pending) = add_all-held rs s in
    cc (file, pending, append_assoc (read_records s.file) s.pending rs)

-- What a log may have after a step: all of a list, and a file that ends.
abbrev pub Keeps : List UsageRecord → UsageLog → Type 0
Keeps all s = (held s ≡ all) × Ends s.file

pub nothing_pending : (l : List UsageRecord) → is_empty l ≡ true → l ≡ []
nothing_pending [] e = refl
nothing_pending (r ∷ l) e = ground arith
