-- ===== src/Usage/Lines.antt =====
-- The lines that `flush` of internal/web/usage.go writes, and what `load` reads of them.
use mathlib.Core.List.{append_assoc, append-nil}
use m365_copilot2api_dsm.Prelude.{
  ℕ, zero, suc, ap, none, some, Option, take, ◌≡◌, refl, sym, List, [], ◌∷◌, ◌++◌,
}
use m365_copilot2api_dsm.Usage.{
  ended, LogFile, line_records, line_after, read_records, add_line, no_byte, write_lines,
  write_part, add_piece, UsageRecord,
}

-- The file ends with a newline, or is empty.
abbrev pub Ends : LogFile → Type 0
Ends f = f.tail ≡ ended

line_records-append :
    (ls ms : List (Option UsageRecord))
    → line_records (ls ++ ms) ≡ line_records ls ++ line_records ms
line_records-append [] ms = refl
line_records-append (none ∷ ls) ms = line_records-append ls ms
line_records-append (some r ∷ ls) ms = ap (λ l. r ∷ l) (line_records-append ls ms)

read_ended : (f : LogFile) → Ends f → read_records f ≡ line_records f.lines
unfolding read_records
read_ended f e = rw e (append-nil (line_records f.lines))

read-add_line :
    (r : UsageRecord) (f : LogFile)
    → Ends f
    → read_records (add_line r f) ≡ read_records f ++ (r ∷ [])
unfolding add_line
read-add_line r f e = cc (
  read_ended (add_line r f) (unfold add_line in refl),
  line_records-append f.lines (line_after f.tail r ∷ []),
  ap (λ t. line_records (line_after t r ∷ [])) e,
  read_ended f e,
)

pub read-write_lines :
    (rs : List UsageRecord) (f : LogFile)
    → Ends f
    → (read_records (write_lines rs f) ≡ read_records f ++ rs) × Ends (write_lines rs f)
unfolding write_lines
read-write_lines [] f e = (sym (append-nil (read_records f)), e)
read-write_lines (r ∷ rs) f e =
    let (read, ends) = read-write_lines rs (add_line r f) (unfold add_line in refl) in
    (cc (read, read-add_line r f e, append_assoc (read_records f) (r ∷ []) rs), ends)

pub part_lines :
    (rs : List UsageRecord) (n : ℕ) (f : LogFile)
    → write_part rs n no_byte f ≡ write_lines (take n rs) f
unfolding write_part write_lines add_piece
part_lines [] zero f = refl
part_lines [] (suc n) f = refl
part_lines (r ∷ rs) zero f = refl
part_lines (r ∷ rs) (suc n) f = part_lines rs n (add_line r f)
