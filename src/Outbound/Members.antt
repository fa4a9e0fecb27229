-- ===== src/Outbound/Members.antt =====
-- The entries that the pool of internal/outbound/pool.go holds, by their URLs.
use m365_copilot2api_dsm.Prelude.{
  ℕ, ◌≡◌, refl, Bool, false, ◌||◌, Option, none, some, String, List, [], ◌∷◌, ◌++◌, str_eq, leb,
  arith, eq_iff, eq_refl, inl, inr, Bool-cases, subst, str_eq_cases, ◌∙◌,
}
use m365_copilot2api_dsm.Outbound.{
  Entry, Pool, Health, Probe, new_entry, has_raw, add_entries, new_pool, update, mark, mark_entry,
  set_health, remove_entry, remove, check, pick, no_answer, answered, after_probe, unreachable,
  upstream_error, reachable,
}

-- The URLs are distinct.
abbrev pub Distinct : List Entry → Type 0
Distinct [] = Unit {0}
Distinct (e ∷ es) = (has_raw e.raw es ≡ false) × Distinct es

has_raw-append :
    (raw : String) (es fs : List Entry)
    → has_raw raw (es ++ fs) ≡ (has_raw raw es || has_raw raw fs)
unfolding has_raw
has_raw-append raw [] fs = refl
has_raw-append raw (e ∷ es) fs = ground (arith, has_raw-append raw es fs)

Distinct-append_new :
    (es : List Entry) (v : String)
    → has_raw v es ≡ false
    → Distinct es
    → Distinct (es ++ new_entry v ∷ [])
unfolding has_raw new_entry
Distinct-append_new [] v h d = (refl, tt)
Distinct-append_new (e ∷ es) v h d = (
  ground (arith, has_raw-append e.raw es (new_entry v ∷ []), eq_iff e.raw v, eq_iff v e.raw),
  Distinct-append_new es v (ground arith) d.1,
)

add_entries-Distinct :
    (accepts : String → Bool) (es : List Entry) (vs : List String) {fs : List Entry}
    → Distinct es
    → add_entries accepts es vs ≡ some fs
    → Distinct fs
unfolding add_entries
add_entries-Distinct accepts es [] {fs} d h =
    let same : es ≡ fs = ground arith in subst Distinct same d
add_entries-Distinct accepts es (v ∷ vs) d h = elim (Bool-cases (str_eq v "" || has_raw v es)) [
  | inl p ↦ add_entries-Distinct accepts es vs d (rw p at h)
  | inr p ↦ elim (Bool-cases (accepts v)) [
    | inl q ↦
        add_entries-Distinct accepts (es ++ new_entry v ∷ []) vs
          (Distinct-append_new es v (ground arith) d) (rw (p, q) at h)
    | inr q ↦ let r = rw (p, q) at h in cc
  ]
]

has_raw-update :
    (raw j : String) (f : Entry → Entry) (es : List Entry)
    → ((e : Entry) → (f e).raw ≡ e.raw)
    → has_raw j (update raw f es) ≡ has_raw j es
unfolding update has_raw
has_raw-update raw j f [] h = refl
has_raw-update raw j f (e ∷ es) h = ground (arith, h e, has_raw-update raw j f es h)

update-Distinct :
    (raw : String) (f : Entry → Entry) (es : List Entry)
    → ((e : Entry) → (f e).raw ≡ e.raw)
    → Distinct es
    → Distinct (update raw f es)
unfolding update
update-Distinct raw f [] h d = tt
update-Distinct raw f (e ∷ es) h d = elim (Bool-cases (str_eq e.raw raw)) [
  | inl p ↦ rw p (rw (h e) d.0, d.1)
  | inr p ↦ rw p (has_raw-update raw e.raw f es h ∙ d.0, update-Distinct raw f es h d.1)
]

has_raw-remove_entry :
    (raw j : String) (es : List Entry)
    → has_raw j es ≡ false
    → has_raw j (remove_entry raw es) ≡ false
unfolding remove_entry has_raw
has_raw-remove_entry raw j [] h = refl
has_raw-remove_entry raw j (e ∷ es) h = ground (arith, has_raw-remove_entry raw j es)

remove_entry-Distinct :
    (raw : String) (es : List Entry) → Distinct es → Distinct (remove_entry raw es)
unfolding remove_entry
remove_entry-Distinct raw [] d = tt
remove_entry-Distinct raw (e ∷ es) d = elim (Bool-cases (str_eq e.raw raw)) [
  | inl p ↦ rw p d.1
  | inr p ↦ rw p (has_raw-remove_entry raw e.raw es d.0, remove_entry-Distinct raw es d.1)
]

has_raw-remove_self :
    (raw : String) (es : List Entry) → Distinct es → has_raw raw (remove_entry raw es) ≡ false
unfolding remove_entry has_raw
has_raw-remove_self raw [] d = refl
has_raw-remove_self raw (e ∷ es) d = elim (str_eq_cases e.raw raw) [
  | inl p ↦ rw (p, eq_refl) (rw p at d.0)
  | inr (p, ne) ↦ rw p (rw p (has_raw-remove_self raw es d.1))
]

mark_entry-raw : (err : Option String) (now : ℕ) (e : Entry) → (mark_entry e err now).raw ≡ e.raw
unfolding mark_entry
mark_entry-raw none now e = refl
mark_entry-raw (some m) now e = ground arith

new_pool-Distinct :
    (accepts : String → Bool) (raws : List String) {p : Pool}
    → new_pool accepts raws ≡ some p
    → Distinct p.entries
unfolding new_pool
new_pool-Distinct accepts raws {p} h = made (add_entries accepts [] raws) refl
  where
    made : (r : Option (List Entry)) → add_entries accepts [] raws ≡ r → Distinct p.entries
    made none e = let q = rw (e, new_pool) at h in cc
    made (some es) e =
        let q : es ≡ p.entries = ground arith in
        subst Distinct q (add_entries-Distinct accepts [] raws tt e)

-- What may happen to a pool.
pub data Change : Type 0 where
  picked : ℕ → Change
  marked : String → Option String → ℕ → Change
  probed : String → Probe → ℕ → Change
  removed : String → Change

unfoldable pub change : Pool → Change → Pool
change p (picked now) = (pick p now).0
change p (marked raw err now) = mark p raw err now
change p (probed raw probe now) = (check p raw probe now).0
change p (removed raw) = remove p raw

unfoldable pub run : Pool → List Change → Pool
unfolding change
run p [] = p
run p (c ∷ cs) = run (change p c) cs

pick-entries : (p : Pool) (now : ℕ) → (pick p now).0.entries ≡ p.entries
unfolding pick
pick-entries p now = ground arith

mark-Distinct :
    (p : Pool) (raw : String) (err : Option String) (now : ℕ)
    → Distinct p.entries
    → Distinct (mark p raw err now).entries
unfolding mark
mark-Distinct p raw err now d = update-Distinct raw _ p.entries (mark_entry-raw err now) d

set_health-Distinct :
    (p : Pool) (raw : String) (h : Health)
    → Distinct p.entries
    → Distinct (set_health p raw h).entries
unfolding set_health
set_health-Distinct p raw h d = update-Distinct raw _ p.entries (λ e. refl) d

after_probe-Distinct :
    (p : Pool) (raw : String) (probe : Probe) (now : ℕ)
    → Distinct p.entries
    → Distinct (after_probe p raw probe now).0.entries
unfolding after_probe
after_probe-Distinct p raw (no_answer m) now d =
    set_health-Distinct _ raw unreachable (mark-Distinct p raw (some m) now d)
after_probe-Distinct p raw (answered code) now d = elim (Bool-cases (leb 500 code)) [
  | inl q ↦ rw q (set_health-Distinct _ raw upstream_error (mark-Distinct p raw none now d))
  | inr q ↦ rw q (set_health-Distinct _ raw reachable (mark-Distinct p raw none now d))
]

check-Distinct :
    (p : Pool) (raw : String) (probe : Probe) (now : ℕ)
    → Distinct p.entries
    → Distinct (check p raw probe now).0.entries
unfolding check
check-Distinct p raw probe now d = elim (Bool-cases (has_raw raw p.entries)) [
  | inl q ↦ rw q (after_probe-Distinct p raw probe now d)
  | inr q ↦ rw q d
]

change-Distinct : (p : Pool) (c : Change) → Distinct p.entries → Distinct (change p c).entries
unfolding change remove
change-Distinct p (picked now) d = rw (pick-entries p now) d
change-Distinct p (marked raw err now) d = mark-Distinct p raw err now d
change-Distinct p (probed raw probe now) d = check-Distinct p raw probe now d
change-Distinct p (removed raw) d = remove_entry-Distinct raw p.entries d

run-Distinct : (p : Pool) (cs : List Change) → Distinct p.entries → Distinct (run p cs).entries
unfolding run
run-Distinct p [] d = d
run-Distinct p (c ∷ cs) d = run-Distinct (change p c) cs (change-Distinct p c d)

-- A pool that is made from any list of URLs holds distinct ones, however often a URL is given, and
-- does so after any sequence of picks, marked results, probes and removals; and a URL that is removed
-- then is in it no more.
pub run_pool-Distinct :
    (accepts : String → Bool) (raws : List String) (cs : List Change) (raw : String) {p : Pool}
    → new_pool accepts raws ≡ some p
    → Distinct (run p cs).entries × (has_raw raw (remove (run p cs) raw).entries ≡ false)
unfolding remove
run_pool-Distinct accepts raws cs raw {p} h =
    let d = run-Distinct p cs (new_pool-Distinct accepts raws h) in
    (d, has_raw-remove_self raw (run p cs).entries d)
