-- ===== src/Outbound/Rotation.antt =====
-- `Pool.pick` of internal/outbound/pool.go, by the turns of the entries.
use native.Mathlib.Nat.{mod-lt, mod-add-mod, add-mod-mod}
use m365_copilot2api_dsm.Prelude.{
  ℕ, zero, suc, ◌+◌, ◌-◌, ◌%◌, ◌≤◌, ◌<◌, ◌≡◌, refl, sym, ap, ◌∙◌, subst, false, Option, none, some,
  List, [], ◌∷◌, ltb, arith, length, get_elem?, is_empty, inl, inr, ◌⊎◌, Bool-cases, ltb→lt,
}
use m365_copilot2api_dsm.Outbound.{Entry, Pool, first_ready, pick}

get_elem?-some {ℓ} :
    {A : Type ℓ} (xs : List A) (i : ℕ) → i < length xs → (a : A) × (get_elem? xs i ≡ some a)
get_elem?-some [] i h = elim h [ ]
get_elem?-some (x ∷ xs) zero h = (x, refl)
get_elem?-some (x ∷ xs) (suc i) h = get_elem?-some xs i (omega arith)

-- The entry in turn number `k` from the next one on.
abbrev pub in_turn : Pool → ℕ → Option Entry
in_turn p k = get_elem? p.entries ((p.next + k) % length p.entries)

-- The entry of a turn is there and cools down.
abbrev pub IsCooling : ℕ → Option Entry → Type 0
IsCooling now none = ⊥
IsCooling now (some e) = now < e.cooldown

abbrev pub IsReady : ℕ → Option Entry → Type 0
IsReady now none = ⊥
IsReady now (some e) = e.cooldown ≤ now

-- What the search from turn `i` on, over `left` turns, may answer.
abbrev Found : List Entry → ℕ → ℕ → ℕ → ℕ → Option ℕ → Type 0
Found es next now left i none =
    (k : ℕ) → i ≤ k → k < i + left → IsCooling now (get_elem? es ((next + k) % length es))
Found es next now left i (some j) =
    (i ≤ j)
    × (j < i + left)
    × IsReady now (get_elem? es ((next + j) % length es))
    × ((k : ℕ) → i ≤ k → k < j → IsCooling now (get_elem? es ((next + k) % length es)))

-- A fact about turn `i` and the later ones.
from_turn :
    (P : ℕ → Type 0) (i m : ℕ)
    → P i
    → ((k : ℕ) → suc i ≤ k → k < m → P k)
    → (k : ℕ) → i ≤ k
    → k < m
    → P k
from_turn P i m first later k low high =
    let split : (k ≡ i) ⊎ (suc i ≤ k) = omega arith in
    elim split [ inl e ↦ subst P (sym e) first | inr h ↦ later k h high ]

further :
    (es : List Entry) (next now left i : ℕ) (r : Option ℕ)
    → IsCooling now (get_elem? es ((next + i) % length es))
    → Found es next now left (suc i) r
    → Found es next now (suc left) i r
further es next now left i none c f =
    from_turn (λ k. IsCooling now (get_elem? es ((next + k) % length es))) i (i + suc left) c
      (λ k low high. f k low (omega arith))
further es next now left i (some j) c (low, high, ready, before) = (
  omega arith,
  omega arith,
  ready,
  from_turn (λ k. IsCooling now (get_elem? es ((next + k) % length es))) i j c before,
)

first_ready-Found :
    (es : List Entry) (next now left i : ℕ)
    → 0 < length es
    → Found es next now left i (first_ready es next now left i)
unfolding first_ready
first_ready-Found es next now zero i h = λ k low high. absurd (omega arith)
first_ready-Found es next now (suc left) i h =
    let (e, at) = get_elem?-some es ((next + i) % length es) (mod-lt _ h) in
    let rest = first_ready-Found es next now left (suc i) h in
    elim (Bool-cases (ltb now e.cooldown)) [
      | inl p ↦
          rw (at, first_ready)
            (rw p (
              further es next now left i _
                (subst (IsCooling now) (sym at) (ltb→lt now e.cooldown p)) rest))
      | inr p ↦
          rw (at, first_ready)
            (rw p (
              omega arith,
              omega arith,
              subst (IsReady now) (sym at) (ground arith),
              λ k low high. absurd (omega arith),
            ))
    ]

-- Every index is the one of some turn.
turn_of : (n len i : ℕ) → i < len → (k : ℕ) × (k < len) × ((n + k) % len ≡ i)
turn_of n len i h =
    let r : n % len < len = mod-lt n (omega arith) in
    let e : n % len + (i + (len - n % len)) ≡ len + i = omega arith in
    (
      (i + (len - n % len)) % len,
      mod-lt _ (omega arith),
      (rw (add-mod-mod, ← mod-add-mod) (rw e (grind arith))),
    )

some-length {ℓ} :
    {A : Type ℓ} (xs : List A) (i : ℕ) {a : A} → get_elem? xs i ≡ some a → i < length xs
some-length [] i h = cc
some-length (x ∷ xs) zero h = omega arith
some-length (x ∷ xs) (suc i) h = omega (arith, some-length xs i h)

not_empty {ℓ} : {A : Type ℓ} (xs : List A) → 0 < length xs → is_empty xs ≡ false
not_empty [] h = elim h [ ]
not_empty (x ∷ xs) h = refl

-- The answers of the search, as far as `pick` acts on them.
pick-some :
    (p : Pool) (now k : ℕ)
    → 0 < length p.entries
    → first_ready p.entries p.next now (length p.entries) 0 ≡ some k
    → pick p now ≡ (record p { next = (p.next + k + 1) % length p.entries }, in_turn p k)
unfolding pick
pick-some p now k h e = rw (not_empty p.entries h, e)

pick-none :
    (p : Pool) (now : ℕ)
    → 0 < length p.entries
    → first_ready p.entries p.next now (length p.entries) 0 ≡ none
    → pick p now ≡ (
      record p { next = (p.next + 1) % length p.entries },
      get_elem? p.entries (p.next % length p.entries),
    )
unfolding pick
pick-none p now h e = rw (not_empty p.entries h, e)

cooling_not_ready : (now : ℕ) (o : Option Entry) → IsCooling now o → IsReady now o → ⊥
cooling_not_ready now none c r = c
cooling_not_ready now (some e) c r = omega arith

-- While some entry of the pool is not cooling down, `pick` answers with one that is not. It leaves
-- the entries alone, and the turn goes to the one after it.
pub pick-IsReady :
    (p : Pool) (now i : ℕ) {e : Entry}
    → get_elem? p.entries i ≡ some e
    → e.cooldown ≤ now
    → (k : ℕ) × (k < length p.entries)
      × IsReady now (in_turn p k)
      × (pick p now ≡ (record p { next = (p.next + k + 1) % length p.entries }, in_turn p k))
pick-IsReady p now i {e} at ready =
    found (first_ready p.entries p.next now (length p.entries) 0) refl
      (first_ready-Found p.entries p.next now (length p.entries) 0 long)
  where
    inside : i < length p.entries
    inside = some-length p.entries i at

    long : 0 < length p.entries
    long = omega (arith, inside)

    found :
        (r : Option ℕ)
        → first_ready p.entries p.next now (length p.entries) 0 ≡ r
        → Found p.entries p.next now (length p.entries) 0 r
        → (k : ℕ) × (k < length p.entries)
          × IsReady now (in_turn p k)
          × (pick p now ≡ (record p { next = (p.next + k + 1) % length p.entries }, in_turn p k))
    found none q f =
        let (k, high, same) = turn_of p.next (length p.entries) i inside in
        absurd (cooling_not_ready now _ (f k (omega arith) (omega arith)) (rw (same, at) ready))
    found (some k) q (low, high, r, before) = (k, omega arith, r, pick-some p now k long q)

-- `pick` takes the entry of the first turn that is not cooling down: the entries whose turns come
-- before it all are.
pub pick_first :
    (p : Pool) (now k : ℕ)
    → k < length p.entries
    → IsReady now (in_turn p k)
    → ((j : ℕ) → j < k → IsCooling now (in_turn p j))
    → pick p now ≡ (record p { next = (p.next + k + 1) % length p.entries }, in_turn p k)
pick_first p now k h ready before =
    found (first_ready p.entries p.next now (length p.entries) 0) refl
      (first_ready-Found p.entries p.next now (length p.entries) 0 (omega arith))
  where
    found :
        (r : Option ℕ)
        → first_ready p.entries p.next now (length p.entries) 0 ≡ r
        → Found p.entries p.next now (length p.entries) 0 r
        → pick p now ≡ (record p { next = (p.next + k + 1) % length p.entries }, in_turn p k)
    found none q f =
        absurd (cooling_not_ready now (in_turn p k) (f k (omega arith) (omega arith)) ready)
    found (some j) q (low, high, r, earlier) =
        let split : (j ≡ k) ⊎ (j < k) ⊎ (k < j) = omega arith in
        elim split [
          | inl e ↦ pick-some p now k (omega arith) (q ∙ ap some e)
          | inr (inl l) ↦ absurd (cooling_not_ready now (in_turn p j) (before j l) r)
          | inr (inr l) ↦
              absurd (cooling_not_ready now (in_turn p k) (earlier k (omega arith) l) ready)
        ]

-- When every entry is cooling down, `pick` still answers, with the entry whose turn it is.
pub pick_all_cooling :
    (p : Pool) (now : ℕ)
    → 0 < length p.entries
    → ((j : ℕ) → j < length p.entries → IsCooling now (in_turn p j))
    → pick p now ≡ (
      record p { next = (p.next + 1) % length p.entries },
      get_elem? p.entries (p.next % length p.entries),
    )
pick_all_cooling p now h cooling =
    found (first_ready p.entries p.next now (length p.entries) 0) refl
      (first_ready-Found p.entries p.next now (length p.entries) 0 h)
  where
    found :
        (r : Option ℕ)
        → first_ready p.entries p.next now (length p.entries) 0 ≡ r
        → Found p.entries p.next now (length p.entries) 0 r
        → pick p now ≡ (
          record p { next = (p.next + 1) % length p.entries },
          get_elem? p.entries (p.next % length p.entries),
        )
    found none q f = pick-none p now h q
    found (some j) q (low, high, r, earlier) =
        absurd (cooling_not_ready now (in_turn p j) (cooling j (omega arith)) r)
