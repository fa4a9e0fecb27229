-- ===== src/Context/Window/Fit.antt =====
-- The tokens of what `slidingWindowDetailed` of internal/web/context_budget.go keeps and drops.
use m365_copilot2api_dsm.Prelude.{
  ℕ, ◌+◌, ◌-◌, ◌≤◌, ◌<◌, ◌≡◌, refl, ap, sym, subst, ◌∙◌, Bool, true, false, String, List, [], ◌∷◌,
  ◌++◌, ltb, leb, if◌then◌else◌, is_empty, arith, Bool-cases, inl, inr, ◌⊎◌, leb→le, length,
}
use mathlib.Core.List.{append-nil}
use m365_copilot2api_dsm.Context.Messages.{Message, overhead_tokens, heuristic_token_count}
use m365_copilot2api_dsm.Context.Atoms.{
  Atom, sum_tokens, build_atoms_fast, build_atoms_with_counter,
}
use m365_copilot2api_dsm.Context.Atoms.Partition.{
  all_msgs, all_tokens, sum_tokens-append, Priced, atoms-Priced, atoms_partition, NonEmpty,
  atoms-NonEmpty,
}
use m365_copilot2api_dsm.Context.Window.{
  Marked, pin, marked_tokens, total_tokens, Filled, fill, selected_msgs, last_msgs, Window, close,
  fits, window, sliding_window_detailed, effective_budget, pinned_tokens,
}

-- The atoms of a marked list, and the messages that its loop drops: from the last atom to the first.
unfoldable pub atoms_of : List Marked → List Atom
atoms_of [] = []
atoms_of (p ∷ ps) = p.atom ∷ atoms_of ps

unfoldable pub drops : List Marked → List Message
drops [] = []
drops (p ∷ ps) = drops ps ++ (if p.marked then [] else p.atom.msgs)

-- Every unmarked atom has more tokens than are left.
abbrev pub Full : ℕ → List Marked → Type 0
Full r [] = Unit {0}
Full r (p ∷ ps) = ((p.marked ≡ true) ⊎ (r < p.atom.tokens)) × Full r ps

Full-less : (r s : ℕ) (ps : List Marked) → s ≤ r → Full r ps → Full s ps
Full-less r s [] h f = tt
Full-less r s (p ∷ ps) h f =
    (elim f.0 [ inl e ↦ inl e | inr l ↦ inr (omega arith) ], Full-less r s ps h f.1)

-- What `fill` does to a list of marks.
pub record Fills (r : ℕ) (ps : List Marked) (f : Filled) : Type 0 where
  pub same_atoms : atoms_of f.selected ≡ atoms_of ps
  pub spent : marked_tokens f.selected + f.remaining ≡ marked_tokens ps + r
  pub shared : marked_tokens f.selected + f.dropped_tokens ≡ total_tokens (atoms_of ps)
  pub dropped_are : f.dropped ≡ drops f.selected
  pub full : Full f.remaining f.selected

module _ (r : ℕ) (p : Marked) (ps : List Marked) (v : Fills r ps (fill r ps)) where
  step_atoms : atoms_of (fill r (p ∷ ps)).selected ≡ atoms_of (p ∷ ps)
  unfolding fill atoms_of
  step_atoms = ground (arith, v.same_atoms)

  step_spent :
      marked_tokens (fill r (p ∷ ps)).selected + (fill r (p ∷ ps)).remaining
      ≡ marked_tokens (p ∷ ps) + r
  unfolding fill marked_tokens
  step_spent = ground (arith, v.spent)

  step_shared :
      marked_tokens (fill r (p ∷ ps)).selected + (fill r (p ∷ ps)).dropped_tokens
      ≡ total_tokens (atoms_of (p ∷ ps))
  unfolding fill marked_tokens atoms_of total_tokens
  step_shared = ground (arith, v.shared)

  step_dropped : (fill r (p ∷ ps)).dropped ≡ drops (fill r (p ∷ ps)).selected
  unfolding fill drops
  step_dropped = ground (arith, v.dropped_are, append-nil (drops (fill r ps).selected))

  step-Full : Full (fill r (p ∷ ps)).remaining (fill r (p ∷ ps)).selected
  unfolding fill
  step-Full = ground (
    arith,
    v.full,
    Full-less (fill r ps).remaining ((fill r ps).remaining - p.atom.tokens) (fill r ps).selected,
  )

pub fill-Fills : (r : ℕ) (ps : List Marked) → Fills r ps (fill r ps)
unfolding fill atoms_of marked_tokens total_tokens drops
fill-Fills r [] = record {
  same_atoms = refl;
  spent = refl;
  shared = refl;
  dropped_are = refl;
  full = tt;
}
fill-Fills r (p ∷ ps) =
    let v = fill-Fills r ps in
    record {
      same_atoms = step_atoms r p ps v;
      spent = step_spent r p ps v;
      shared = step_shared r p ps v;
      dropped_are = step_dropped r p ps v;
      full = step-Full r p ps v;
    }

pub atoms_of-pin : (seen : Bool) (atoms : List Atom) → atoms_of (pin seen atoms) ≡ atoms
unfolding pin atoms_of
atoms_of-pin seen [] = refl
atoms_of-pin seen (a ∷ atoms) = ap (◌∷◌ a) (atoms_of-pin _ atoms)

total-all : (atoms : List Atom) → total_tokens atoms ≡ all_tokens atoms
unfolding total_tokens
total-all [] = refl
total-all (a ∷ atoms) = ap (◌+◌ a.tokens) (total-all atoms)

selected-price :
    (counter : String → ℕ) (ps : List Marked)
    → Priced counter (atoms_of ps)
    → sum_tokens counter (selected_msgs ps) ≡ marked_tokens ps
unfolding selected_msgs marked_tokens atoms_of
selected-price counter [] h = refl
selected-price counter (p ∷ ps) h = elim (Bool-cases p.marked) [
  | inl q ↦ simp (q, sum_tokens-append) (omega (arith, h.0, selected-price counter ps h.1))
  | inr q ↦ simp q (omega (arith, selected-price counter ps h.1))
]

pub empty_of {ℓ} : {A : Type ℓ} (xs : List A) → is_empty xs ≡ true → xs ≡ []
empty_of [] h = refl
empty_of (x ∷ xs) h = cc

-- No atom fits the budget, alone with the overhead of a request.
abbrev pub TooLarge : ℕ → List Atom → Type 0
TooLarge budget [] = Unit {0}
TooLarge budget (a ∷ atoms) = (budget < a.tokens + overhead_tokens) × TooLarge budget atoms

nothing_left {ℓ} : {A : Type ℓ} (xs ys : List A) → 0 < length xs → is_empty (xs ++ ys) ≡ true → ⊥
nothing_left [] ys h e = omega arith
nothing_left (x ∷ xs) ys h e = cc

none_selected-TooLarge :
    (budget r : ℕ) (ps : List Marked)
    → budget ≤ r + overhead_tokens
    → NonEmpty (atoms_of ps)
    → Full r ps
    → is_empty (selected_msgs ps) ≡ true
    → TooLarge budget (atoms_of ps)
unfolding selected_msgs atoms_of
none_selected-TooLarge budget r [] le n f h = tt
none_selected-TooLarge budget r (p ∷ ps) le n f h = elim (Bool-cases p.marked) [
  | inl q ↦ absurd (nothing_left p.atom.msgs (selected_msgs ps) n.0 (simp q at h))
  | inr q ↦ (
    elim f.0 [ inl e ↦ cc | inr l ↦ omega arith ],
    none_selected-TooLarge budget r ps le n.1 f.1 (simp q at h),
  )
]

-- What a window may be: within the budget, with the tokens shared out between what is kept and what
-- is dropped; or the last atom alone, where no atom fits, with all tokens counted as dropped.
abbrev pub Fitting : (String → ℕ) → List Message → List Atom → ℕ → Window → Type 0
Fitting counter ms atoms budget w =
    ((sum_tokens counter w.kept + overhead_tokens ≤ budget)
      × (sum_tokens counter w.kept + w.dropped_tokens ≡ sum_tokens counter ms))
    ⊎ (TooLarge budget atoms
        × (w.kept ≡ last_msgs atoms)
        × (w.dropped_tokens ≡ sum_tokens counter ms))

module _ (counter : String → ℕ) (ms : List Message) (atoms : List Atom) (budget : ℕ)
    (priced : Priced counter atoms) (filled_atoms : NonEmpty atoms)
    (total : all_tokens atoms ≡ sum_tokens counter ms) where
  filled : Filled
  filled = fill (budget - pinned_tokens atoms) (pin false atoms)

  filled-Fills : Fills (budget - pinned_tokens atoms) (pin false atoms) filled
  unfolding filled
  filled-Fills = fill-Fills (budget - pinned_tokens atoms) (pin false atoms)

  kept_price : sum_tokens counter (selected_msgs filled.selected) ≡ marked_tokens filled.selected
  kept_price =
      selected-price counter filled.selected
        (subst (Priced counter) (sym (filled-Fills.same_atoms ∙ atoms_of-pin false atoms)) priced)

  shared_out : marked_tokens filled.selected + filled.dropped_tokens ≡ sum_tokens counter ms
  shared_out =
      filled-Fills.shared ∙ ap total_tokens (atoms_of-pin false atoms) ∙ total-all atoms ∙ total

  all-TooLarge :
      pinned_tokens atoms ≤ budget
      → is_empty (selected_msgs filled.selected) ≡ true
      → TooLarge budget atoms
  all-TooLarge h q =
      let same = filled-Fills.same_atoms ∙ atoms_of-pin false atoms in
      subst (TooLarge budget) same (
        none_selected-TooLarge budget filled.remaining filled.selected
          (omega (arith, filled-Fills.spent, kept_price, ap (sum_tokens counter) (empty_of _ q)))
          (subst NonEmpty (sym same) filled_atoms) filled-Fills.full q)

  close-Fitting :
      pinned_tokens atoms ≤ budget → Fitting counter ms atoms budget (close atoms filled)
  close-Fitting h = elim (Bool-cases (is_empty (selected_msgs filled.selected))) [
    | inl q ↦ rw q (
        inr (
          all-TooLarge h q,
          refl,
          omega (arith, shared_out, kept_price, ap (sum_tokens counter) (empty_of _ q)),
        ))
    | inr q ↦
        rw q (
          inl
            (omega (arith, kept_price, filled-Fills.spent), omega (arith, kept_price, shared_out)))
  ]

  window-Fitting :
      {w : Window}
      → is_empty atoms ≡ false
      → window ms atoms budget ≡ fits w
      → Fitting counter ms atoms budget w
  unfolding window filled
  window-Fitting {w} some_atoms e =
      elim (Bool-cases (leb (total_tokens atoms + overhead_tokens) budget)) [
        | inl q ↦
            let same : w
                ≡ record { kept = ms; dropped = []; dropped_tokens = 0; truncated = false } =
              ground arith in
            rw same (inl (omega (arith, total, total-all atoms, leb→le _ _ q), omega arith))
        | inr q ↦ elim (Bool-cases (ltb budget (pinned_tokens atoms))) [
          | inl r ↦ let bad = rw (some_atoms, q, r) at e in cc
          | inr r ↦
              let same : close atoms filled ≡ w = ground arith in
              subst (Fitting counter ms atoms budget) same (close-Fitting (ground arith))
        ]
      ]

not_empty_of_msgs : (atoms : List Atom) → is_empty (all_msgs atoms) ≡ false → is_empty atoms ≡ false
not_empty_of_msgs [] h = cc
not_empty_of_msgs (a ∷ atoms) h = refl

pub atoms_not_empty :
    (counter : String → ℕ) (ms : List Message)
    → is_empty ms ≡ false
    → is_empty (build_atoms_with_counter counter ms) ≡ false
atoms_not_empty counter ms h = not_empty_of_msgs _ (rw (atoms_partition counter ms).0 h)

-- What a window over messages that are not none keeps fits the budget with the overhead of a request,
-- and its tokens and those of what is dropped make up the tokens of all the messages; or else no
-- atom fits the budget with that overhead, and it keeps the messages of the last atom, and counts the
-- tokens of all messages as dropped.
pub window_fits :
    (ms : List Message) (budget : ℕ) {w : Window}
    → is_empty ms ≡ false
    → sliding_window_detailed ms budget ≡ fits w
    → Fitting heuristic_token_count ms (build_atoms_fast ms) (effective_budget budget) w
unfolding sliding_window_detailed build_atoms_fast
window_fits ms budget h e =
    window-Fitting heuristic_token_count ms (build_atoms_fast ms) (effective_budget budget)
      (atoms-Priced heuristic_token_count ms) (atoms-NonEmpty heuristic_token_count ms)
      (atoms_partition heuristic_token_count ms).1 (atoms_not_empty heuristic_token_count ms h) e
