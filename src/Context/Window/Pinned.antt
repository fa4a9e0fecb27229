-- ===== src/Context/Window/Pinned.antt =====
-- The system messages in `slidingWindowDetailed` of internal/web/context_budget.go.
use m365_copilot2api_dsm.Prelude.{
  ℕ, ◌+◌, ◌-◌, ◌≡◌, refl, ap, sym, ◌∙◌, Bool, true, false, ◌||◌, List, [], ◌∷◌, ◌++◌, ltb, leb,
  is_empty, arith, Bool-cases, inl, inr, ◌⊎◌,
}
use m365_copilot2api_dsm.Context.Messages.{Message, heuristic_token_count, overhead_tokens}
use m365_copilot2api_dsm.Context.Atoms.{Atom, build_atoms_fast}
use m365_copilot2api_dsm.Context.Atoms.Kinds.{system_of, system_of-append, NoOther, atoms-NoOther}
use m365_copilot2api_dsm.Context.Atoms.Partition.{all_msgs, atoms_partition}
use m365_copilot2api_dsm.Context.Window.{
  Marked, is_anchor, pin, fill, selected_msgs, last_msgs, Window, close, fits, window,
  sliding_window_detailed, effective_budget, pinned_tokens, total_tokens,
}
use m365_copilot2api_dsm.Context.Window.Fit.{atoms_of, fill-Fills, atoms_of-pin, empty_of}

-- Each atom is marked, or has no system message.
abbrev Covers : List Marked → Type 0
Covers [] = Unit {0}
Covers (p ∷ ps) = ((p.marked ≡ true) ⊎ (system_of p.atom.msgs ≡ [])) × Covers ps

pin-Covers : (seen : Bool) (atoms : List Atom) → NoOther atoms → Covers (pin seen atoms)
unfolding pin
pin-Covers seen [] h = tt
pin-Covers seen (a ∷ atoms) h = (
  elim h.0 [ inl e ↦ inl (ground arith) | inr e ↦ inr e ],
  pin-Covers (seen || is_anchor a.kind) atoms h.1,
)

fill-Covers : (r : ℕ) (ps : List Marked) → Covers ps → Covers (fill r ps).selected
unfolding fill
fill-Covers r [] h = tt
fill-Covers r (p ∷ ps) h = ground (arith, fill-Covers r ps h.1)

covered :
    (ps : List Marked)
    → Covers ps
    → system_of (selected_msgs ps) ≡ system_of (all_msgs (atoms_of ps))
unfolding selected_msgs atoms_of
covered [] h = refl
covered (p ∷ ps) h = elim (Bool-cases p.marked) [
  | inl q ↦ simp (q, system_of-append) (ap (◌++◌ (system_of p.atom.msgs)) (covered ps h.1))
  | inr q ↦ simp (q, system_of-append, none_in h.0 q) (covered ps h.1)
]
  where
    none_in :
        (p.marked ≡ true) ⊎ (system_of p.atom.msgs ≡ [])
        → p.marked ≡ false
        → system_of p.atom.msgs ≡ []
    none_in (inl e) q = cc
    none_in (inr e) q = e

left_empty {ℓ} : {A : Type ℓ} (xs ys : List A) → xs ++ ys ≡ [] → xs ≡ []
left_empty [] ys h = refl
left_empty (x ∷ xs) ys h = cc

right_empty {ℓ} : {A : Type ℓ} (xs ys : List A) → xs ++ ys ≡ [] → ys ≡ []
right_empty [] ys h = h
right_empty (x ∷ xs) ys h = cc

system_of-last :
    (atoms : List Atom) → system_of (all_msgs atoms) ≡ [] → system_of (last_msgs atoms) ≡ []
unfolding last_msgs
system_of-last [] h = refl
system_of-last (a ∷ []) h = left_empty _ [] (sym (system_of-append a.msgs []) ∙ h)
system_of-last (a ∷ b ∷ atoms) h =
    system_of-last (b ∷ atoms)
      (right_empty (system_of a.msgs) _ (sym (system_of-append a.msgs (all_msgs (b ∷ atoms))) ∙ h))

module _ (ms : List Message) (atoms : List Atom) (budget : ℕ) (pure : NoOther atoms)
    (whole : all_msgs atoms ≡ ms) where
  filled : List Marked
  filled = (fill (budget - pinned_tokens atoms) (pin false atoms)).selected

  filled_system : system_of (selected_msgs filled) ≡ system_of ms
  unfolding filled
  filled_system =
      covered filled (fill-Covers _ (pin false atoms) (pin-Covers false atoms pure))
      ∙ ap (λ l. system_of (all_msgs l))
          ((fill-Fills _ (pin false atoms)).same_atoms ∙ atoms_of-pin false atoms)
      ∙ ap system_of whole

  close_system :
      system_of (close atoms (fill (budget - pinned_tokens atoms) (pin false atoms))).kept
      ≡ system_of ms
  unfolding filled
  close_system = elim (Bool-cases (is_empty (selected_msgs filled))) [
    | inl q ↦
        let none_kept : system_of ms ≡ [] =
          sym filled_system ∙ ap system_of (empty_of (selected_msgs filled) q) in
        simp q (system_of-last atoms (ap system_of whole ∙ none_kept) ∙ sym none_kept)
    | inr q ↦ simp q filled_system
  ]

  window_system : {w : Window} → window ms atoms budget ≡ fits w → system_of w.kept ≡ system_of ms
  unfolding window
  window_system {w} e = elim (Bool-cases (is_empty atoms)) [
    | inl p ↦ ground arith
    | inr p ↦ elim (Bool-cases (leb (total_tokens atoms + overhead_tokens) budget)) [
      | inl q ↦ ground arith
      | inr q ↦ elim (Bool-cases (ltb budget (pinned_tokens atoms))) [
        | inl r ↦ let bad = rw (p, q, r) at e in cc
        | inr r ↦
            let same : close atoms (fill (budget - pinned_tokens atoms) (pin false atoms)) ≡ w =
              ground arith in
            ap (λ v. system_of v.kept) (sym same) ∙ close_system
      ]
    ]
  ]

-- Whatever the window drops, the system and developer messages that it keeps are all those of the
-- conversation, in their order.
pub window_keeps_system :
    (ms : List Message) (budget : ℕ) {w : Window}
    → sliding_window_detailed ms budget ≡ fits w
    → system_of w.kept ≡ system_of ms
unfolding sliding_window_detailed build_atoms_fast
window_keeps_system ms budget e =
    window_system ms (build_atoms_fast ms) (effective_budget budget)
      (atoms-NoOther heuristic_token_count ms) (atoms_partition heuristic_token_count ms).0 e
