-- ===== src/Context/Window/Choice.antt =====
-- Which atoms `slidingWindowDetailed` of internal/web/context_budget.go keeps and drops.
use m365_copilot2api_dsm.Prelude.{
  ℕ, ◌+◌, ◌-◌, ◌≤◌, ◌≡◌, refl, subst, ◌∙◌, true, false, List, ltb, leb, if◌then◌else◌, is_empty,
  arith, Bool-cases, inl, inr,
}
use m365_copilot2api_dsm.Context.Messages.{Message, overhead_tokens}
use m365_copilot2api_dsm.Context.Atoms.{Atom, build_atoms_fast}
use m365_copilot2api_dsm.Context.Window.{
  Marked, pin, marked_tokens, total_tokens, fill, selected_msgs, last_msgs, Window, close, fits,
  window, sliding_window_detailed, effective_budget, pinned_tokens,
}
use m365_copilot2api_dsm.Context.Window.Fit.{atoms_of, drops, Full, fill-Fills, atoms_of-pin}

-- How a window chose: the marks of the atoms, with the messages of the selected ones kept in the order of
-- the conversation, or those of the last atom where there are none, and the messages of the atoms that
-- were not selected dropped from the last atom to the first.
pub record Chosen (atoms : List Atom) (budget : ℕ) (w : Window) (ps : List Marked) : Type 0 where
  pub same_atoms : atoms_of ps ≡ atoms
  pub kept_are :
      w.kept ≡ (if is_empty (selected_msgs ps) then last_msgs atoms else selected_msgs ps)
  pub dropped_are : w.dropped ≡ drops ps
  pub full : Full (budget - (marked_tokens ps + overhead_tokens)) ps

filled-Chosen :
    (atoms : List Atom) (budget : ℕ)
    → pinned_tokens atoms ≤ budget
    → let f = fill (budget - pinned_tokens atoms) (pin false atoms) in
      Chosen atoms budget (close atoms f) f.selected
filled-Chosen atoms budget h =
    let v = fill-Fills (budget - pinned_tokens atoms) (pin false atoms) in
    let left : (fill (budget - pinned_tokens atoms) (pin false atoms)).remaining
        ≡ budget
          - (marked_tokens (fill (budget - pinned_tokens atoms) (pin false atoms)).selected
              + overhead_tokens) =
      omega (arith, v.spent) in
    record {
      same_atoms = v.same_atoms ∙ atoms_of-pin false atoms;
      kept_are = refl;
      dropped_are = v.dropped_are;
      full =
          subst (λ (n : ℕ). Full n (fill (budget - pinned_tokens atoms) (pin false atoms)).selected)
            left v.full;
    }

window-Chosen :
    (ms : List Message) (atoms : List Atom) (budget : ℕ) {w : Window}
    → w.truncated ≡ true
    → window ms atoms budget ≡ fits w
    → (ps : List Marked) × Chosen atoms budget w ps
unfolding window
window-Chosen ms atoms budget {w} cut e = elim (Bool-cases (is_empty atoms)) [
  | inl p ↦ absurd (ground arith)
  | inr p ↦ elim (Bool-cases (leb (total_tokens atoms + overhead_tokens) budget)) [
    | inl q ↦ absurd (ground arith)
    | inr q ↦ elim (Bool-cases (ltb budget (pinned_tokens atoms))) [
      | inl r ↦ let bad = rw (p, q, r) at e in cc
      | inr r ↦
          let f = fill (budget - pinned_tokens atoms) (pin false atoms) in
          let same : close atoms f ≡ w = ground arith in
          (
            f.selected,
            subst (λ v. Chosen atoms budget v f.selected) same
                (filled-Chosen atoms budget (ground arith)),
          )
    ]
  ]
]

-- A truncated window selects whole atoms. It keeps the messages of those, in the order of the
-- conversation, and drops the messages of all others, from the last atom to the first; and no atom that
-- it drops would fit into what the budget leaves. Where the selected atoms have no message, it keeps
-- the last atom, also when that one was not selected and so is among the dropped.
pub window_chooses :
    (ms : List Message) (budget : ℕ) {w : Window}
    → w.truncated ≡ true
    → sliding_window_detailed ms budget ≡ fits w
    → (ps : List Marked) × Chosen (build_atoms_fast ms) (effective_budget budget) w ps
unfolding sliding_window_detailed
window_chooses ms budget cut e = window-Chosen ms _ _ cut e
