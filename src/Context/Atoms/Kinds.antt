-- ===== src/Context/Atoms/Kinds.antt =====
-- The system messages in the atoms of internal/web/context_budget.go, by the kinds of the atoms.
use m365_copilot2api_dsm.Prelude.{
  ℕ, zero, suc, ◌+◌, ◌≡◌, refl, ap, ◌∙◌, Bool, true, false, String, List, [], ◌∷◌, ◌++◌, filter,
  length, is_empty, arith, Bool-cases, inl, inr, ◌⊎◌,
}
use m365_copilot2api_dsm.Context.Messages.{
  Message, Role, system, assistant, tool, user, other, role_of,
}
use m365_copilot2api_dsm.Context.Atoms.{
  Atom, AtomKind, is_system_role, is_tool_role, span, group_of, build, mark_anchor,
  build_atoms_with_counter, kind_system,
}

-- The messages with the role system or developer.
abbrev pub system_of : List Message → List Message
system_of = filter (λ m. is_system_role (role_of m))

pub system_of-append : (ms ns : List Message) → system_of (ms ++ ns) ≡ system_of ms ++ system_of ns
system_of-append [] ns = refl
system_of-append (m ∷ ms) ns = ground (arith, system_of-append ms ns)

abbrev pub is_system : AtomKind → Bool
is_system kind_system = true
is_system _ = false

-- An atom of another kind has no system message.
abbrev pub NoOther : List Atom → Type 0
NoOther [] = Unit {0}
NoOther (a ∷ atoms) = ((is_system a.kind ≡ true) ⊎ (system_of a.msgs ≡ [])) × NoOther atoms

not_system :
    (m : Message) (ms : List Message)
    → is_system_role (role_of m) ≡ false
    → system_of (m ∷ ms) ≡ system_of ms
not_system m ms h = ground arith

tool_not_system : (r : Role) → is_tool_role r ≡ true → is_system_role r ≡ false
tool_not_system r h = ground arith

span_tools : (ms : List Message) → system_of (span is_tool_role ms).0 ≡ []
unfolding span
span_tools [] = refl
span_tools (m ∷ ms) = elim (Bool-cases (is_tool_role (role_of m))) [
  | inl q ↦
      rw (q, span)
        (not_system m (span is_tool_role ms).0 (tool_not_system (role_of m) q) ∙ span_tools ms)
  | inr q ↦ rw (q, span)
]

group_no_other :
    (r : Role) (m : Message) (ms : List Message)
    → role_of m ≡ r
    → let g = group_of r m ms in (is_system g.kind ≡ true) ⊎ (system_of g.msgs ≡ [])
unfolding group_of
group_no_other system m ms e = inl refl
group_no_other assistant m ms e = elim (Bool-cases (is_empty m.tool_calls)) [
  | inl q ↦ simp q (inr (not_system m [] (ap is_system_role e)))
  | inr q ↦
      simp q (inr (not_system m (span is_tool_role ms).0 (ap is_system_role e) ∙ span_tools ms))
]
group_no_other tool m ms e =
    inr (not_system m (span is_tool_role ms).0 (ap is_system_role e) ∙ span_tools ms)
group_no_other user m ms e = inr (not_system m [] (ap is_system_role e))
group_no_other other m ms e = inr (not_system m [] (ap is_system_role e))

build-NoOther :
    (counter : String → ℕ) (fuel start : ℕ) (ms : List Message)
    → NoOther (build counter fuel start ms)
unfolding build
build-NoOther counter fuel start [] = tt
build-NoOther counter zero start (m ∷ ms) = tt
build-NoOther counter (suc fuel) start (m ∷ ms) =
    let g = group_of (role_of m) m ms in
    (
      group_no_other (role_of m) m ms refl,
      build-NoOther counter fuel (start + length g.msgs) g.rest,
    )

mark_anchor-NoOther : (atoms : List Atom) → NoOther atoms → NoOther (mark_anchor atoms)
unfolding mark_anchor
mark_anchor-NoOther [] h = tt
mark_anchor-NoOther (a ∷ atoms) h = ground (arith, mark_anchor-NoOther atoms)

pub atoms-NoOther :
    (counter : String → ℕ) (ms : List Message) → NoOther (build_atoms_with_counter counter ms)
unfolding build_atoms_with_counter
atoms-NoOther counter ms = mark_anchor-NoOther _ (build-NoOther counter (length ms) 0 ms)
