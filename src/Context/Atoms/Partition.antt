-- ===== src/Context/Atoms/Partition.antt =====
-- The messages, tokens and places of the atoms of internal/web/context_budget.go.
use m365_copilot2api_dsm.Prelude.{
  ℕ, zero, suc, ◌+◌, ◌≤◌, ◌<◌, ◌≡◌, refl, ap, sym, ◌∙◌, Bool, String, List, [], ◌∷◌, ◌++◌, length,
  arith, length-append, Bool-cases, inl, inr, is_empty,
}
use m365_copilot2api_dsm.Context.Messages.{
  Message, Role, system, assistant, tool, user, other, role_of,
}
use m365_copilot2api_dsm.Context.Atoms.{
  Atom, span, is_system_role, is_tool_role, sum_tokens, group_of, build, mark_anchor,
  build_atoms_with_counter,
}

-- The messages of a list of atoms, and the tokens.
abbrev pub all_msgs : List Atom → List Message
all_msgs [] = []
all_msgs (a ∷ atoms) = a.msgs ++ all_msgs atoms

abbrev pub all_tokens : List Atom → ℕ
all_tokens [] = 0
all_tokens (a ∷ atoms) = a.tokens + all_tokens atoms

span-append : (p : Role → Bool) (ms : List Message) → (span p ms).0 ++ (span p ms).1 ≡ ms
unfolding span
span-append p [] = refl
span-append p (m ∷ ms) = elim (Bool-cases (p (role_of m))) [
  | inl q ↦ rw (q, span) (ap (◌∷◌ m) (span-append p ms))
  | inr q ↦ rw (q, span)
]

group-append :
    (r : Role) (m : Message) (ms : List Message)
    → (group_of r m ms).msgs ++ (group_of r m ms).rest ≡ m ∷ ms
unfolding group_of
group-append system m ms = ap (◌∷◌ m) (span-append is_system_role ms)
group-append assistant m ms = elim (Bool-cases (is_empty m.tool_calls)) [
  | inl q ↦ rw q
  | inr q ↦ rw q (ap (◌∷◌ m) (span-append is_tool_role ms))
]
group-append tool m ms = ap (◌∷◌ m) (span-append is_tool_role ms)
group-append user m ms = refl
group-append other m ms = refl

-- A group has its first message.
group_pos : (r : Role) (m : Message) (ms : List Message) → 0 < length (group_of r m ms).msgs
unfolding group_of
group_pos system m ms = omega arith
group_pos assistant m ms = elim (Bool-cases (is_empty m.tool_calls)) [
  | inl q ↦ rw q (omega arith)
  | inr q ↦ rw q (omega arith)
]
group_pos tool m ms = omega arith
group_pos user m ms = omega arith
group_pos other m ms = omega arith

group_rest :
    (r : Role) (m : Message) (ms : List Message) → length (group_of r m ms).rest ≤ length ms
group_rest r m ms = omega (
  arith,
  ap length (group-append r m ms),
  length-append (group_of r m ms).msgs (group_of r m ms).rest,
  group_pos r m ms,
)

pub sum_tokens-append :
    (counter : String → ℕ) (ms ns : List Message)
    → sum_tokens counter (ms ++ ns) ≡ sum_tokens counter ms + sum_tokens counter ns
sum_tokens-append counter [] ns = omega arith
sum_tokens-append counter (m ∷ ms) ns = omega (arith, sum_tokens-append counter ms ns)

build-msgs :
    (counter : String → ℕ) (fuel start : ℕ) (ms : List Message)
    → length ms ≤ fuel
    → all_msgs (build counter fuel start ms) ≡ ms
unfolding build
build-msgs counter fuel start [] h = refl
build-msgs counter zero start (m ∷ ms) h = absurd (omega arith)
build-msgs counter (suc fuel) start (m ∷ ms) h =
    let g = group_of (role_of m) m ms in
    let rest : length g.rest ≤ fuel = omega (arith, group_rest (role_of m) m ms) in
    ap (◌++◌ g.msgs) (build-msgs counter fuel (start + length g.msgs) g.rest rest)
    ∙ group-append (role_of m) m ms

build-tokens :
    (counter : String → ℕ) (fuel start : ℕ) (ms : List Message)
    → length ms ≤ fuel
    → all_tokens (build counter fuel start ms) ≡ sum_tokens counter ms
unfolding build
build-tokens counter fuel start [] h = refl
build-tokens counter zero start (m ∷ ms) h = absurd (omega arith)
build-tokens counter (suc fuel) start (m ∷ ms) h =
    let g = group_of (role_of m) m ms in
    let rest : length g.rest ≤ fuel = omega (arith, group_rest (role_of m) m ms) in
    ap (◌+◌ (sum_tokens counter g.msgs))
      (build-tokens counter fuel (start + length g.msgs) g.rest rest)
    ∙ sym (sum_tokens-append counter g.msgs g.rest)
    ∙ ap (sum_tokens counter) (group-append (role_of m) m ms)

-- Each atom starts where the one before it ends, from `n` on, and ends after its messages.
abbrev pub Chained : ℕ → List Atom → Type 0
Chained n [] = Unit {0}
Chained n (a ∷ atoms) = (a.start ≡ n) × (a.end ≡ n + length a.msgs) × Chained a.end atoms

build-Chained :
    (counter : String → ℕ) (fuel start : ℕ) (ms : List Message)
    → Chained start (build counter fuel start ms)
unfolding build
build-Chained counter fuel start [] = tt
build-Chained counter zero start (m ∷ ms) = tt
build-Chained counter (suc fuel) start (m ∷ ms) =
    let g = group_of (role_of m) m ms in
    (refl, refl, build-Chained counter fuel (start + length g.msgs) g.rest)

mark_anchor-msgs : (atoms : List Atom) → all_msgs (mark_anchor atoms) ≡ all_msgs atoms
unfolding mark_anchor
mark_anchor-msgs [] = refl
mark_anchor-msgs (a ∷ atoms) = ground (arith, mark_anchor-msgs atoms)

mark_anchor-tokens : (atoms : List Atom) → all_tokens (mark_anchor atoms) ≡ all_tokens atoms
unfolding mark_anchor
mark_anchor-tokens [] = refl
mark_anchor-tokens (a ∷ atoms) = ground (arith, mark_anchor-tokens atoms)

mark_anchor-Chained : (n : ℕ) (atoms : List Atom) → Chained n atoms → Chained n (mark_anchor atoms)
unfolding mark_anchor
mark_anchor-Chained n [] h = tt
mark_anchor-Chained n (a ∷ atoms) h = ground (arith, mark_anchor-Chained a.end atoms)

-- The tokens of each atom are those of its messages.
abbrev pub Priced : (String → ℕ) → List Atom → Type 0
Priced counter [] = Unit {0}
Priced counter (a ∷ atoms) = (a.tokens ≡ sum_tokens counter a.msgs) × Priced counter atoms

build-Priced :
    (counter : String → ℕ) (fuel start : ℕ) (ms : List Message)
    → Priced counter (build counter fuel start ms)
unfolding build
build-Priced counter fuel start [] = tt
build-Priced counter zero start (m ∷ ms) = tt
build-Priced counter (suc fuel) start (m ∷ ms) =
    let g = group_of (role_of m) m ms in
    (refl, build-Priced counter fuel (start + length g.msgs) g.rest)

mark_anchor-Priced :
    (counter : String → ℕ) (atoms : List Atom)
    → Priced counter atoms
    → Priced counter (mark_anchor atoms)
unfolding mark_anchor
mark_anchor-Priced counter [] h = tt
mark_anchor-Priced counter (a ∷ atoms) h = ground (arith, mark_anchor-Priced counter atoms)

pub atoms-Priced :
    (counter : String → ℕ) (ms : List Message)
    → Priced counter (build_atoms_with_counter counter ms)
unfolding build_atoms_with_counter
atoms-Priced counter ms = mark_anchor-Priced counter _ (build-Priced counter (length ms) 0 ms)

-- Every atom has a message.
abbrev pub NonEmpty : List Atom → Type 0
NonEmpty [] = Unit {0}
NonEmpty (a ∷ atoms) = (0 < length a.msgs) × NonEmpty atoms

build-NonEmpty :
    (counter : String → ℕ) (fuel start : ℕ) (ms : List Message)
    → NonEmpty (build counter fuel start ms)
unfolding build
build-NonEmpty counter fuel start [] = tt
build-NonEmpty counter zero start (m ∷ ms) = tt
build-NonEmpty counter (suc fuel) start (m ∷ ms) =
    let g = group_of (role_of m) m ms in
    (group_pos (role_of m) m ms, build-NonEmpty counter fuel (start + length g.msgs) g.rest)

mark_anchor-NonEmpty : (atoms : List Atom) → NonEmpty atoms → NonEmpty (mark_anchor atoms)
unfolding mark_anchor
mark_anchor-NonEmpty [] h = tt
mark_anchor-NonEmpty (a ∷ atoms) h = ground (arith, mark_anchor-NonEmpty atoms)

pub atoms-NonEmpty :
    (counter : String → ℕ) (ms : List Message) → NonEmpty (build_atoms_with_counter counter ms)
unfolding build_atoms_with_counter
atoms-NonEmpty counter ms = mark_anchor-NonEmpty _ (build-NonEmpty counter (length ms) 0 ms)

-- The atoms hold all the messages, each once and in order, lie one behind the other, and have
-- together the tokens of all messages, whatever counts tokens.
pub atoms_partition :
    (counter : String → ℕ) (ms : List Message)
    → let atoms = build_atoms_with_counter counter ms in
      (all_msgs atoms ≡ ms) × (all_tokens atoms ≡ sum_tokens counter ms) × Chained 0 atoms
unfolding build_atoms_with_counter
atoms_partition counter ms = (
  mark_anchor-msgs (build counter (length ms) 0 ms)
      ∙ build-msgs counter (length ms) 0 ms (omega arith),
  mark_anchor-tokens (build counter (length ms) 0 ms)
      ∙ build-tokens counter (length ms) 0 ms (omega arith),
  mark_anchor-Chained 0 (build counter (length ms) 0 ms) (build-Chained counter (length ms) 0 ms),
)
