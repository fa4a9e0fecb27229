-- ===== src/Context/Atoms.antt =====
-- internal/web/context_budget.go: `buildAtomsWithCounter`, the groups of messages that stay together.
pub mod Partition
pub mod Kinds
use m365_copilot2api_dsm.Prelude.{
  ℕ, zero, suc, ◌+◌, Bool, true, false, ◌&&◌, not, String, List, [], ◌∷◌, ◌++◌, if◌then◌else◌,
  length, is_empty,
}
use m365_copilot2api_dsm.Context.Messages.{
  Message, Role, system, assistant, tool, user, other, role_of, heuristic_token_count,
  estimate_message_tokens,
}

pub data AtomKind : Type 0 where
  kind_system kind_user kind_tool kind_assist kind_anchor : AtomKind

pub record Atom : Type 0 where
  pub kind : AtomKind
  pub msgs : List Message
  pub tokens : ℕ
  pub start : ℕ
  pub end : ℕ

abbrev pub is_system_role : Role → Bool
is_system_role system = true
is_system_role _ = false

abbrev pub is_tool_role : Role → Bool
is_tool_role tool = true
is_tool_role _ = false

-- The messages at the front whose role passes a test, and the others: an inner loop.
unfoldable pub span : (Role → Bool) → List Message → List Message × List Message
span p [] = ([], [])
span p (m ∷ ms) = elim (p (role_of m)) [
  | true ↦ let (taken, rest) = span p ms in (m ∷ taken, rest)
  | false ↦ ([], m ∷ ms)
]

-- The tokens of a group.
abbrev pub sum_tokens : (String → ℕ) → List Message → ℕ
sum_tokens counter [] = 0
sum_tokens counter (m ∷ ms) = estimate_message_tokens counter m + sum_tokens counter ms

abbrev pub atom_of : (String → ℕ) → AtomKind → List Message → ℕ → Atom
atom_of counter kind msgs start = record {
  kind = kind;
  msgs = msgs;
  tokens = sum_tokens counter msgs;
  start = start;
  end = start + length msgs;
}

-- The group that starts with a message, by its role: its kind, its messages and the rest.
pub record Group : Type 0 where
  pub kind : AtomKind
  pub msgs : List Message
  pub rest : List Message

abbrev with_span : AtomKind → Message → List Message × List Message → Group
with_span kind m (taken, rest) = record { kind = kind; msgs = m ∷ taken; rest = rest }

abbrev alone : AtomKind → Message → List Message → Group
alone kind m ms = record { kind = kind; msgs = m ∷ []; rest = ms }

group_of : Role → Message → List Message → Group
unfolding span
group_of system m ms = with_span kind_system m (span is_system_role ms)
group_of assistant m ms =
    if not (is_empty m.tool_calls)
    then with_span kind_tool m (span is_tool_role ms)
    else alone kind_assist m ms
group_of tool m ms = with_span kind_tool m (span is_tool_role ms)
group_of user m ms = alone kind_user m ms
group_of other m ms = alone kind_user m ms

-- The outer loop, on fuel: a round for each group.
unfoldable pub build : (String → ℕ) → ℕ → ℕ → List Message → List Atom
unfolding group_of
build counter fuel start [] = []
build counter zero start (m ∷ ms) = []
build counter (suc fuel) start (m ∷ ms) =
    let g = group_of (role_of m) m ms in
    atom_of counter g.kind g.msgs start ∷ build counter fuel (start + length g.msgs) g.rest

-- The first user atom becomes the anchor.
unfoldable pub mark_anchor : List Atom → List Atom
mark_anchor [] = []
mark_anchor (a ∷ atoms) = elim a.kind [
  | kind_user ↦ record a { kind = kind_anchor } ∷ atoms
  | _ ↦ a ∷ mark_anchor atoms
]

unfoldable pub build_atoms_with_counter : (String → ℕ) → List Message → List Atom
unfolding build mark_anchor
build_atoms_with_counter counter ms = mark_anchor (build counter (length ms) 0 ms)

-- `buildAtomsFast`.
unfoldable pub build_atoms_fast : List Message → List Atom
unfolding build_atoms_with_counter
build_atoms_fast = build_atoms_with_counter heuristic_token_count
