-- ===== src/Sessions/Clone.antt =====
-- The messages that `cloneMessages` of internal/web/session_resolver.go keeps.
use mathlib.Core.List.{reverse, reverse-cons, reverse-reverse, append_assoc, append-nil}
use m365_copilot2api_dsm.Prelude.{
  ℕ, zero, suc, ◌+◌, ◌-◌, ◌≤◌, ◌<◌, ◌≡◌, refl, sym, ap, subst, ◌∙◌, String, List, [], ◌∷◌, ◌++◌,
  arith, inl, inr, ◌⊎◌, map, Bool-cases, ltb, leb, ◌==◌, length, drop, length-append, length-map,
}
use m365_copilot2api_dsm.Context.Atoms.{Atom}
use m365_copilot2api_dsm.Context.Atoms.Partition.{all_msgs, Chained, atoms_partition}
use m365_copilot2api_dsm.Sessions.Store.{OaiMsg}
use m365_copilot2api_dsm.Sessions.Matching.{atoms_of, context_message}
use m365_copilot2api_dsm.Sessions.Bind.{history_limit, take_back, clone_start, clone_messages}

-- The messages of a list of groups.
abbrev size : List Atom → ℕ
size atoms = length (all_msgs atoms)

size-append : (xs ys : List Atom) → size (xs ++ ys) ≡ size xs + size ys
size-append [] ys = omega arith
size-append (a ∷ xs) ys = omega (
  arith,
  size-append xs ys,
  length-append a.msgs (all_msgs xs),
  length-append a.msgs (all_msgs (xs ++ ys)),
)

-- The groups behind the first of a reversed list end where it starts.
abbrev Behind : List Atom → Type 0
Behind [] = Unit {0}
Behind (a ∷ rev) = (a.start ≡ size (reverse rev)) × (a.end ≡ a.start + length a.msgs) × Behind rev

size-reverse_cons :
    (a : Atom) (rev : List Atom) → size (reverse (a ∷ rev)) ≡ size (reverse rev) + length a.msgs
size-reverse_cons a rev =
    ap size (reverse-cons a rev)
    ∙ size-append (reverse rev) (a ∷ [])
    ∙ ap (λ (n : ℕ). size (reverse rev) + n) (length-append a.msgs [] ∙ omega arith)

reverse_onto :
    (a : Atom) (atoms rev : List Atom) → reverse (a ∷ atoms) ++ rev ≡ reverse atoms ++ (a ∷ rev)
reverse_onto a atoms rev =
    ap (λ l. l ++ rev) (reverse-cons a atoms) ∙ append_assoc (reverse atoms) (a ∷ []) rev

Chained-Behind :
    (n : ℕ) (atoms rev : List Atom)
    → Chained n atoms
    → Behind rev
    → n ≡ size (reverse rev)
    → Behind (reverse atoms ++ rev)
Chained-Behind n [] rev c b e = b
Chained-Behind n (a ∷ atoms) rev c b e = subst Behind (sym (reverse_onto a atoms rev)) (
    Chained-Behind a.end atoms (a ∷ rev) c.2 (c.0 ∙ e, omega (arith, c), b)
      (omega (arith, c.0, c.1, size-reverse_cons a rev, e)))

-- The loop goes back to the start of a group, for at most 512 messages in all.
take_back-lem :
    (rev later : List Atom) (count start : ℕ)
    → Behind rev
    → count ≡ size later
    → start ≡ size (reverse rev)
    → count ≤ history_limit
    → (earlier kept : List Atom) × (reverse rev ++ later ≡ earlier ++ kept)
      × ((take_back count start rev).0 ≡ size kept)
      × ((take_back count start rev).1 ≡ size earlier)
      × (size kept ≤ history_limit)
unfolding take_back
take_back-lem [] later count start b c s h = ([], later, refl, c, s, omega (arith, c, h))
take_back-lem (a ∷ rev) later count start b c s h =
    let c' = a.end - a.start in
    elim (Bool-cases (ltb history_limit (count + c'))) [
      | inl q ↦ rw q (reverse (a ∷ rev), later, refl, c, s, omega (arith, c, h))
      | inr q ↦ rw q (
          let (earlier, kept, split, size_kept, size_earlier, fits) =
            take_back-lem rev (a ∷ later) (count + c') a.start b.2
              (omega (arith, b.1, c, length-append a.msgs (all_msgs later))) b.0 (ground arith) in
          (earlier, kept, reverse_onto a rev later ∙ split, size_kept, size_earlier, fits))
    ]

-- At most 512 messages, and at least one; or a single group, which may be larger.
abbrev pub Bounded : List Atom → Type 0
Bounded kept =
    ((1 ≤ length (all_msgs kept)) × (length (all_msgs kept) ≤ history_limit))
    ⊎ ((a : Atom) × (kept ≡ a ∷ []))

clone_start-lem :
    (ms : List OaiMsg) (rev : List Atom)
    → Behind rev
    → size (reverse rev) ≡ length ms
    → 1 ≤ length ms
    → (earlier kept : List Atom) × (reverse rev ≡ earlier ++ kept)
      × (clone_start ms rev ≡ size earlier)
      × Bounded kept
unfolding clone_start
clone_start-lem ms [] b e h = absurd (omega arith)
clone_start-lem ms (a ∷ rev) b e h =
    let (earlier, kept, split, size_kept, size_earlier, fits) =
      take_back-lem (a ∷ rev) [] 0 (length ms) b (omega arith) (sym e) (omega arith) in
    elim (Bool-cases ((take_back 0 (length ms) (a ∷ rev)).0 == 0)) [
      | inl q ↦ rw q (reverse rev, a ∷ [], reverse-cons a rev, b.0, inr (a, refl))
      | inr q ↦ rw q (
        earlier,
        kept,
        sym (append-nil (reverse (a ∷ rev))) ∙ split,
        size_earlier,
        inl (ground (arith, q, size_kept), fits),
      )
    ]

length-drop : (n : ℕ) (ms : List OaiMsg) → length (drop n ms) ≡ length ms - n
length-drop zero ms = omega arith
length-drop (suc n) [] = omega arith
length-drop (suc n) (m ∷ ms) = omega (arith, length-drop n ms)

-- A history of at most 512 messages is kept whole. Of a longer one, the messages from the start of one
-- of its groups on are kept, so that no group is cut: at least one and at most 512 of them, or the
-- last group alone, however large it is.
pub clone_messages-lem :
    (counter : String → ℕ) (ms : List OaiMsg)
    → ((length ms ≤ history_limit) × (clone_messages counter ms ≡ ms))
      ⊎ ((history_limit < length ms)
          × ((earlier kept : List Atom) × (atoms_of counter ms ≡ earlier ++ kept)
              × (clone_messages counter ms ≡ drop (length (all_msgs earlier)) ms)
              × (length (clone_messages counter ms) ≡ length (all_msgs kept))
              × Bounded kept))
unfolding clone_messages
clone_messages-lem counter ms = elim (Bool-cases (leb (length ms) history_limit)) [
  | inl q ↦ rw q (inl (ground arith, refl))
  | inr q ↦
      let atoms = atoms_of counter ms in
      let (whole, tokens, chained) = atoms_partition counter (map context_message ms) in
      let total : size atoms ≡ length ms = ap length whole ∙ length-map context_message ms in
      let behind : Behind (reverse atoms) =
        subst Behind (append-nil (reverse atoms)) (Chained-Behind 0 atoms [] chained tt refl) in
      let back = reverse-reverse atoms in
      let (earlier, kept, split, start, bounded) =
        clone_start-lem ms (reverse atoms) behind (ap size back ∙ total) (ground arith) in
      let parts = sym back ∙ split in
      rw q (
        inr (
          ground arith,
          (
            earlier,
            kept,
            parts,
            ap (λ n. drop n ms) start,
            length-drop _ ms ∙ omega (arith, start, total, ap size parts, size-append earlier kept),
            bounded,
          ),
        ))
]
