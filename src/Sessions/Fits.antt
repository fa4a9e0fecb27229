-- ===== src/Sessions/Fits.antt =====
-- When messages are equal and a history fits, in internal/web/session_resolver.go.
use mathlib.Core.List.{reverse}
use m365_copilot2api_dsm.Prelude.{
  ℕ, suc, ◌+◌, ◌≤◌, ◌≡◌, refl, ap, true, Option, none, some, String, List, [], ◌∷◌, ◌++◌, arith,
  eq_iff, inl, inr, map, Bool-cases, ◌==◌, length, value_or, is_some, take, drop, zero,
  length-append,
}
use m365_copilot2api_dsm.Context.Atoms.{Atom}
use m365_copilot2api_dsm.Context.Atoms.Partition.{all_msgs, Chained, atoms_partition}
use m365_copilot2api_dsm.Sessions.Store.{OaiMsg, ToolCall}
use m365_copilot2api_dsm.Sessions.Matching.{
  calls_equal, messages_equal, prefix_equal, ends_at, atoms_of, context_prefix_len, common_len,
  suffix_match_len, same_nil, context_message,
}

calls_equal_sound : (xs ys : List ToolCall) → calls_equal xs ys ≡ true → xs ≡ ys
unfolding calls_equal
calls_equal_sound [] [] h = refl
calls_equal_sound [] (y ∷ ys) h = cc
calls_equal_sound (x ∷ xs) [] h = cc
calls_equal_sound (x ∷ xs) (y ∷ ys) h =
    ground (arith, h, calls_equal_sound xs ys, eq_iff x.name y.name, eq_iff x.arguments y.arguments)

same_calls :
    (a b : Option (List ToolCall))
    → same_nil (is_some a) (is_some b) ≡ true
    → value_or [] a ≡ value_or [] b
    → a ≡ b
same_calls none none h e = refl
same_calls none (some y) h e = cc
same_calls (some x) none h e = cc
same_calls (some x) (some y) h e = ap some e

-- Messages that the program takes for equal are the same in role, text and calls.
pub messages_equal_sound : (a b : OaiMsg) → messages_equal a b ≡ true → a ≡ b
unfolding messages_equal
messages_equal_sound a b h = ground (
  arith,
  h,
  eq_iff a.role b.role,
  eq_iff a.content b.content,
  same_calls a.tool_calls b.tool_calls,
  calls_equal_sound (value_or [] a.tool_calls) (value_or [] b.tool_calls),
)

prefix_equal_sound :
    (hs ms : List OaiMsg) → prefix_equal hs ms ≡ true → hs ++ drop (length hs) ms ≡ ms
unfolding prefix_equal
prefix_equal_sound [] ms h = refl
prefix_equal_sound (x ∷ hs) [] h = cc
prefix_equal_sound (x ∷ hs) (m ∷ ms) h =
    ground (arith, h, messages_equal_sound x m, prefix_equal_sound hs ms)

-- A group that ends at `n` closes the groups up to there.
ends_at-split :
    (start n : ℕ) (atoms : List Atom)
    → Chained start atoms
    → ends_at n atoms ≡ true
    → (earlier later : List Atom) × (atoms ≡ earlier ++ later)
      × (start + length (all_msgs earlier) ≡ n)
unfolding ends_at
ends_at-split start n [] c h = cc
ends_at-split start n (a ∷ atoms) c h = elim (Bool-cases (a.end == n)) [
  | inl q ↦ (a ∷ [], atoms, refl, ground (arith, c, q, length-append a.msgs []))
  | inr q ↦
      let (earlier, later, split, sum) = ends_at-split a.end n atoms c.2 (ground (arith, h, q)) in
      (
        a ∷ earlier,
        later,
        ap (◌∷◌ a) split,
        ground (arith, c.0, c.1, sum, length-append a.msgs (all_msgs earlier)),
      )
]

-- The history is the first messages, and ends with a group of them.
pub record Leads (counter : String → ℕ) (hist ms : List OaiMsg) : Type 0 where
  pub rest : List OaiMsg
  pub earlier : List Atom
  pub later : List Atom
  pub split : hist ++ rest ≡ ms
  pub groups : atoms_of counter ms ≡ earlier ++ later
  pub whole : length (all_msgs earlier) ≡ length hist

pub context_prefix_len-Leads :
    (counter : String → ℕ) (hist ms : List OaiMsg)
    → 1 ≤ context_prefix_len counter hist ms
    → (context_prefix_len counter hist ms ≡ length hist) × Leads counter hist ms
unfolding context_prefix_len
context_prefix_len-Leads counter hist ms h =
    let same : prefix_equal hist ms ≡ true = ground (arith, h) in
    let ends : ends_at (length hist) (atoms_of counter ms) ≡ true = ground (arith, h) in
    let (earlier, later, groups, whole) =
      ends_at-split 0 (length hist) (atoms_of counter ms)
        (atoms_partition counter (map context_message ms)).2 ends in
    (
      ground (arith, h),
      record {
        rest = drop (length hist) ms;
        earlier = earlier;
        later = later;
        split = prefix_equal_sound hist ms same;
        groups = groups;
        whole = omega (arith, whole);
      },
    )

common_len-same : (hs ms : List OaiMsg) (n : ℕ) → n ≤ common_len hs ms → take n hs ≡ take n ms
unfolding common_len
common_len-same hs ms zero h = refl
common_len-same [] ms (suc n) h = absurd (omega arith)
common_len-same (x ∷ hs) [] (suc n) h = absurd (omega arith)
common_len-same (x ∷ hs) (m ∷ ms) (suc n) h =
    ground (arith, h, messages_equal_sound x m, common_len-same hs ms n)

-- From the ends, as many messages are the same as the count says.
pub suffix_match_len-same :
    (hist ms : List OaiMsg)
    → take (suffix_match_len hist ms) (reverse hist) ≡ take (suffix_match_len hist ms) (reverse ms)
unfolding suffix_match_len
suffix_match_len-same hist ms = common_len-same (reverse hist) (reverse ms) _ (omega arith)
