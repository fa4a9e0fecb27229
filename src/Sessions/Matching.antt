-- ===== src/Sessions/Matching.antt =====
-- internal/web/session_resolver.go: when a stored history fits the messages of a request. `lower` is
-- the lower case of Go's library, `counter` the token counter of the groups.
use mathlib.Core.List.{reverse}
use Prim.Native.String.{◌++◌ as join}
use m365_copilot2api_dsm.Prelude.{
  ℕ, suc, ◌+◌, ◌-◌, ◌*◌, Bool, true, false, ◌&&◌, ◌||◌, not, String, List, [], ◌∷◌, map, ltb, ◌==◌,
  str_eq, if◌then◌else◌, value_or, is_some, length, is_empty, codes,
}
use m365_copilot2api_dsm.Context.Messages.{Message}
use m365_copilot2api_dsm.Context.Atoms.{Atom, build_atoms_with_counter}
use m365_copilot2api_dsm.Sessions.Store.{ToolCall, OaiMsg}

abbrev pub tool_call_equal : ToolCall → ToolCall → Bool
tool_call_equal x y = str_eq x.name y.name && str_eq x.arguments y.arguments

-- The loop over the calls of the first message, and the test of the lengths after it.
unfoldable pub calls_equal : List ToolCall → List ToolCall → Bool
calls_equal [] ys = is_empty ys
calls_equal (a ∷ xs) [] = false
calls_equal (a ∷ xs) (b ∷ ys) = tool_call_equal a b && calls_equal xs ys

abbrev pub same_nil : Bool → Bool → Bool
same_nil true b = b
same_nil false b = not b

unfoldable pub messages_equal : OaiMsg → OaiMsg → Bool
unfolding calls_equal
messages_equal a b =
    str_eq a.role b.role
    && str_eq a.content b.content
    && same_nil (is_some a.tool_calls) (is_some b.tool_calls)
    && calls_equal (value_or [] a.tool_calls) (value_or [] b.tool_calls)

-- The loop over the history, which is no longer than the messages.
unfoldable pub prefix_equal : List OaiMsg → List OaiMsg → Bool
prefix_equal [] ms = true
prefix_equal (h ∷ hs) [] = false
prefix_equal (h ∷ hs) (m ∷ ms) = messages_equal h m && prefix_equal hs ms

-- What `buildAtoms` looks at to form its groups: the role, and whether there are calls.
abbrev pub context_message : OaiMsg → Message
context_message m = record {
  role = m.role;
  content = m.content;
  name = "";
  tool_call_id = "";
  tool_calls = map (λ (c : ToolCall). c.name) (value_or [] m.tool_calls);
}

abbrev pub atoms_of : (String → ℕ) → List OaiMsg → List Atom
atoms_of counter ms = build_atoms_with_counter counter (map context_message ms)

-- The loop over the groups: does one of them end at `n`?
unfoldable pub ends_at : ℕ → List Atom → Bool
ends_at n [] = false
ends_at n (a ∷ atoms) =
    let later = ends_at n atoms in if a.end == n then true else if ltb n a.end then false else later

unfoldable pub context_prefix_len : (String → ℕ) → List OaiMsg → List OaiMsg → ℕ
context_prefix_len counter hist ms =
    if is_empty hist || ltb (length ms) (length hist)
    then 0
    else if not (prefix_equal hist ms)
    then 0
    else if not (ends_at (length hist) (atoms_of counter ms))
    then 0
    else length hist

-- The loop of `suffixMatchLen`, over both lists from their ends.
unfoldable pub common_len : List OaiMsg → List OaiMsg → ℕ
common_len [] ms = 0
common_len (h ∷ hs) [] = 0
common_len (h ∷ hs) (m ∷ ms) = if messages_equal h m then suc (common_len hs ms) else 0

unfoldable pub suffix_match_len : List OaiMsg → List OaiMsg → ℕ
suffix_match_len hist ms = common_len (reverse hist) (reverse ms)

-- `messagesText`: the messages, each on its line.
abbrev pub message_text : OaiMsg → String
message_text m = join m.role (join ":" m.content)

unfoldable pub messages_text : List OaiMsg → String
messages_text [] = ""
messages_text (m ∷ []) = message_text m
messages_text (m ∷ n ∷ ms) = join (message_text m) (join "\n" (messages_text (n ∷ ms)))

-- A set of pairs of characters.
abbrev pub Bigram : Type 0
Bigram = ℕ × ℕ

unfoldable pub has_bigram : Bigram → List Bigram → Bool
has_bigram b [] = false
has_bigram b (c ∷ cs) = (b.0 == c.0 && b.1 == c.1) || has_bigram b cs

abbrev pub add_bigram : Bigram → List Bigram → List Bigram
add_bigram b ys = if has_bigram b ys then ys else b ∷ ys

unfoldable pub bigrams : List ℕ → List Bigram
bigrams [] = []
bigrams (c ∷ []) = []
bigrams (c ∷ d ∷ s) = add_bigram (c, d) (bigrams (d ∷ s))

abbrev pub rune_bigrams : (String → String) → String → List Bigram
rune_bigrams lower s = bigrams (codes (lower s))

unfoldable pub shared : List Bigram → List Bigram → ℕ
shared [] ys = 0
shared (a ∷ xs) ys = (if has_bigram a ys then 1 else 0) + shared xs ys

-- A similarity is a fraction. The program rounds it to a float64, which keeps the order of fractions
-- with denominators below 2 ^ 26.
pub record Ratio : Type 0 where
  pub part : ℕ
  pub whole : ℕ

abbrev pub no_ratio : Ratio
no_ratio = record { part = 0; whole = 1 }

abbrev pub ratio_lt : Ratio → Ratio → Bool
ratio_lt a b = ltb (a.part * b.whole) (b.part * a.whole)

unfoldable pub jaccard_similarity : (String → String) → String → String → Ratio
jaccard_similarity lower a b =
    let xs = rune_bigrams lower a in
    let ys = rune_bigrams lower b in
    let both = shared xs ys in
    let union = length xs + length ys - both in
    if is_empty xs || is_empty ys
    then no_ratio
    else if union == 0
    then no_ratio
    else record { part = both; whole = union }
