-- ===== src/Ledger/Texts.antt =====
-- internal/web/agent_ledger.go: `compactToolResult` and `normalizeFailure`, on the bytes of a text.
use m365_copilot2api_dsm.Prelude.{
  ℕ, zero, suc, ◌+◌, ◌-◌, ◌/◌, ◌%◌, ◌≤◌, ◌≡◌, refl, Bool, true, false, ◌&&◌, ◌||◌, List, [], ◌∷◌,
  ◌++◌, ltb, leb, ◌==◌, if◌then◌else◌, length, length-append, take, drop, codes, arith,
}
use mathlib.Core.List.{reverse}

abbrev pub Text : Type 0
Text = List ℕ

unfoldable pub same_text : Text → Text → Bool
same_text [] [] = true
same_text [] (d ∷ t) = false
same_text (c ∷ s) [] = false
same_text (c ∷ s) (d ∷ t) = c == d && same_text s t

pub same_text_refl : (s : Text) → same_text s s ≡ true
unfolding same_text
same_text_refl [] = refl
same_text_refl (c ∷ s) = ground (arith, same_text_refl s)

pub same_text_eq : (s t : Text) → same_text s t ≡ true → s ≡ t
unfolding same_text
same_text_eq [] [] h = refl
same_text_eq [] (d ∷ t) h = cc
same_text_eq (c ∷ s) [] h = cc
same_text_eq (c ∷ s) (d ∷ t) h = ground (arith, same_text_eq s t)

abbrev is_ascii_space : ℕ → Bool
is_ascii_space c = (leb 9 c && leb c 13) || c == 32

-- White space of two bytes and of three.
abbrev pair_space : ℕ → ℕ → Bool
pair_space a b = a == 0xc2 && (b == 0x85 || b == 0xa0)

abbrev wide_space : ℕ → ℕ → ℕ → Bool
wide_space a b c =
    (a == 0xe1 && (b == 0x9a && c == 0x80))
    || (a == 0xe2
        && (b == 0x80 && ((leb 0x80 c && leb c 0x8a) || (c == 0xa8 || (c == 0xa9 || c == 0xaf)))))
    || (a == 0xe2 && (b == 0x81 && c == 0x9f))
    || (a == 0xe3 && (b == 0x80 && c == 0x80))

-- How many bytes of white space a text begins with, and ends with if its bytes are reversed.
abbrev width_left : Text → ℕ
width_left [] = 0
width_left (a ∷ []) = if is_ascii_space a then 1 else 0
width_left (a ∷ b ∷ []) = if is_ascii_space a then 1 else if pair_space a b then 2 else 0
width_left (a ∷ b ∷ c ∷ s) =
    if is_ascii_space a then 1 else if pair_space a b then 2 else if wide_space a b c then 3 else 0

abbrev width_right : Text → ℕ
width_right [] = 0
width_right (a ∷ []) = if is_ascii_space a then 1 else 0
width_right (a ∷ b ∷ []) = if is_ascii_space a then 1 else if pair_space b a then 2 else 0
width_right (a ∷ b ∷ c ∷ s) =
    if is_ascii_space a then 1 else if pair_space b a then 2 else if wide_space c b a then 3 else 0

-- Leave out a number of bytes, and the white space after them.
unfoldable pub trim_after : (Text → ℕ) → ℕ → Text → Text
trim_after width skip [] = []
trim_after width (suc skip) (c ∷ s) = trim_after width skip s
trim_after width zero (c ∷ s) = elim (width (c ∷ s)) [
  | zero ↦ c ∷ s
  | suc more ↦ trim_after width more s
]

-- `strings.TrimSpace`.
unfoldable pub trim_bytes : Text → Text
unfolding trim_after
trim_bytes s = reverse (trim_after width_right 0 (reverse (trim_after width_left 0 s)))

-- A number in decimal; 20 digits are enough for a length.
unfoldable pub decimal : ℕ → ℕ → Text → Text
decimal zero n acc = acc
decimal (suc fuel) n acc =
    let more = decimal fuel (n / 10) ((48 + n % 10) ∷ acc) in
    if ltb n 10 then (48 + n) ∷ acc else more

unfoldable pub truncation_notice : ℕ → Text
unfolding decimal
truncation_notice n = codes "\n... [truncated " ++ decimal 20 n [] ++ codes " bytes] ...\n"

abbrev pub tail_of : ℕ → ℕ
tail_of limit = let tail = limit - limit / 3 - 80 in if ltb tail 80 then 80 else tail

abbrev pub limit_of : ℕ → ℕ
limit_of limit = if ltb limit 200 then 200 else limit

-- The cut of a text that is longer than its limit.
unfoldable pub cut : Text → ℕ → Text
unfolding truncation_notice
cut s limit =
    take (limit / 3) s
    ++ truncation_notice (length s - limit / 3 - tail_of limit)
    ++ drop (length s - tail_of limit) s

unfoldable pub compact_tool_result : Text → ℕ → Text
unfolding cut trim_bytes
compact_tool_result s limit =
    let t = trim_bytes s in if leb (length t) (limit_of limit) then t else cut t (limit_of limit)

-- Each run of digits becomes one "#"; the flag says that a digit stood before.
unfoldable pub squash_digits : Bool → Text → Text
squash_digits before [] = []
squash_digits before (c ∷ s) =
    let digit = leb 48 c && leb c 57 in
    let rest = squash_digits digit s in
    if digit then (if before then rest else 35 ∷ rest) else c ∷ rest

-- `normalizeFailure`.
unfoldable pub normalize_failure : (Text → Text) → Text → Text
unfolding squash_digits
normalize_failure lower s = take 500 (squash_digits false (lower s))

length-decimal : (fuel n : ℕ) (acc : Text) → length (decimal fuel n acc) ≤ fuel + length acc
unfolding decimal
length-decimal zero n acc = omega arith
length-decimal (suc fuel) n acc = ground (arith, length-decimal fuel (n / 10) ((48 + n % 10) ∷ acc))

length-notice : (n : ℕ) → length (truncation_notice n) ≤ 50
unfolding truncation_notice
length-notice n = omega (
  arith,
  length-append (codes "\n... [truncated ") (decimal 20 n [] ++ codes " bytes] ...\n"),
  length-append (decimal 20 n []) (codes " bytes] ...\n"),
  length-decimal 20 n [],
)

length-take : (n : ℕ) (s : Text) → length (take n s) ≤ n
length-take zero s = omega arith
length-take (suc n) [] = omega arith
length-take (suc n) (c ∷ s) = omega (arith, length-take n s)

length-drop : (n : ℕ) (s : Text) → length (drop n s) ≡ length s - n
length-drop zero s = omega arith
length-drop (suc n) [] = omega arith
length-drop (suc n) (c ∷ s) = omega (arith, length-drop n s)

tail_room : (limit : ℕ) → 200 ≤ limit → limit / 3 + 50 + tail_of limit ≤ limit
tail_room limit h = ground arith

length-end : (n : ℕ) (s : Text) → length (drop (length s - n) s) ≤ n
length-end n s = omega (arith, length-drop (length s - n) s)

length-three :
    (a b c : Text) {i j k n : ℕ}
    → length a ≤ i
    → length b ≤ j
    → length c ≤ k
    → i + j + k ≤ n
    → length (a ++ b ++ c) ≤ n
length-three a b c p q r h = omega (arith, length-append (a ++ b) c, length-append a b)

length-cut : (s : Text) (limit : ℕ) → 200 ≤ limit → length (cut s limit) ≤ limit
unfolding cut
length-cut s limit h =
    length-three (take (limit / 3) s) (truncation_notice (length s - limit / 3 - tail_of limit))
      (drop (length s - tail_of limit) s) (length-take (limit / 3) s)
      (length-notice (length s - limit / 3 - tail_of limit)) (length-end (tail_of limit) s)
      (tail_room limit h)

-- A compacted result has at most as many bytes as its limit, or 200 if the limit is lower.
pub length-compact_tool_result :
    (s : Text) (limit : ℕ)
    → length (compact_tool_result s limit) ≤ (if ltb limit 200 then 200 else limit)
unfolding compact_tool_result
length-compact_tool_result s limit = ground (arith, length-cut (trim_bytes s) (limit_of limit))
