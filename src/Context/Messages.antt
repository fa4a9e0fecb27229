-- ===== src/Context/Messages.antt =====
-- Messages and their estimated tokens: internal/web/codex_usage.go and context_budget.go, and the
-- type `oaiMsg` of server.go.
use m365_copilot2api_dsm.Prelude.{
  ℕ, ◌+◌, ◌/◌, Bool, true, false, ◌&&◌, ◌||◌, String, List, [], ◌∷◌, leb, ltb, ◌==◌, if◌then◌else◌,
  codes, to_lower,
}
use mathlib.Core.List.{reverse}

-- `content` is the text that `serializedTokenCount` counts: the content itself if it is a text, and
-- else its JSON. `tool_calls` holds the JSON of each call.
pub record Message : Type 0 where
  pub role : String
  pub content : String
  pub name : String
  pub tool_call_id : String
  pub tool_calls : List String

-- `unicode.IsSpace`.
abbrev pub is_space : ℕ → Bool
is_space c =
    (leb 9 c && leb c 13)
    || c == 0x20
    || c == 0x85
    || c == 0xa0
    || c == 0x1680
    || (leb 0x2000 c && leb c 0x200a)
    || c == 0x2028
    || c == 0x2029
    || c == 0x202f
    || c == 0x205f
    || c == 0x3000

unfoldable pub trim_left : List ℕ → List ℕ
trim_left [] = []
trim_left (c ∷ s) = let rest = trim_left s in if is_space c then rest else c ∷ s

-- `strings.TrimSpace`.
abbrev pub trim_space : List ℕ → List ℕ
trim_space s = reverse (trim_left (reverse (trim_left s)))

pub same_codes : List ℕ → List ℕ → Bool
same_codes [] [] = true
same_codes (c ∷ s) (d ∷ t) = c == d && same_codes s t
same_codes _ _ = false

-- The roles that the program tells apart, in lower case and with no space around them.
pub data Role : Type 0 where
  system assistant tool user other : Role

unfoldable pub role_of : Message → Role
unfolding trim_left same_codes to_lower
role_of m =
    let r = to_lower (trim_space (codes m.role)) in
    if same_codes r (codes "system") || same_codes r (codes "developer")
    then system
    else if same_codes r (codes "assistant")
    then assistant
    else if same_codes r (codes "tool")
    then tool
    else if same_codes r (codes "user")
    then user
    else other

-- The characters of a text that are no space: ASCII ones and others.
abbrev pub count_codes : (ℕ → Bool) → List ℕ → ℕ
count_codes p [] = 0
count_codes p (c ∷ s) = (if p c then 1 else 0) + count_codes p s

-- `heuristicTokenCount`.
unfoldable pub heuristic_token_count : String → ℕ
heuristic_token_count text =
    let ascii = count_codes (λ c. if is_space c then false else leb c 0x7f) (codes text) in
    let other = count_codes (λ c. if is_space c then false else ltb 0x7f c) (codes text) in
    if ascii == 0 && other == 0 then 0 else (ascii + 3) / 4 + other

abbrev pub message_protocol_tokens : ℕ
message_protocol_tokens = 4

-- `requestProtocolTokens + replyPrimingTokens`.
abbrev pub overhead_tokens : ℕ
overhead_tokens = 4 + 3

abbrev pub count_each : (String → ℕ) → List String → ℕ
count_each counter [] = 0
count_each counter (c ∷ cs) = counter c + count_each counter cs

-- `estimateMessageTokens`; the last test cannot fail, for the protocol tokens.
unfoldable pub estimate_message_tokens : (String → ℕ) → Message → ℕ
estimate_message_tokens counter m =
    let tokens =
      message_protocol_tokens
      + counter m.role
      + counter m.name
      + counter m.tool_call_id
      + counter m.content
      + count_each counter m.tool_calls in
    if ltb tokens 1 then 1 else tokens
