-- ===== src/Health/Errors.antt =====
-- internal/web/account_health.go: error categories, and what is read off an upstream error.
use m365_copilot2api_dsm.Prelude.{
  ℕ, Bool, false, ◌&&◌, ◌||◌, not, Option, none, some, String, ◌==◌, str_eq, ltb, if◌then◌else◌,
  mentions, sign_bit, List, [], ◌∷◌,
}

pub data ErrorCategory : Type 0 where
  quota_429 overload_503 auth_expired_401 forbidden_403 retryable_422 : ErrorCategory
  user_banned user_throttled insufficient_tokens designer_disabled : ErrorCategory
  socks5 dns tcp tls ws_handshake ws_read_timeout : ErrorCategory
  upstream_structured client_canceled global_unavailable unknown : ErrorCategory
  -- `ErrorCategory(s)` for a text `s` that no constant has.
  other : String → ErrorCategory

pub record UpstreamHttpError : Type 0 where
  pub status : ℕ
  pub retry_after : ℕ  -- an int64 pattern
  pub body : String
  pub error_code : String

-- `cause` is the text of the wrapped error, if there is one.
pub record DialError : Type 0 where
  pub status : ℕ
  pub retry_after : ℕ  -- an int64 pattern
  pub kind : String
  pub cause : Option String

-- A Go error as `errors.Is` and `errors.As` see it: the sentinels in its chain, the first error of
-- either type in the chain, and its text.
pub record Error : Type 0 where
  pub canceled : Bool
  pub rate_limit_notice : Bool
  pub metering_throttled : Bool
  pub empty_completion : Bool
  pub offensive_content : Bool
  pub image_limit : Bool
  pub http : Option UpstreamHttpError
  pub dial : Option DialError
  pub message : String

-- An int is positive.
abbrev pub is_positive : ℕ → Bool
is_positive n = ltb 0 n && ltb n sign_bit

-- The first case whose test holds.
abbrev pub first_case {ℓ} : {A : Type ℓ} → List (Bool × A) → Option A
first_case [] = none
first_case ((b, a) ∷ rest) = if b then some a else first_case rest

-- `a`, or else `b`.
abbrev pub or_else {ℓ} : {A : Type ℓ} → Option A → Option A → Option A
or_else none b = b
or_else (some a) b = some a

-- The `switch` over a status code.
unfoldable pub status_category : ℕ → Option ErrorCategory
status_category status = first_case (
    (status == 429, quota_429)
    ∷ (status == 503, overload_503)
    ∷ (status == 401, auth_expired_401)
    ∷ (status == 403, forbidden_403)
    ∷ (status == 422, retryable_422)
    ∷ [])

-- The `switch` over `ErrorCode`.
unfoldable pub code_category : String → Option ErrorCategory
code_category code = first_case (
    (str_eq code "ErrorUserBanned", user_banned)
    ∷ (str_eq code "ErrorUserThrottled", user_throttled)
    ∷ (str_eq code "InsufficientTokens", insufficient_tokens)
    ∷ (str_eq code "ErrorDisallowedAADUser", designer_disabled)
    ∷ [])

-- The `switch` over `Kind`.
unfoldable pub kind_category : String → Option ErrorCategory
kind_category kind = first_case (
    (str_eq kind "QUOTA_429", quota_429)
    ∷ (str_eq kind "OVERLOAD_503", overload_503)
    ∷ (str_eq kind "AUTH_EXPIRED_401", auth_expired_401)
    ∷ (str_eq kind "FORBIDDEN_403", forbidden_403)
    ∷ (str_eq kind "SOCKS5", socks5)
    ∷ (str_eq kind "DNS", dns)
    ∷ (str_eq kind "TCP", tcp)
    ∷ (str_eq kind "TLS", tls)
    ∷ (str_eq kind "WS_HANDSHAKE", ws_handshake)
    ∷ (str_eq kind "WS_READ_TIMEOUT", ws_read_timeout)
    ∷ (str_eq kind "CLIENT_CANCELED", client_canceled)
    ∷ [])

-- `ErrorCategory(kind)`: the constant with this text. The texts of the `switch` above come first.
unfoldable pub category_of_text : String → ErrorCategory
category_of_text kind =
    elim (first_case (
      (str_eq kind "RETRYABLE_422", retryable_422)
      ∷ (str_eq kind "USER_BANNED", user_banned)
      ∷ (str_eq kind "USER_THROTTLED", user_throttled)
      ∷ (str_eq kind "INSUFFICIENT_TOKENS", insufficient_tokens)
      ∷ (str_eq kind "DESIGNER_DISABLED", designer_disabled)
      ∷ (str_eq kind "UPSTREAM_STRUCTURED", upstream_structured)
      ∷ (str_eq kind "GLOBAL_UNAVAILABLE", global_unavailable)
      ∷ (str_eq kind "UNKNOWN", unknown)
      ∷ [])) [ some c ↦ c | none ↦ other kind ]

-- The part of `ClassifyError` for an `*UpstreamHTTPError`; `none` is falling through.
unfoldable pub http_category : UpstreamHttpError → Option ErrorCategory
unfolding code_category status_category
http_category e = or_else (if str_eq e.error_code "" then none else code_category e.error_code) (
    or_else (status_category e.status) (if mentions e.body "limited" then some quota_429 else none))

-- The text of a `*DialError` with no kind and status 0, and the searches made in it.
unfoldable pub dial_text_category : Option String → ErrorCategory
dial_text_category cause =
    let says : String → Bool =
      λ p. elim cause [ none ↦ mentions "ws dial: upstream 0" p | some text ↦ mentions text p ] in
    elim (first_case (
      (says "socks", socks5)
      ∷ (says "no such host" || says "dns", dns)
      ∷ (says "tls" || says "certificate" || says "x509", tls)
      ∷ (says "handshake", ws_handshake)
      ∷ (says "timeout" || says "deadline", ws_read_timeout)
      ∷ [])) [ some c ↦ c | none ↦ tcp ]

-- The part of `ClassifyError` for a `*DialError`; `none` is falling through.
unfoldable pub dial_category : DialError → Option ErrorCategory
unfolding kind_category status_category category_of_text dial_text_category
dial_category e = or_else (if str_eq e.kind "" then none else kind_category e.kind) (
    or_else (status_category e.status) (
      if not (str_eq e.kind "")
      then some (category_of_text e.kind)
      else if e.status == 0
      then some (dial_text_category e.cause)
      else none))

abbrev pub optional {ℓ κ} : {A : Type ℓ} {B : Type κ} → (A → Option B) → Option A → Option B
optional f none = none
optional f (some a) = f a

-- `ClassifyError` up to the question to the global circuit.
unfoldable pub typed_category : Error → Option ErrorCategory
unfolding http_category dial_category
typed_category e =
    if e.canceled
    then some client_canceled
    else if e.rate_limit_notice || e.metering_throttled
    then some quota_429
    else if e.empty_completion || (e.offensive_content || e.image_limit)
    then some upstream_structured
    else or_else (optional http_category e.http) (optional dial_category e.dial)

-- `ClassifyError` after the question to the global circuit: by the error's text.
unfoldable pub text_category : String → ErrorCategory
text_category m =
    elim (first_case (
      (mentions m "socks", socks5)
      ∷ (
        mentions m "no such host"
            || mentions m "name resolution"
            || (mentions m "dns" && not (mentions m "limited")),
        dns,
      )
      ∷ (mentions m "tls" || mentions m "certificate" || mentions m "x509", tls)
      ∷ (mentions m "handshake", ws_handshake)
      ∷ (
        mentions m "ws read"
            || (mentions m "timeout" && mentions m "read")
            || mentions m "deadline exceeded",
        ws_read_timeout,
      )
      ∷ (
        mentions m "connection refused"
            || mentions m "connection reset"
            || mentions m "broken pipe"
            || mentions m "network is unreachable",
        tcp,
      )
      ∷ (mentions m "client canceled" || mentions m "context canceled", client_canceled)
      ∷ (
        mentions m "empty completion" || mentions m "offensive" || mentions m "image limit",
        upstream_structured,
      )
      ∷ [])) [ some c ↦ c | none ↦ unknown ]

-- `IsRateLimited`.
unfoldable pub is_rate_limited : Option Error → Bool
is_rate_limited none = false
is_rate_limited (some e) =
    (e.rate_limit_notice || e.metering_throttled)
    || ((elim e.http [
      | none ↦ false
      | some h ↦
          (h.status == 429 || h.status == 503)
          || (mentions h.body "limited"
              || mentions h.body "图像生成功能没有成功"
              || mentions h.body "metererror")
    ])
        || (elim e.dial [
          | none ↦ false
          | some d ↦
              (d.status == 429 || d.status == 503)
              || (str_eq d.kind "QUOTA_429" || str_eq d.kind "OVERLOAD_503")
        ]))

-- `IsAuthFailure`: an HTTP error in the chain decides alone.
unfoldable pub is_auth_failure : Option Error → Bool
is_auth_failure none = false
is_auth_failure (some e) = elim e.http [
  | some h ↦ h.status == 401 || h.status == 403
  | none ↦ elim e.dial [
    | some d ↦
        (d.status == 401 || d.status == 403)
        || (str_eq d.kind "AUTH_EXPIRED_401" || str_eq d.kind "FORBIDDEN_403")
    | none ↦ false
  ]
]

-- `RetryAfterSeconds`.
unfoldable pub retry_after_seconds : Option Error → ℕ
retry_after_seconds none = 0
retry_after_seconds (some e) = elim e.http [
  | some h ↦ h.retry_after
  | none ↦ elim e.dial [ some d ↦ d.retry_after | none ↦ 0 ]
]
