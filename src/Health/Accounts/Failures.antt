-- ===== src/Health/Accounts/Failures.antt =====
-- internal/web/account_health.go: what a failure and a success do, `MarkFailure` and `MarkSuccess`.
use m365_copilot2api_dsm.Prelude.{
  ℕ, ◌+◌, ◌*◌, Bool, true, false, ◌&&◌, not, Option, none, some, String, ltb, ◌==◌, str_eq,
  if◌then◌else◌, second, minute, longer, add_duration, is_zero, Dict, lookup, insert, delete,
  value_or,
}
use m365_copilot2api_dsm.Health.Errors.{
  Error, ErrorCategory, quota_429, overload_503, auth_expired_401, forbidden_403, retryable_422,
  user_banned, user_throttled, insufficient_tokens, socks5, dns, tcp, tls, ws_handshake,
  ws_read_timeout, upstream_structured, client_canceled, global_unavailable, is_positive,
  retry_after_seconds,
}
use m365_copilot2api_dsm.Health.Circuit.{classify_error, record_result}
use m365_copilot2api_dsm.Health.Cooldown.{cooldown_for_category}
use m365_copilot2api_dsm.Health.Accounts.{
  AccountHealth, AuthReason, World, status, banned, throttled,
}

-- The status that `AuthExpired401` notes.
abbrev pub auth_status : Option Error → ℕ
auth_status none = 401
auth_status (some e) = elim e.http [
  | some x ↦ x.status
  | none ↦ elim e.dial [ some d ↦ if d.status == 0 then 401 else d.status | none ↦ 401 ]
]

-- The status that `Forbidden403` notes.
abbrev pub forbidden_status : Option Error → ℕ
forbidden_status none = 403
forbidden_status (some e) = elim e.http [
  | some x ↦ x.status
  | none ↦ elim e.dial [ some d ↦ if d.status == 0 then 403 else d.status | none ↦ 403 ]
]

-- The early returns of the `Forbidden403` case.
abbrev pub designer_only : Option Error → Bool
designer_only none = false
designer_only (some e) =
    let by_dial : Bool = elim e.dial [
      | none ↦ false
      | some d ↦ str_eq d.kind "DESIGNER_DISABLED"
    ] in
    elim e.http [
      | some x ↦ if str_eq x.error_code "ErrorDisallowedAADUser" then true else by_dial
      | none ↦ by_dial
    ]

abbrev pub is_metering : Option Error → Bool
is_metering none = false
is_metering (some e) = e.metering_throttled

abbrev cool : AccountHealth → String → ℕ → AccountHealth
cool h id until = record h { cooldown = insert id until h.cooldown }

abbrev forget_auth : AccountHealth → String → AccountHealth
forget_auth h id = record h {
  auth_fail = delete id h.auth_fail;
  auth_fail_reason = delete id h.auth_fail_reason;
}

abbrev fail_auth : AccountHealth → String → AuthReason → AccountHealth
fail_auth h id reason = record h {
  auth_fail = insert id true h.auth_fail;
  auth_fail_reason = insert id reason h.auth_fail_reason;
}

abbrev limit : AccountHealth → String → AccountHealth
limit h id = record h { limited = insert id true h.limited }

abbrev unlimit : AccountHealth → String → AccountHealth
unlimit h id = record h { limited = delete id h.limited }

-- The `Quota429` case: 15 min for a metering throttle that names no time, else by the attempts.
unfoldable pub quota_failure : AccountHealth → String → Option Error → ℕ → AccountHealth
quota_failure h id e now =
    let l = limit (forget_auth h id) id in
    let attempt = value_or 0 (lookup id l.quota_attempts) + 1 in
    if is_metering e && retry_after_seconds e == 0
    then cool (record l { quota_attempts = insert id 0 l.quota_attempts }) id (now + 15 * minute)
    else cool (record l { quota_attempts = insert id attempt l.quota_attempts }) id
        (add_duration now (cooldown_for_category quota_429 (retry_after_seconds e) attempt))

-- The `default` case: the window, cut to 30 s.
abbrev pub capped_window : ℕ → ℕ
capped_window window = if longer window (30 * second) then 30 * second else window

-- The `switch` of `MarkFailure`, and the two returns before it.
unfoldable pub category_failure :
    ErrorCategory → AccountHealth → String → Option Error → ℕ → ℕ → AccountHealth
unfolding quota_failure
category_failure client_canceled h id e window now = h
category_failure global_unavailable h id e window now =
    cool h id (add_duration now (cooldown_for_category global_unavailable 0 1))
category_failure auth_expired_401 h id e window now =
    cool (unlimit (fail_auth h id (status (auth_status e))) id) id
      (add_duration now (cooldown_for_category auth_expired_401 0 1))
category_failure forbidden_403 h id e window now =
    if designer_only e
    then h
    else cool (unlimit (fail_auth h id (status (forbidden_status e))) id) id
        (add_duration now (cooldown_for_category forbidden_403 0 1))
category_failure quota_429 h id e window now = quota_failure h id e now
category_failure overload_503 h id e window now =
    cool (forget_auth h id) id
      (add_duration now (cooldown_for_category overload_503 (retry_after_seconds e) 1))
category_failure socks5 h id e window now =
    cool (forget_auth h id) id (add_duration now (cooldown_for_category socks5 0 1))
category_failure dns h id e window now =
    cool (forget_auth h id) id (add_duration now (cooldown_for_category dns 0 1))
category_failure tcp h id e window now =
    cool (forget_auth h id) id (add_duration now (cooldown_for_category tcp 0 1))
category_failure tls h id e window now =
    cool (forget_auth h id) id (add_duration now (cooldown_for_category tls 0 1))
category_failure ws_handshake h id e window now =
    cool (forget_auth h id) id (add_duration now (cooldown_for_category ws_handshake 0 1))
category_failure ws_read_timeout h id e window now =
    cool (forget_auth h id) id (add_duration now (cooldown_for_category ws_read_timeout 0 1))
category_failure upstream_structured h id e window now =
    cool h id (add_duration now (cooldown_for_category upstream_structured 0 1))
category_failure user_banned h id e window now =
    cool (fail_auth h id banned) id (add_duration now (cooldown_for_category user_banned 0 1))
category_failure user_throttled h id e window now =
    cool (fail_auth h id throttled) id (add_duration now (cooldown_for_category user_throttled 0 1))
category_failure insufficient_tokens h id e window now =
    cool (limit (forget_auth h id) id) id
      (add_duration now (cooldown_for_category insufficient_tokens 0 1))
category_failure retryable_422 h id e window now =
    cool (forget_auth h id) id (add_duration now (cooldown_for_category retryable_422 0 1))
category_failure _ h id e window now =
    cool (forget_auth h id) id (add_duration now (capped_window window))

-- `MarkFailure`; a window that is not positive is 60 s. The webhook alert is left out.
unfoldable pub mark_failure : World → String → Option Error → ℕ → ℕ → World
mark_failure w id e window now =
    let (g, cat) = classify_error w.circuit now e in
    let positive = if is_positive window then window else 60 * second in
    record {
      health = category_failure cat w.health id e positive now;
      circuit = record_result g now e;
    }

-- Keep a time that lies ahead, and drop any other.
abbrev pub keep_ahead : String → ℕ → Dict ℕ → Dict ℕ
keep_ahead id now m =
    let t = value_or 0 (lookup id m) in
    if not (is_zero t) && ltb now t then insert id t m else delete id m

-- `MarkSuccess`: an image limit that lies ahead stays, and is the cooldown.
abbrev pub health_success : AccountHealth → String → ℕ → AccountHealth
health_success h id now =
    let until = value_or 0 (lookup id h.image_limit_until) in
    let stays = value_or false (lookup id h.image_limited) && ltb now until in
    record h {
      cooldown = if stays then insert id until (delete id h.cooldown) else delete id h.cooldown;
      auth_fail = delete id h.auth_fail;
      limited = delete id h.limited;
      auth_fail_reason = delete id h.auth_fail_reason;
      quota_attempts = delete id h.quota_attempts;
      image_limited = if stays then insert id true h.image_limited else delete id h.image_limited;
      image_limit_until =
          if stays then insert id until h.image_limit_until else delete id h.image_limit_until;
      image_gen_cooldown_until = keep_ahead id now h.image_gen_cooldown_until;
      image_gen_system_cooldown = keep_ahead id now h.image_gen_system_cooldown;
    }

unfoldable pub mark_success : World → String → ℕ → World
mark_success w id now = record {
  health = health_success w.health id now;
  circuit = record_result w.circuit now none;
}
