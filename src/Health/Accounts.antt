-- ===== src/Health/Accounts.antt =====
-- internal/web/account_health.go: `accountHealth`, the state kept for each account, with the global
-- circuit that its methods consult. Each method reads the clock once here, as its argument `now`.
pub mod ImageLimit
pub mod Failures
pub mod Recovery
pub mod Account
pub mod Refines
pub mod Others
pub mod Availability
use m365_copilot2api_dsm.Prelude.{
  ℕ, suc, ◌+◌, ◌*◌, ◌/◌, Bool, true, false, ◌&&◌, not, Option, none, some, String, List, [], ◌∷◌,
  ltb, ◌==◌, str_eq, if◌then◌else◌, second, minute, hour, longer, add_duration, is_zero, Dict,
  lookup, insert, delete, value_or, is_some, is_empty,
}
use m365_copilot2api_dsm.Health.Errors.{
  Error, ErrorCategory, quota_429, overload_503, auth_expired_401, forbidden_403, retryable_422,
  user_banned, user_throttled, insufficient_tokens, socks5, dns, tcp, tls, ws_handshake,
  ws_read_timeout, upstream_structured, client_canceled, global_unavailable, is_positive,
  retry_after_seconds,
}
use m365_copilot2api_dsm.Health.Circuit.{
  Circuit, closed_circuit, is_open, classify_error, record_result,
}
use m365_copilot2api_dsm.Health.Cooldown.{cooldown_for_category}

-- The texts of `authFailReason`: a status in decimal, "banned" or "throttled".
pub data AuthReason : Type 0 where
  status : ℕ → AuthReason
  banned throttled : AuthReason

-- A throttling payload is kept as its JSON text, since the program only copies it through JSON.
pub record AccountHealth : Type 0 where
  pub cooldown : Dict ℕ
  pub auth_fail : Dict Bool
  pub limited : Dict Bool
  pub calls : Dict ℕ
  pub image_limited : Dict Bool
  pub image_limit_until : Dict ℕ
  pub image_gen_cooldown_until : Dict ℕ
  pub image_gen_system_cooldown : Dict ℕ
  pub last_throttling : Dict String
  pub last_meter_error : Dict String
  pub last_meter_access : Dict Bool
  pub remaining_allowance : Dict (Dict ℕ)
  pub auth_fail_reason : Dict AuthReason
  pub quota_attempts : Dict ℕ

unfoldable pub no_accounts : AccountHealth
no_accounts = record {
  cooldown = [];
  auth_fail = [];
  limited = [];
  calls = [];
  image_limited = [];
  image_limit_until = [];
  image_gen_cooldown_until = [];
  image_gen_system_cooldown = [];
  last_throttling = [];
  last_meter_error = [];
  last_meter_access = [];
  remaining_allowance = [];
  auth_fail_reason = [];
  quota_attempts = [];
}

pub record World : Type 0 where
  pub health : AccountHealth
  pub circuit : Circuit

-- `newAccountHealth`, and `ClearAllCooldowns`.
unfoldable pub cleared : World
unfolding no_accounts closed_circuit
cleared = record { health = no_accounts; circuit = closed_circuit }

-- A time is stored and `now` is past it, or is not before it.
abbrev pub is_past : ℕ → Option ℕ → Bool
is_past now none = false
is_past now (some t) = ltb t now

abbrev pub is_over : ℕ → Option ℕ → Bool
is_over now none = false
is_over now (some t) = not (ltb now t)

-- `delete(m, k)` where the time stored has passed.
abbrev pub delete_passed : String → ℕ → Dict ℕ → Dict ℕ
delete_passed k now m = if is_past now (lookup k m) then delete k m else m

-- The cooldown is over: what it held is dropped.
unfoldable pub end_cooldown : AccountHealth → String → ℕ → AccountHealth
end_cooldown h id now = record h {
  cooldown = delete id h.cooldown;
  limited = delete id h.limited;
  auth_fail = delete id h.auth_fail;
  auth_fail_reason = delete id h.auth_fail_reason;
  image_limited = delete id h.image_limited;
  calls = if value_or false (lookup id h.limited) then delete id h.calls else h.calls;
  quota_attempts = delete id h.quota_attempts;
  image_gen_cooldown_until = delete_passed id now h.image_gen_cooldown_until;
  image_gen_system_cooldown = delete_passed id now h.image_gen_system_cooldown;
}

-- `cleanupExpiredCooldownLocked`.
unfoldable pub cleanup : AccountHealth → String → ℕ → AccountHealth
cleanup h id now = if is_over now (lookup id h.cooldown) then end_cooldown h id now else h

-- `MarkCall`. `calls` is a uint64, which no run counts to the end of.
unfoldable pub mark_call : AccountHealth → String → ℕ → AccountHealth
mark_call h id now =
    if str_eq id ""
    then h
    else let c = cleanup h id now in
      record c { calls = insert id (value_or 0 (lookup id c.calls) + 1) c.calls }

-- `CallCount` and `RateLimited`.
unfoldable pub call_count : AccountHealth → String → ℕ → AccountHealth × ℕ
call_count h id now = let c = cleanup h id now in (c, value_or 0 (lookup id c.calls))

unfoldable pub rate_limited : AccountHealth → String → ℕ → AccountHealth × Bool
rate_limited h id now = let c = cleanup h id now in (c, value_or false (lookup id c.limited))

unfoldable pub mark_image_limited : AccountHealth → String → ℕ → AccountHealth
mark_image_limited h id now = if str_eq id "" then h else record h {
  image_limited = insert id true h.image_limited;
  image_limit_until = insert id (now + 24 * hour) h.image_limit_until;
  cooldown = insert id (now + 24 * hour) h.cooldown;
}

abbrev pub expire_image_limit : AccountHealth → String → ℕ → AccountHealth
expire_image_limit h id now =
    if value_or false (lookup id h.image_limited) && is_past now (lookup id h.image_limit_until)
    then record h {
      image_limited = delete id h.image_limited;
      image_limit_until = delete id h.image_limit_until;
    }
    else h

-- `ImageLimited`.
unfoldable pub is_image_limited : AccountHealth → String → ℕ → AccountHealth × Bool
is_image_limited h id now =
    let c = cleanup (expire_image_limit h id now) id now in
    (c, value_or false (lookup id c.image_limited))

-- `MarkImageGenTokensThrottled`: until the next midnight, UTC.
unfoldable pub mark_image_gen_tokens_throttled : AccountHealth → String → ℕ → AccountHealth
mark_image_gen_tokens_throttled h id now = if str_eq id "" then h else record h {
  image_gen_cooldown_until =
      insert id ((now / (24 * hour) + 1) * (24 * hour)) h.image_gen_cooldown_until;
}

unfoldable pub mark_image_gen_system_throttled : AccountHealth → String → ℕ → AccountHealth
mark_image_gen_system_throttled h id now = if str_eq id "" then h else record h {
  image_gen_system_cooldown = insert id (now + 30 * minute) h.image_gen_system_cooldown;
}

-- A time is stored and lies ahead.
abbrev pub is_ahead : ℕ → Option ℕ → Bool
is_ahead now none = false
is_ahead now (some t) = ltb now t

unfoldable pub image_gen_available : AccountHealth → String → ℕ → Bool
image_gen_available h id now =
    if is_ahead now (lookup id h.image_gen_cooldown_until)
    then false
    else not (is_ahead now (lookup id h.image_gen_system_cooldown))

-- `UpdateThrottling`; the payload is `none` where it has no JSON text.
unfoldable pub update_throttling : AccountHealth → String → Option String → AccountHealth
update_throttling h id none = h
update_throttling h id (some payload) =
    if str_eq id "" then h else record h { last_throttling = insert id payload h.last_throttling }

unfoldable pub update_metering : AccountHealth → String → String → Bool → Dict ℕ → AccountHealth
update_metering h id meter_error has_access remaining = if str_eq id "" then h else record h {
  last_meter_error = insert id meter_error h.last_meter_error;
  last_meter_access = insert id has_access h.last_meter_access;
  remaining_allowance =
      if is_empty remaining
      then delete id h.remaining_allowance
      else insert id remaining h.remaining_allowance;
}

-- `GetMetering` and `GetThrottling`.
unfoldable pub get_metering : AccountHealth → String → String × Bool × Dict ℕ
get_metering h id = (
  value_or "" (lookup id h.last_meter_error),
  value_or true (lookup id h.last_meter_access),
  value_or [] (lookup id h.remaining_allowance),
)

unfoldable pub get_throttling : AccountHealth → String → Option String
get_throttling h id = lookup id h.last_throttling
