-- ===== src/Health/Accounts/Account.antt =====
-- One account by itself: what the maps of `accountHealth` hold for it, and an abstract machine for
-- what happens to it.
use m365_copilot2api_dsm.Prelude.{
  ℕ, ◌+◌, ◌*◌, ◌/◌, Bool, true, false, ◌&&◌, not, Option, none, some, String, ltb, ◌==◌,
  if◌then◌else◌, second, minute, hour, add_duration, is_zero, Dict, is_empty, lookup, value_or,
}
use m365_copilot2api_dsm.Health.Errors.{
  Error, ErrorCategory, quota_429, overload_503, auth_expired_401, forbidden_403, retryable_422,
  user_banned, user_throttled, insufficient_tokens, socks5, dns, tcp, tls, ws_handshake,
  ws_read_timeout, upstream_structured, client_canceled, global_unavailable, retry_after_seconds,
}
use m365_copilot2api_dsm.Health.Cooldown.{cooldown_for_category}
use m365_copilot2api_dsm.Health.Accounts.{
  AccountHealth, AuthReason, status, banned, throttled, is_past, is_over,
}
use m365_copilot2api_dsm.Health.Accounts.Failures.{
  auth_status, forbidden_status, designer_only, is_metering, capped_window,
}

pub record Account : Type 0 where
  pub cooldown : Option ℕ
  pub auth_fail : Bool
  pub limited : Bool
  pub calls : ℕ
  pub image_limited : Bool
  pub image_limit_until : Option ℕ
  pub image_gen_cooldown_until : Option ℕ
  pub image_gen_system_cooldown : Option ℕ
  pub auth_fail_reason : Option AuthReason
  pub quota_attempts : ℕ
  pub last_throttling : Option String
  pub last_meter_error : Option String
  pub last_meter_access : Option Bool
  pub remaining_allowance : Option (Dict ℕ)

unfoldable pub view : AccountHealth → String → Account
view h id = record {
  cooldown = lookup id h.cooldown;
  auth_fail = value_or false (lookup id h.auth_fail);
  limited = value_or false (lookup id h.limited);
  calls = value_or 0 (lookup id h.calls);
  image_limited = value_or false (lookup id h.image_limited);
  image_limit_until = lookup id h.image_limit_until;
  image_gen_cooldown_until = lookup id h.image_gen_cooldown_until;
  image_gen_system_cooldown = lookup id h.image_gen_system_cooldown;
  auth_fail_reason = lookup id h.auth_fail_reason;
  quota_attempts = value_or 0 (lookup id h.quota_attempts);
  last_throttling = lookup id h.last_throttling;
  last_meter_error = lookup id h.last_meter_error;
  last_meter_access = lookup id h.last_meter_access;
  remaining_allowance = lookup id h.remaining_allowance;
}

abbrev pub unless_past : ℕ → Option ℕ → Option ℕ
unless_past now t = if is_past now t then none else t

unfoldable pub expire : Account → ℕ → Account
expire a now =
    if is_over now a.cooldown
    then record a {
      cooldown = none;
      auth_fail = false;
      limited = false;
      calls = if a.limited then 0 else a.calls;
      image_limited = false;
      image_gen_cooldown_until = unless_past now a.image_gen_cooldown_until;
      image_gen_system_cooldown = unless_past now a.image_gen_system_cooldown;
      auth_fail_reason = none;
      quota_attempts = 0;
    }
    else a

-- What a failure of a category notes against an account: `none` is nothing at all.
pub data Verdict : Type 0 where
  -- wait for a duration, and keep the authentication state
  wait : ℕ → Verdict
  -- wait, and forget an authentication failure
  wait_cleared : ℕ → Verdict
  -- wait, as an authentication failure; the flag says whether a rate limit is forgotten
  refuse : Bool → AuthReason → ℕ → Verdict
  -- wait as rate limited, with the attempts counted from now on
  throttle : ℕ → ℕ → Verdict
  nothing : Verdict

unfoldable pub verdict : ErrorCategory → Option Error → ℕ → ℕ → ℕ → Verdict
verdict client_canceled e attempts window now = nothing
verdict global_unavailable e attempts window now = wait (15 * second)
verdict auth_expired_401 e attempts window now = refuse true (status (auth_status e)) (2 * minute)
verdict forbidden_403 e attempts window now =
    if designer_only e then nothing else refuse true (status (forbidden_status e)) (24 * hour)
verdict quota_429 e attempts window now =
    if is_metering e && retry_after_seconds e == 0
    then throttle 0 (15 * minute)
    else throttle (attempts + 1)
        (cooldown_for_category quota_429 (retry_after_seconds e) (attempts + 1))
verdict overload_503 e attempts window now = wait_cleared (15 * second)
verdict socks5 e attempts window now = wait_cleared (30 * second)
verdict dns e attempts window now = wait_cleared (30 * second)
verdict tcp e attempts window now = wait_cleared (15 * second)
verdict tls e attempts window now = wait_cleared (30 * second)
verdict ws_handshake e attempts window now = wait_cleared (15 * second)
verdict ws_read_timeout e attempts window now = wait_cleared (30 * second)
verdict upstream_structured e attempts window now = wait (10 * second)
verdict user_banned e attempts window now = refuse false banned (365 * 24 * hour)
verdict user_throttled e attempts window now = refuse false throttled (1 * hour)
verdict insufficient_tokens e attempts window now = throttle attempts (24 * hour)
verdict retryable_422 e attempts window now = wait_cleared (5 * second)
verdict _ e attempts window now = wait_cleared (capped_window window)

unfoldable pub apply_verdict : Verdict → Account → ℕ → Account
apply_verdict (wait d) a now = record a { cooldown = some (add_duration now d) }
apply_verdict (wait_cleared d) a now = record a {
  cooldown = some (add_duration now d);
  auth_fail = false;
  auth_fail_reason = none;
}
apply_verdict (refuse unlimits reason d) a now = record a {
  cooldown = some (add_duration now d);
  auth_fail = true;
  auth_fail_reason = some reason;
  limited = if unlimits then false else a.limited;
}
apply_verdict (throttle attempts d) a now = record a {
  cooldown = some (add_duration now d);
  auth_fail = false;
  auth_fail_reason = none;
  limited = true;
  quota_attempts = attempts;
}
apply_verdict nothing a now = a

abbrev pub unless_ahead : ℕ → Option ℕ → Option ℕ
unless_ahead now t = let u = value_or 0 t in if not (is_zero u) && ltb now u then some u else none

unfoldable pub succeed : Account → ℕ → Account
succeed a now =
    let until = value_or 0 a.image_limit_until in
    let stays = a.image_limited && ltb now until in
    record a {
      cooldown = if stays then some until else none;
      auth_fail = false;
      limited = false;
      auth_fail_reason = none;
      quota_attempts = 0;
      image_limited = if stays then true else false;
      image_limit_until = if stays then some until else none;
      image_gen_cooldown_until = unless_ahead now a.image_gen_cooldown_until;
      image_gen_system_cooldown = unless_ahead now a.image_gen_system_cooldown;
    }

-- An image limit whose end has passed is forgotten.
unfoldable pub forget_image_limit : Account → ℕ → Account
forget_image_limit a now =
    if a.image_limited && is_past now a.image_limit_until
    then record a { image_limited = false; image_limit_until = none }
    else a

-- What happens to an account: `looked_at` is for the methods that only clean up before they answer, and
-- `image_asked` for the one that answers whether it is image limited.
pub data Event : Type 0 where
  looked_at called succeeded image_limit image_asked image_tokens image_system : Event
  throttling_told : Option String → Event
  metering_told : String → Bool → Dict ℕ → Event
  failed : ErrorCategory → Option Error → ℕ → Event

unfoldable pub react : Account → Event → ℕ → Account
unfolding expire verdict apply_verdict succeed forget_image_limit
react a looked_at now = expire a now
react a called now = let b = expire a now in record b { calls = b.calls + 1 }
react a succeeded now = succeed a now
react a image_limit now = record a {
  cooldown = some (now + 24 * hour);
  image_limited = true;
  image_limit_until = some (now + 24 * hour);
}
react a image_asked now = expire (forget_image_limit a now) now
react a (throttling_told none) now = a
react a (throttling_told (some payload)) now = record a { last_throttling = some payload }
react a (metering_told meter_error has_access remaining) now = record a {
  last_meter_error = some meter_error;
  last_meter_access = some has_access;
  remaining_allowance = if is_empty remaining then none else some remaining;
}
react a image_tokens now = record a {
  image_gen_cooldown_until = some ((now / (24 * hour) + 1) * (24 * hour));
}
react a image_system now = record a { image_gen_system_cooldown = some (now + 30 * minute) }
react a (failed c e window) now = apply_verdict (verdict c e a.quota_attempts window now) a now
