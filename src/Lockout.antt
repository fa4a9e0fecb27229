-- ===== src/Lockout.antt =====
-- internal/web/admin_security.go: failed logins of the administrator, by address.
pub mod Bound
pub mod Locks
use m365_copilot2api_dsm.Prelude.{
  ℕ, ◌+◌, ◌*◌, Bool, true, false, ◌&&◌, ◌||◌, not, Option, none, some, String, List, [], ◌∷◌, ltb,
  leb, str_eq, if◌then◌else◌, minute, is_zero, Dict, lookup, insert, delete, value_or, is_some,
  length,
}

pub record LoginAttempt : Type 0 where
  pub failures : ℕ
  pub window_start : ℕ
  pub locked_until : ℕ

abbrev pub no_attempt : LoginAttempt
no_attempt = record { failures = 0; window_start = 0; locked_until = 0 }

abbrev pub login_window : ℕ
login_window = 15 * minute

abbrev pub max_login_attempt_entries : ℕ
max_login_attempt_entries = 4096

-- `now.Sub(a.WindowStart) > 15*time.Minute`.
abbrev pub window_over : ℕ → LoginAttempt → Bool
window_over now a = ltb (a.window_start + login_window) now

-- `loginAllowed`, without the time to wait.
unfoldable pub login_allowed : Dict LoginAttempt → String → ℕ → Dict LoginAttempt × Bool
login_allowed m ip now =
    let a = value_or no_attempt (lookup ip m) in
    if ltb now a.locked_until
    then (m, false)
    else (if is_zero a.window_start || window_over now a then delete ip m else m, true)

-- The first loop of `recordLoginFailure`: the entries that have run out are deleted.
unfoldable pub purge : ℕ → Dict LoginAttempt → Dict LoginAttempt
purge now [] = []
purge now ((k, a) ∷ m) =
    let rest = purge now m in
    if window_over now a && ltb a.locked_until now then rest else (k, a) ∷ rest

-- The second loop: the address whose window is the oldest, "" for none.
unfoldable pub oldest : String → ℕ → Dict LoginAttempt → String
oldest best since [] = best
oldest best since ((k, a) ∷ m) =
    let older = str_eq best "" || ltb a.window_start since in
    oldest (if older then k else best) (if older then a.window_start else since) m

unfoldable pub evict : Dict LoginAttempt → Dict LoginAttempt
unfolding oldest
evict m = if str_eq (oldest "" 0 m) "" then m else delete (oldest "" 0 m) m

-- The map with room for the address.
unfoldable pub make_room : Dict LoginAttempt → String → ℕ → Dict LoginAttempt
unfolding purge evict
make_room m ip now =
    if not (is_some (lookup ip m)) && leb max_login_attempt_entries (length m)
    then (if leb max_login_attempt_entries (length (purge now m))
        then evict (purge now m)
        else purge now m)
    else m

-- The entry after one more failure.
unfoldable pub one_more : LoginAttempt → ℕ → LoginAttempt
one_more a now =
    let b =
      if is_zero a.window_start || window_over now a
      then record { failures = 0; window_start = now; locked_until = 0 }
      else a in
    record b {
      failures = b.failures + 1;
      locked_until = if leb 5 (b.failures + 1) then now + login_window else b.locked_until;
    }

unfoldable pub record_login_failure : Dict LoginAttempt → String → ℕ → Dict LoginAttempt
unfolding make_room one_more
record_login_failure m ip now =
    insert ip (one_more (value_or no_attempt (lookup ip (make_room m ip now))) now)
      (make_room m ip now)

unfoldable pub clear_login_failures : Dict LoginAttempt → String → Dict LoginAttempt
clear_login_failures m ip = delete ip m
