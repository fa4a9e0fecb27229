-- ===== src/Lockout/Locks.antt =====
-- The failures of one address in internal/web/admin_security.go.
use m365_copilot2api_dsm.Prelude.{
  ℕ, ◌+◌, ◌≤◌, ◌<◌, ◌≡◌, refl, subst, ap, ◌∙◌, ◌&&◌, not, none, some, String, List, [], ◌∷◌, ltb,
  leb, Dict, lookup, is_some, length, arith, lookup-insert, eq_refl, if_both,
}
use m365_copilot2api_dsm.Lockout.{
  purge, max_login_attempt_entries, LoginAttempt, login_allowed, make_room, one_more,
  record_login_failure, login_window, no_attempt,
}
use m365_copilot2api_dsm.Lockout.Bound.{lookup-purge-none, lookup-evict-none}

-- The failures of one address, at these times.
unfoldable pub fail_at : Dict LoginAttempt → String → List ℕ → Dict LoginAttempt
fail_at m ip [] = m
fail_at m ip (t ∷ ts) = fail_at (record_login_failure m ip t) ip ts

make_room-old :
    (m : Dict LoginAttempt) (ip : String) (now : ℕ) {a : LoginAttempt}
    → lookup ip m ≡ some a
    → make_room m ip now ≡ m
unfolding make_room
make_room-old m ip now e = rw e refl

record_login_failure-old :
    (m : Dict LoginAttempt) (ip : String) (now : ℕ) {a : LoginAttempt}
    → lookup ip m ≡ some a
    → lookup ip (record_login_failure m ip now) ≡ some (one_more a now)
unfolding record_login_failure
record_login_failure-old m ip now e =
    lookup-insert ip ip _ (make_room m ip now) ∙ rw (eq_refl, make_room-old m ip now e, e) refl

-- The entry of an address after a number of failures in the window from `w` on.
pub record Counts (w n : ℕ) (a : LoginAttempt) : Type 0 where
  pub from : a.window_start ≡ w
  pub count : a.failures ≡ n
  pub unlocked : n < 5 → a.locked_until ≡ 0

one_more-Counts :
    (w n now : ℕ) (a : LoginAttempt)
    → 1 ≤ w
    → now ≤ w + login_window
    → Counts w n a
    → Counts w (n + 1) (one_more a now)
unfolding one_more
one_more-Counts w n now a h k v = record {
  from = ground (arith, v.from);
  count = ground (arith, v.from, v.count);
  unlocked = λ few. ground (arith, v.from, v.count, v.unlocked);
}

one_more-first : (now : ℕ) → Counts now 1 (one_more no_attempt now)
unfolding one_more
one_more-first now = record {
  from = ground arith;
  count = ground arith;
  unlocked = λ few. ground arith;
}

-- The times are in the window from `w` on.
abbrev pub Within : ℕ → List ℕ → Type 0
Within w [] = Unit {0}
Within w (t ∷ ts) = (t ≤ w + login_window) × Within w ts

counted :
    (m : Dict LoginAttempt) (ip : String) (ts : List ℕ) (w n : ℕ) {a : LoginAttempt}
    → 1 ≤ w
    → Within w ts
    → lookup ip m ≡ some a
    → Counts w n a
    → (b : LoginAttempt) × (lookup ip (fail_at m ip ts) ≡ some b) × Counts w (n + length ts) b
unfolding fail_at
counted m ip [] w n {a} h k e v = (a, e, subst (λ j. Counts w j a) (omega arith) v)
counted m ip (t ∷ ts) w n {a} h k e v =
    let (b, at, c) =
      counted (record_login_failure m ip t) ip ts w (n + 1) h k.1
        (record_login_failure-old m ip t e) (one_more-Counts w n t a h k.0 v) in
    (b, at, subst (λ j. Counts w j b) (omega arith) c)

make_room-new :
    (m : Dict LoginAttempt) (ip : String) (now : ℕ)
    → lookup ip m ≡ none
    → lookup ip (make_room m ip now) ≡ none
unfolding make_room
make_room-new m ip now h =
    let missing : Dict LoginAttempt → Type 0 = λ d. lookup ip d ≡ none in
    let purged = lookup-purge-none ip now m h in
    if_both missing (not (is_some (lookup ip m)) && leb max_login_attempt_entries (length m))
      (if_both missing (leb max_login_attempt_entries (length (purge now m)))
        (lookup-evict-none ip (purge now m) purged) purged)
      h

record_login_failure-new :
    (m : Dict LoginAttempt) (ip : String) (now : ℕ)
    → lookup ip m ≡ none
    → lookup ip (record_login_failure m ip now) ≡ some (one_more no_attempt now)
unfolding record_login_failure
record_login_failure-new m ip now e =
    lookup-insert ip ip _ (make_room m ip now) ∙ rw (eq_refl, make_room-new m ip now e) refl

last_failure :
    (w n t now : ℕ) (a : LoginAttempt)
    → 1 ≤ w
    → t ≤ w + login_window
    → Counts w n a
    → ltb now (one_more a t).locked_until ≡ (leb 5 (n + 1) && ltb now (t + login_window))
unfolding one_more
last_failure w n t now a h k v = ground (arith, v.from, v.count, v.unlocked)

allowed_of :
    (m : Dict LoginAttempt) (ip : String) (now : ℕ) {a : LoginAttempt}
    → lookup ip m ≡ some a
    → (login_allowed m ip now).1 ≡ not (ltb now a.locked_until)
unfolding login_allowed
allowed_of m ip now e = rw e (ground arith)

-- An address that is not in the map fails to log in at `first`, then at the times `ts` and at last at
-- `last`, all of them at most 15 min after `first`. Then a login is refused exactly if these are at
-- least five failures and less than 15 min have passed since the last of them.
pub locks_after_five :
    (m : Dict LoginAttempt) (ip : String) (first last now : ℕ) (ts : List ℕ)
    → lookup ip m ≡ none
    → 1 ≤ first
    → Within first ts
    → last ≤ first + login_window
    → (login_allowed (record_login_failure (fail_at m ip (first ∷ ts)) ip last) ip now).1
      ≡ not (leb 5 (length ts + 2) && ltb now (last + login_window))
unfolding fail_at
locks_after_five m ip first last now ts missing h k l =
    let (b, at, c) =
      counted (record_login_failure m ip first) ip ts first 1 h k
        (record_login_failure-new m ip first missing) (one_more-first first) in
    allowed_of _ ip now (record_login_failure-old (fail_at m ip (first ∷ ts)) ip last at)
    ∙ ap not (last_failure first (1 + length ts) last now b h l c)
    ∙ ap (λ n. not (leb 5 n && ltb now (last + login_window))) (omega arith)
