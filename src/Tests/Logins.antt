-- ===== src/Tests/Logins.antt =====
-- Runs of the model of the login lock in internal/web/admin_security.go.
use m365_copilot2api_dsm.Prelude.{
  ◌*◌, ◌≡◌, true, false, List, [], ◌∷◌, second, minute, arith, lookup-empty,
}
use m365_copilot2api_dsm.Lockout.{login_allowed, record_login_failure}
use m365_copilot2api_dsm.Lockout.Bound.{Login, fails, asks, succeeds}
use m365_copilot2api_dsm.Lockout.Locks.{fail_at, locks_after_five}

abbrev logins : List Login
logins = fails "a" (1 * second) ∷ asks "b" (2 * second) ∷ fails "b" (3 * second) ∷ succeeds "a" ∷ []

locks_after_five_example :
    (login_allowed
      (record_login_failure
        (fail_at [] "a" (1 * second ∷ 2 * second ∷ 3 * second ∷ 4 * second ∷ []))
        "a"
        (5 * second))
      "a"
      (14 * minute)).1
    ≡ false
locks_after_five_example =
    locks_after_five [] "a" (1 * second) (5 * second) (14 * minute)
      (2 * second ∷ 3 * second ∷ 4 * second ∷ []) (lookup-empty "a") (omega arith)
      (omega arith, (omega arith, (omega arith, tt))) (omega arith)

-- After four failures the address may go on.
four_failures :
    (login_allowed
      (record_login_failure
        (fail_at [] "a" (1 * second ∷ 2 * second ∷ 3 * second ∷ []))
        "a"
        (5 * second))
      "a"
      (14 * minute)).1
    ≡ true
four_failures =
    locks_after_five [] "a" (1 * second) (5 * second) (14 * minute) (2 * second ∷ 3 * second ∷ [])
      (lookup-empty "a") (omega arith) (omega arith, (omega arith, tt)) (omega arith)
