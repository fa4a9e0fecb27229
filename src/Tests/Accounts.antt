-- ===== src/Tests/Accounts.antt =====
-- Runs of the model of internal/web/account_health.go: one account that fails, and another one.
use m365_copilot2api_dsm.Prelude.{
  ℕ, ◌+◌, ◌*◌, ◌≡◌, ◌≢◌, refl, false, not, Option, none, some, String, List, [], ◌∷◌, second, hour,
  if◌then◌else◌, lookup, str_eq, arith, mentions, differs,
}
use m365_copilot2api_dsm.Health.Errors.{Error, quota_429, typed_category, text_category}
use m365_copilot2api_dsm.Health.Cooldown.{cooldown_for_category}
use m365_copilot2api_dsm.Health.Circuit.{closed_circuit, is_open, classify_error}
use m365_copilot2api_dsm.Health.Accounts.{World, no_accounts, is_ahead, is_image_limited}
use m365_copilot2api_dsm.Health.Accounts.Failures.{mark_failure}
use m365_copilot2api_dsm.Health.Accounts.Recovery.{available}
use m365_copilot2api_dsm.Health.Accounts.Account.{
  Event, view, react, verdict, failed, called, looked_at,
}
use m365_copilot2api_dsm.Health.Accounts.Refines.{notify, view-notify}
use m365_copilot2api_dsm.Health.Accounts.Availability.{
  run, available_iff_cooled, mark_failure_blocks,
}
use m365_copilot2api_dsm.Health.Accounts.ImageLimit.{image_limit_lost, limited_then_failed}

named : (s : String) → str_eq s "" ≡ false → s ≢ ""
named s = differs s ""

abbrev history : List (ℕ × String × Event)
history = (1 * second, "a", failed quota_429 none 0) ∷ (2 * second, "b", called) ∷ []

-- A refused connection.
abbrev refused : Option Error
refused = some (record {
  canceled = false;
  rate_limit_notice = false;
  metering_throttled = false;
  empty_completion = false;
  offensive_content = false;
  image_limit = false;
  http = none;
  dial = none;
  message = "connection refused";
})

abbrev world : World
world = record { health = run no_accounts history; circuit = closed_circuit }

available_iff_cooled_example : (available world "a" (3 * second)).1 ≡ (
    if (is_open world.circuit (3 * second)).1
    then false
    else not (is_ahead (3 * second) (lookup "a" world.health.cooldown)))
available_iff_cooled_example =
    available_iff_cooled history world "a" (3 * second) (named "a" refl, (named "b" refl, tt)) refl

mark_failure_blocks_example :
    (available (mark_failure world "b" refused 0 (3 * second)) "b" (17 * second)).1 ≡ false
unfolding verdict classify_error typed_category text_category mentions cooldown_for_category is_open
    view closed_circuit
mark_failure_blocks_example =
    mark_failure_blocks world "b" refused 0 (3 * second) (17 * second) (15 * second) refl
      (omega arith)

view-notify_example :
    view (notify world.health "a" looked_at (40 * second)) "a"
    ≡ react (view world.health "a") looked_at (40 * second)
view-notify_example = view-notify world.health "a" looked_at (40 * second) (named "a" refl)

-- The image limit of "b", marked at 3 s and lost at 30 s.
image_limit_lost_example :
    (lookup "b"
        (limited_then_failed world.health "b" refused 0 (3 * second) (5 * second)).image_limit_until
      ≡ some (3 * second + 24 * hour))
    × ((is_image_limited
          (limited_then_failed world.health "b" refused 0 (3 * second) (5 * second))
          "b"
          (30 * second)).1
        ≡ false)
image_limit_lost_example =
    image_limit_lost world.health "b" refused 0 (3 * second) (5 * second) (30 * second)
      (named "b" refl) (omega arith)
