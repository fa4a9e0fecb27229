-- ===== src/Tests/Circuits.antt =====
-- Runs of the circuit breaker and of the cooldowns of internal/web/account_health.go.
use m365_copilot2api_dsm.Prelude.{
  ℕ, ◌*◌, ◌≤◌, ◌≡◌, false, Option, none, some, List, [], ◌∷◌, second, sign_bit, arith,
}
use m365_copilot2api_dsm.Health.Errors.{Error, quota_429}
use m365_copilot2api_dsm.Health.Circuit.{Circuit, closed_circuit, is_open}
use m365_copilot2api_dsm.Health.Circuit.Bounds.{run, run_bounded}
use m365_copilot2api_dsm.Health.Cooldown.{cooldown_for_category, quota_retry_after_wraps}

abbrev lost : Error
lost = record {
  canceled = false;
  rate_limit_notice = false;
  metering_throttled = false;
  empty_completion = false;
  offensive_content = false;
  image_limit = false;
  http = none;
  dial = none;
  message = "connection reset";
}

abbrev results : List (ℕ × Option Error)
results = (1 * second, none) ∷ (2 * second, some lost) ∷ (2 * second, some lost) ∷ []

run_bounded_example :
    ((run closed_circuit results).failures ≤ (run closed_circuit results).total)
    × ((run closed_circuit results).total ≤ 1000)
    × ((is_open (run closed_circuit results) (32 * second)).1 ≡ false)
run_bounded_example =
    run_bounded results (32 * second) (omega arith, (omega arith, (omega arith, tt))) (omega arith)

-- Nine calls, five of them failures, and one more failure.
abbrev strained : Circuit
strained = record { window_start = 1 * second; total = 9; failures = 5; open_until = 0 }

abbrev opened : Circuit
opened = record { window_start = 1 * second; total = 10; failures = 6; open_until = 33 * second }

quota_retry_after_wraps_example : sign_bit ≤ cooldown_for_category quota_429 10_000_000_000 1
quota_retry_after_wraps_example =
    quota_retry_after_wraps 10_000_000_000 1 (omega arith) (omega arith)
