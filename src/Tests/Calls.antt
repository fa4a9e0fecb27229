-- ===== src/Tests/Calls.antt =====
-- Runs of the model of internal/web/account_concurrency.go, with one or two slots for an account.
use m365_copilot2api_dsm.Prelude.{◌≤◌, ◌≡◌, refl, List, [], ◌∷◌, lookup, insert, delete}
use m365_copilot2api_dsm.Slots.{new_slots, running, slot, try_acquire, release}
use m365_copilot2api_dsm.Slots.Limit.{Action, asks, releases, run, held_by, run_within_limit}

-- Two calls that run, one that has to wait, and a slot given back twice.
abbrev traffic : List Action
traffic = asks "a" ∷ asks "a" ∷ asks "a" ∷ releases (slot 0) ∷ releases (slot 0) ∷ asks "a" ∷ []

run_within_limit_example :
    (running (run (new_slots 2) traffic) "a" ≡ held_by "a" (run (new_slots 2) traffic).held)
    × (running (run (new_slots 2) traffic) "a" ≤ 2)
run_within_limit_example = run_within_limit 2 traffic "a"

traffic_fills : running (run (new_slots 2) traffic) "a" ≡ 2
unfolding run running lookup insert delete try_acquire release new_slots
traffic_fills = refl
