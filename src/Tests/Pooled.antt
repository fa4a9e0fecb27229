-- ===== src/Tests/Pooled.antt =====
-- Runs of the model of internal/chathub/connpool.go.
use m365_copilot2api_dsm.Prelude.{
  ltb, ◌==◌, ◌&&◌, if◌then◌else◌, ◌*◌, ◌≤◌, ◌≡◌, refl, true, List, [], ◌∷◌, second,
}
use m365_copilot2api_dsm.Connections.{
  PooledConn, new_conn_pool, count_for, take_parked, take, refused, park, close, sort, sweep, evict,
  drop_number,
}
use m365_copilot2api_dsm.Connections.Fates.{tally, gone, occurs}
use m365_copilot2api_dsm.Connections.Turns.{
  Section, takes, parks, evicts, enter, run, run-places, parks_when_closed,
}

-- Three connections are dialed for one key, the third of them too many; the first is taken, and its
-- reader evicts it.
abbrev traffic : List Section
traffic =
    parks "a" (1 * second)
    ∷ parks "a" (2 * second)
    ∷ parks "a" (3 * second)
    ∷ takes "a" (4 * second)
    ∷ evicts 0
    ∷ []

abbrev second_conn : PooledConn
second_conn = record { key = "a"; number = 1; created = 2 * second; handshook = true }

run-places_example :
    let p = run new_conn_pool traffic in
    (count_for "a" p.parked ≤ 2)
    × (occurs 0 p.parked ≡ (if ltb 0 p.dialed && gone p 0 == 0 then 1 else 0))
    × (tally 0 p.handed ≤ 1)
run-places_example = run-places traffic "a" 0

-- The first connection was handed out, and is closed all the same.
handed_and_shut :
    (tally 0 (run new_conn_pool traffic).handed ≡ 1)
    × (tally 0 (run new_conn_pool traffic).shut ≡ 1)
unfolding run enter new_conn_pool take take_parked sort park count_for sweep evict drop_number tally
handed_and_shut = (refl, refl)

parks_when_closed_example :
    let q = park (close (run new_conn_pool traffic)) "a" (6 * second) in
    (occurs (run new_conn_pool traffic).dialed q.parked ≡ 1)
    × ((take q "a" (7 * second)).1 ≡ refused)
    × (close q ≡ q)
unfolding run enter new_conn_pool take take_parked sort park count_for sweep evict
parks_when_closed_example =
    parks_when_closed (run new_conn_pool traffic) "a" (6 * second) (7 * second) refl
