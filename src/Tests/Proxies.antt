-- ===== src/Tests/Proxies.antt =====
-- Runs of the model of internal/outbound/pool.go.
use m365_copilot2api_dsm.Prelude.{
  ℕ, zero, suc, ◌+◌, ◌*◌, ◌%◌, ◌<◌, ◌≡◌, refl, true, false, some, List, [], ◌∷◌, String, second,
  arith, mentions, str_eq, if◌then◌else◌, none,
}
use m365_copilot2api_dsm.Outbound.Addresses.{dial_control, blocked, allowed}
use m365_copilot2api_dsm.Outbound.Reserved.{mapped, value, is_reserved, dial_control-lem}
use m365_copilot2api_dsm.Outbound.{
  Entry, Pool, new_entry, pick, mark_entry, proxy_base_duration, is_proxy_error, answered,
  first_ready, mark, update, backoff,
}
use m365_copilot2api_dsm.Outbound.Replay.{Network, Request, responded, panicked, replay, round_trip}
use m365_copilot2api_dsm.Outbound.Replay.Answer.{IsAnswer, round_trip-IsAnswer, round_trip_panics}
use m365_copilot2api_dsm.Outbound.Rotation.{in_turn, IsReady, IsCooling, pick-IsReady}
use m365_copilot2api_dsm.Outbound.Members.{Change, picked, marked, probed, removed}

abbrev proxy : String → ℕ → Entry
proxy raw until = record (record (new_entry raw) { raw = raw }) { cooldown = until }

-- The first proxy cools down until 30 s; it is the turn of the first.
abbrev pool : Pool
pool = record { entries = proxy "a" (30 * second) ∷ proxy "b" 0 ∷ []; next = 0 }

pick-IsReady_example :
    (k : ℕ) × (k < 2)
    × IsReady (1 * second) (in_turn pool k)
    × (pick pool (1 * second) ≡ (record pool { next = (0 + k + 1) % 2 }, in_turn pool k))
pick-IsReady_example = pick-IsReady pool (1 * second) 1 refl (omega arith)

first-IsCooling : (j : ℕ) → j < 1 → IsCooling (1 * second) (in_turn pool j)
first-IsCooling zero h = omega arith
first-IsCooling (suc j) h = absurd (omega arith)

abbrev tired : Pool
tired = record { entries = proxy "a" (30 * second) ∷ proxy "b" (20 * second) ∷ []; next = 1 }

both-IsCooling : (j : ℕ) → j < 2 → IsCooling (1 * second) (in_turn tired j)
both-IsCooling zero h = omega arith
both-IsCooling (suc zero) h = omega arith
both-IsCooling (suc (suc j)) h = absurd (omega arith)

abbrev urls : List String
urls = "a" ∷ "b" ∷ "a" ∷ []

abbrev events : List Change
events = picked 1 ∷ marked "a" (some "socks") 2 ∷ probed "b" (answered 200) 3 ∷ removed "b" ∷ []

abbrev made : Pool
made = record { entries = new_entry "a" ∷ new_entry "b" ∷ []; next = 0 }

-- The first proxy refuses, the other one answers.
abbrev network : Network
network = record {
  send = λ i raw. if str_eq raw "a" then some "socks: refused" else none;
  get_body = λ i. true;
  clock = λ i. i * second;
}

abbrev fresh : Pool
fresh = record { entries = proxy "a" 0 ∷ proxy "b" 0 ∷ []; next = 0 }

abbrev post : Request
post = record { has_body = true; has_get_body = true }

round_trip-IsAnswer_example : IsAnswer network "a" fresh (round_trip network post "a" fresh)
round_trip-IsAnswer_example = round_trip-IsAnswer network post "a" fresh refl

replayed : (round_trip network post "a" fresh).1 ≡ responded "b"
unfolding round_trip replay pick first_ready mark update mark_entry is_proxy_error mentions
    proxy_base_duration new_entry backoff
replayed = refl

abbrev get : Request
get = record { has_body = false; has_get_body = false }

round_trip_panics_example : (round_trip network get "a" fresh).1 ≡ panicked
unfolding pick first_ready mark update mark_entry is_proxy_error mentions proxy_base_duration
    new_entry backoff
round_trip_panics_example = round_trip_panics network get "a" fresh refl refl refl refl refl

-- The metadata address of a cloud.
dial_control-lem_example :
    dial_control false
      (λ a. some "169.254.169.254")
      (λ h. some (mapped 169 254 169 254))
      "169.254.169.254:80"
    ≡ (if is_reserved (value 169 254 169 254) then blocked "169.254.169.254:80" else allowed)
dial_control-lem_example =
    dial_control-lem (λ a. some "169.254.169.254") (λ h. some (mapped 169 254 169 254))
      "169.254.169.254:80" 169 254 169 254 (omega arith) (omega arith) (omega arith) (omega arith)
      refl
