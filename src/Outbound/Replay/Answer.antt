-- ===== src/Outbound/Replay/Answer.antt =====
-- What `poolRoundTripper.RoundTrip` of internal/outbound/pool.go answers.
use m365_copilot2api_dsm.Prelude.{
  ℕ, zero, suc, ◌+◌, ◌≤◌, ◌<◌, ◌≡◌, refl, true, false, ◌&&◌, not, none, some, String, str_eq, arith,
  Bool-cases, Option-cases, inl, inr, if_both,
}
use m365_copilot2api_dsm.Outbound.{Entry, Pool, pick, mark}
use m365_copilot2api_dsm.Outbound.Replay.{
  Network, Request, Response, responded, failed, panicked, replay, replays, round_trip,
}

-- The attempts that a request makes, each with its number, its proxy and the pool before it: the first
-- goes over the proxy that the client has, and a further one, after a failure that was marked, over the
-- proxy that the pool picks then, if that is not the first one again and the body can be had.
pub data Attempt (net : Network) (first : String) (p : Pool) : ℕ → String → Pool → Type 0 where
  starts : Attempt net first p 0 first p
  goes_on :
      (i : ℕ) (raw err : String) (q : Pool) (next : Entry)
      → Attempt net first p i raw q
      → net.send i raw ≡ some err
      → (pick (mark q raw (some err) (net.clock i)) (net.clock (suc i))).1 ≡ some next
      → str_eq next.raw first ≡ false
      → net.get_body (suc i) ≡ true
      → Attempt net first p
          (suc i)
          next.raw
          (pick (mark q raw (some err) (net.clock i)) (net.clock (suc i))).0

-- A response is that of an attempt that was made, the fourth at the latest, after which its proxy was
-- marked; an error is that of the first attempt; and nothing panics.
abbrev pub IsAnswer : Network → String → Pool → Pool × Response → Type 0
IsAnswer net first p (after, responded raw) =
    (i : ℕ) × (i ≤ 3)
    × (q : Pool) × Attempt net first p i raw q
    × (net.send i raw ≡ none)
    × (after ≡ mark q raw none (net.clock i))
IsAnswer net first p (after, failed m) = net.send 0 first ≡ some m
IsAnswer net first p (after, panicked) = ⊥

replay-IsAnswer :
    (net : Network) (r : Request) (first err : String) (p : Pool) (left i : ℕ) (raw m : String)
    (q : Pool)
    → r.has_get_body ≡ true
    → net.send 0 first ≡ some err
    → Attempt net first p i raw q
    → net.send i raw ≡ some m
    → left + i ≤ 3
    → IsAnswer net first p (replay net r first err left (suc i) (mark q raw (some m) (net.clock i)))
unfolding replay
replay-IsAnswer net r first err p zero i raw m q g e made lost h = e
replay-IsAnswer net r first err p (suc left) i raw m q g e made lost h =
    let marked = mark q raw (some m) (net.clock i) in
    let picked = (pick marked (net.clock (suc i))).0 in
    elim (Option-cases (pick marked (net.clock (suc i))).1) [
      | inl k ↦ rw (k, replay) e
      | inr (next, k) ↦ elim (Bool-cases (str_eq next.raw first)) [
        | inl s ↦ rw (k, replay, s) e
        | inr s ↦ elim (Bool-cases (net.get_body (suc i))) [
          | inl b ↦
              let again = goes_on i raw m q next made lost k s b in
              elim (Option-cases (net.send (suc i) next.raw)) [
                | inl a ↦ rw (k, replay, s, g, b, a) (suc i, omega arith, picked, again, a, refl)
                | inr (n, a) ↦
                    rw (k, replay, s, g, b, a)
                      (replay-IsAnswer net r first err p left (suc i) next.raw n picked g e again a
                        (omega arith))
              ]
          | inr b ↦ rw (k, replay, s, g, b) e
        ]
      ]
    ]

replays-le : (p : Pool) → replays p + 0 ≤ 3
replays-le p = ground arith

-- A request whose body can be had again gets an answer: the response of an attempt that was made, the
-- fourth at the latest, each attempt after the first over the proxy that the pool picked once the one
-- before had failed and was marked; or the error of the first attempt.
pub round_trip-IsAnswer :
    (net : Network) (r : Request) (first : String) (p : Pool)
    → r.has_get_body ≡ true
    → IsAnswer net first p (round_trip net r first p)
unfolding round_trip
round_trip-IsAnswer net r first p g = elim (Option-cases (net.send 0 first)) [
  | inl a ↦ rw (a, round_trip) (0, omega arith, p, starts, a, refl)
  | inr (err, a) ↦
      rw (a, round_trip)
        (if_both {A = Pool × Response} (IsAnswer net first p) (r.has_body && not r.has_get_body) a (
          replay-IsAnswer net r first err p (replays (mark p first (some err) (net.clock 0))) 0
            first err p g a starts a (replays-le (mark p first (some err) (net.clock 0)))))
]

replay-panics :
    (net : Network) (r : Request) (first err : String) (left i : ℕ) (p : Pool) {next : Entry}
    → r.has_get_body ≡ false
    → (pick p (net.clock i)).1 ≡ some next
    → str_eq next.raw first ≡ false
    → 0 < left
    → (replay net r first err left i p).1 ≡ panicked
unfolding replay
replay-panics net r first err zero i p g q s h = absurd (omega arith)
replay-panics net r first err (suc left) i p g q s h = rw (q, replay, s, g) refl

replays-pos : (p : Pool) → 0 < replays p
replays-pos p = ground arith

-- A request that has neither a body nor `GetBody`, as a GET has, panics when its first attempt fails and
-- the pool picks another proxy.
pub round_trip_panics :
    (net : Network) (r : Request) (first : String) (p : Pool) {err : String} {next : Entry}
    → r.has_body ≡ false
    → r.has_get_body ≡ false
    → net.send 0 first ≡ some err
    → (pick (mark p first (some err) (net.clock 0)) (net.clock 1)).1 ≡ some next
    → str_eq next.raw first ≡ false
    → (round_trip net r first p).1 ≡ panicked
unfolding round_trip
round_trip_panics net r first p {err} {next} b g a q s =
    rw (a, round_trip, b)
      (replay-panics net r first err (replays (mark p first (some err) (net.clock 0))) 1 _ g q s
        (replays-pos (mark p first (some err) (net.clock 0))))
