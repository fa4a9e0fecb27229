-- ===== src/Outbound/Replay.antt =====
-- internal/outbound/pool.go: `poolRoundTripper.RoundTrip`, which sends a request and replays it over
-- other proxies of the pool.
pub mod Answer
use m365_copilot2api_dsm.Prelude.{
  ℕ, zero, suc, ◌+◌, Bool, true, false, ◌&&◌, not, Option, none, some, String, ltb, str_eq,
  if◌then◌else◌, length,
}
use m365_copilot2api_dsm.Outbound.{Entry, Pool, pick, mark}

-- What is outside: what the attempt of a number answers over the proxy with a URL (`none` is a response,
-- else the text of an error), whether the body can be had again for it, and the clock then.
pub record Network : Type 0 where
  pub send : ℕ → String → Option String
  pub get_body : ℕ → Bool
  pub clock : ℕ → ℕ

-- A request has a body, and a function `GetBody`, or not.
pub record Request : Type 0 where
  pub has_body : Bool
  pub has_get_body : Bool

pub data Response : Type 0 where
  -- the proxy with the URL answered
  responded : String → Response
  failed : String → Response
  -- a call of a nil function
  panicked : Response

-- The loop: `left` replays, from the attempt `i` on. The entries of a pool have distinct URLs, so two
-- pointers to entries are the same when the URLs are.
unfoldable pub replay : Network → Request → String → String → ℕ → ℕ → Pool → Pool × Response
replay net r first err zero i p = (p, failed err)
replay net r first err (suc left) i p =
    let p' = (pick p (net.clock i)).0 in
    elim (pick p (net.clock i)).1 [
      | none ↦ (p', failed err)
      | some next ↦ elim (str_eq next.raw first) [
        | true ↦ (p', failed err)
        | false ↦ elim r.has_get_body [
          | false ↦ (p', panicked)
          | true ↦ elim (net.get_body i) [
            | false ↦ (p', failed err)
            | true ↦ elim (net.send i next.raw) [
              | none ↦ (mark p' next.raw none (net.clock i), responded next.raw)
              | some m ↦
                  replay net r first err left (suc i) (mark p' next.raw (some m) (net.clock i))
            ]
          ]
        ]
      ]
    ]

-- How often the request is replayed.
abbrev pub replays : Pool → ℕ
replays p = let n = length p.entries + 1 in if ltb 3 n then 3 else n

-- `RoundTrip` over the entry with a URL.
unfoldable pub round_trip : Network → Request → String → Pool → Pool × Response
unfolding replay
round_trip net r first p = elim (net.send 0 first) [
  | none ↦ (mark p first none (net.clock 0), responded first)
  | some err ↦
      let p' = mark p first (some err) (net.clock 0) in
      if r.has_body && not r.has_get_body
      then (p', failed err)
      else replay net r first err (replays p') 1 p'
]
