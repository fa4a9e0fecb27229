-- ===== src/Connections.antt =====
-- internal/chathub/connpool.go: `ConnPool`, the connections that are dialed in advance. The map from
-- keys to lists is one list of connections with their keys: `p.conns[key]` is those with the key, in
-- order. A connection has a number, in the order in which they are dialed. What a method does after it
-- has unlocked the mutex, to connections that are in the map no more, belongs to its step.
pub mod Fates
pub mod Turns
use m365_copilot2api_dsm.Prelude.{
  ℕ, suc, ◌+◌, ◌*◌, Bool, true, false, ◌&&◌, not, Option, none, some, String, List, [], ◌∷◌, ◌++◌,
  map, ltb, leb, ◌==◌, str_eq, if◌then◌else◌, second, filter,
}

pub record PooledConn : Type 0 where
  pub key : String
  pub number : ℕ
  pub created : ℕ
  pub handshook : Bool

-- `handed` holds the numbers of the connections that were given to a request, and `shut` has the number
-- of a connection for each time that it was closed; `dialed` counts those that `Warm` has dialed. The
-- program has none of the three.
pub record ConnPool : Type 0 where
  pub parked : List PooledConn
  pub closed : Bool
  pub handed : List ℕ
  pub shut : List ℕ
  pub dialed : ℕ

unfoldable pub new_conn_pool : ConnPool
new_conn_pool = record { parked = []; closed = false; handed = []; shut = []; dialed = 0 }

abbrev pub max_pool_per_key : ℕ
max_pool_per_key = 2

abbrev pub pool_conn_ttl : ℕ
pool_conn_ttl = 300 * second

abbrev pub numbers : List PooledConn → List ℕ
numbers = map (λ c. c.number)

-- `len(p.conns[key])`.
unfoldable pub count_for : String → List PooledConn → ℕ
count_for key [] = 0
count_for key (c ∷ cs) = if str_eq c.key key then suc (count_for key cs) else count_for key cs

-- `time.Since(pc.created) < poolConnTTL`.
abbrev pub is_fresh : ℕ → PooledConn → Bool
is_fresh now c = ltb now (c.created + pool_conn_ttl)

abbrev pub is_usable : String → ℕ → PooledConn → Bool
is_usable key now c = str_eq c.key key && (c.handshook && is_fresh now c)

abbrev pub is_stale : String → ℕ → PooledConn → Bool
is_stale key now c = str_eq c.key key && not (is_fresh now c)

-- What the loop of `Take` sorts the connections into.
pub record Sorted : Type 0 where
  pub picked : Option PooledConn
  pub stale : List PooledConn
  pub kept : List PooledConn

-- A connection that is not picked.
abbrev pub put : Bool → PooledConn → Sorted → Sorted
put true c s = record s { stale = c ∷ s.stale }
put false c s = record s { kept = c ∷ s.kept }

-- The loop of `Take` after a pick, and from its start.
unfoldable pub sweep : String → ℕ → List PooledConn → Sorted
sweep key now [] = record { picked = none; stale = []; kept = [] }
sweep key now (c ∷ cs) = put (is_stale key now c) c (sweep key now cs)

unfoldable pub sort : String → ℕ → List PooledConn → Sorted
unfolding sweep
sort key now [] = record { picked = none; stale = []; kept = [] }
sort key now (c ∷ cs) =
    let taking = record (sweep key now cs) { picked = some c } in
    let passing = put (is_stale key now c) c (sort key now cs) in
    if is_usable key now c then taking else passing

abbrev pub picked_numbers : Option PooledConn → List ℕ
picked_numbers none = []
picked_numbers (some c) = c.number ∷ []

-- The locked part of `Take`.
unfoldable pub take_parked : ConnPool → String → ℕ → ConnPool × Option PooledConn
unfolding sort
take_parked p key now =
    let s = sort key now p.parked in
    (
      record p {
        parked = s.kept;
        handed = picked_numbers s.picked ++ p.handed;
        shut = numbers s.stale ++ p.shut;
      },
      s.picked,
    )

-- `Take`: it refuses, answers with a parked connection, or dials.
pub data Taken : Type 0 where
  refused dials : Taken
  hit : PooledConn → Taken

unfoldable pub take : ConnPool → String → ℕ → ConnPool × Taken
unfolding take_parked
take p key now = if p.closed then (p, refused) else (
  (take_parked p key now).0,
  elim (take_parked p key now).1 [ none ↦ dials | some c ↦ hit c ],
)

-- The tests with which `Warm` starts: whether it dials.
unfoldable pub warms : ConnPool → String → Bool
unfolding count_for
warms p key = not p.closed && ltb (count_for key p.parked) max_pool_per_key

-- The end of `Warm`, after the handshake.
unfoldable pub park : ConnPool → String → ℕ → ConnPool
unfolding count_for
park p key now =
    if leb max_pool_per_key (count_for key p.parked)
    then record p { shut = p.dialed ∷ p.shut; dialed = p.dialed + 1 }
    else record p {
      parked =
          p.parked ++ record { key = key; number = p.dialed; created = now; handshook = true } ∷ [];
      dialed = p.dialed + 1;
    }

unfoldable pub drop_number : ℕ → List PooledConn → List PooledConn
drop_number n [] = []
drop_number n (c ∷ cs) = if c.number == n then cs else c ∷ drop_number n cs

-- `evict`: it closes the connection also when it is in the map no more, as one is that `Take` has just
-- handed out.
unfoldable pub evict : ConnPool → ℕ → ConnPool
unfolding drop_number
evict p n = record p { parked = drop_number n p.parked; shut = n ∷ p.shut }

-- `now.Sub(pc.created) > poolConnTTL`.
abbrev pub is_old : ℕ → PooledConn → Bool
is_old now c = ltb (c.created + pool_conn_ttl) now

unfoldable pub gc : ConnPool → ℕ → ConnPool
gc p now = record p {
  parked = filter (λ c. not (is_old now c)) p.parked;
  shut = numbers (filter (is_old now) p.parked) ++ p.shut;
}

-- `Close`; the second time it does nothing.
unfoldable pub close : ConnPool → ConnPool
close p =
    if p.closed
    then p
    else record p { parked = []; closed = true; shut = numbers p.parked ++ p.shut }
