-- ===== src/Connections/Turns.antt =====
-- `Take`, `GC` and `Close` of internal/chathub/connpool.go, over any sequence of locked parts.
use m365_copilot2api_dsm.Prelude.{
  ℕ, ◌<◌, ◌&&◌, ◌==◌, ◌≤◌, ◌≡◌, refl, ap, sym, ◌∙◌, Bool, true, false, not, Option, none, some,
  String, List, [], ◌∷◌, ltb, if◌then◌else◌, arith, Bool-cases, inl, inr, filter,
}
use m365_copilot2api_dsm.Connections.{
  PooledConn, ConnPool, new_conn_pool, count_for, is_usable, is_stale, sweep, sort, picked_numbers,
  take_parked, take, hit, refused, park, evict, gc, close, max_pool_per_key,
}
use m365_copilot2api_dsm.Connections.Fates.{
  tally, occurs, gone, Inv, new_conn_pool-Inv, take-Inv, take_parked-Inv, park-Inv, evict-Inv,
  gc-Inv, close-Inv, sort-occurs,
}

-- The locked parts that callers run: `Take` also as it is when the pool was closed after its first
-- test, and the end of `Warm` also when it was closed since `Warm` began. A connection is evicted by its
-- own reader, so only one that was dialed is; it may have been handed out or closed before.
pub data Section : Type 0 where
  takes takes_late parks : String → ℕ → Section
  evicts collects : ℕ → Section
  closes : Section

unfoldable pub enter : ConnPool → Section → ConnPool
enter p (takes key now) = (take p key now).0
enter p (takes_late key now) = (take_parked p key now).0
enter p (parks key now) = park p key now
enter p (evicts n) = if ltb n p.dialed then evict p n else p
enter p (collects now) = gc p now
enter p closes = close p

unfoldable pub run : ConnPool → List Section → ConnPool
unfolding enter
run p [] = p
run p (s ∷ rest) = run (enter p s) rest

enter-Inv : (p : ConnPool) (s : Section) → Inv p → Inv (enter p s)
unfolding enter
enter-Inv p (takes key now) v = take-Inv p key now v
enter-Inv p (takes_late key now) v = take_parked-Inv p key now v
enter-Inv p (parks key now) v = park-Inv p key now v
enter-Inv p (evicts n) v = elim (Bool-cases (ltb n p.dialed)) [
  | inl q ↦ rw q (evict-Inv p n v (ground (arith, q)))
  | inr q ↦ rw q v
]
enter-Inv p (collects now) v = gc-Inv p now v
enter-Inv p closes v = close-Inv p v

run-Inv : (p : ConnPool) (ss : List Section) → Inv p → Inv (run p ss)
unfolding run
run-Inv p [] v = v
run-Inv p (s ∷ rest) v = run-Inv (enter p s) rest (enter-Inv p s v)

-- After any interleaving of the locked parts, at most two connections are parked for a key; a connection
-- that was dialed is parked, and once, exactly as long as it was neither handed to a request nor closed,
-- so none is forgotten; and none is handed to two requests.
pub run-places :
    (ss : List Section) (key : String) (n : ℕ)
    → let p = run new_conn_pool ss in
      (count_for key p.parked ≤ max_pool_per_key)
      × (occurs n p.parked ≡ (if ltb n p.dialed && gone p n == 0 then 1 else 0))
      × (tally n p.handed ≤ 1)
run-places ss key n =
    let v = run-Inv new_conn_pool ss new_conn_pool-Inv in (v.bounded key, v.placed n, v.once n)

-- The first connection that passes a test, and the others: what `Take` is to do.
unfoldable pub find_first : (PooledConn → Bool) → List PooledConn → Option PooledConn
find_first p [] = none
find_first p (c ∷ cs) = if p c then some c else find_first p cs

unfoldable pub without_first : (PooledConn → Bool) → List PooledConn → List PooledConn
without_first p [] = []
without_first p (c ∷ cs) = if p c then cs else c ∷ without_first p cs

sweep-kept :
    (key : String) (now : ℕ) (cs : List PooledConn)
    → (sweep key now cs).kept ≡ filter (λ c. not (is_stale key now c)) cs
unfolding sweep
sweep-kept key now [] = refl
sweep-kept key now (c ∷ cs) = ground (arith, sweep-kept key now cs)

sort-picked :
    (key : String) (now : ℕ) (cs : List PooledConn)
    → (sort key now cs).picked ≡ find_first (is_usable key now) cs
unfolding sort find_first
sort-picked key now [] = refl
sort-picked key now (c ∷ cs) = ground (arith, sort-picked key now cs)

sort-kept :
    (key : String) (now : ℕ) (cs : List PooledConn)
    → (sort key now cs).kept
      ≡ filter (λ c. not (is_stale key now c)) (without_first (is_usable key now) cs)
unfolding sort without_first
sort-kept key now [] = refl
sort-kept key now (c ∷ cs) = ground (arith, sort-kept key now cs, sweep-kept key now cs)

-- `Take` picks the first connection of the key that shook hands and is younger than 300 s, if there
-- is one; of the others it keeps all but those of the key that are not.
pub take_parked_first :
    (p : ConnPool) (key : String) (now : ℕ)
    → ((take_parked p key now).1 ≡ find_first (is_usable key now) p.parked)
      × ((take_parked p key now).0.parked
          ≡ filter (λ c. not (is_stale key now c)) (without_first (is_usable key now) p.parked))
unfolding take_parked
take_parked_first p key now = (sort-picked key now p.parked, sort-kept key now p.parked)

found-passes :
    (p : PooledConn → Bool) (cs : List PooledConn) {d : PooledConn}
    → find_first p cs ≡ some d
    → p d ≡ true
unfolding find_first
found-passes p [] e = cc
found-passes p (c ∷ cs) {d} e = elim (Bool-cases (p c)) [
  | inl q ↦ let same : c ≡ d = ground arith in ap p (sym same) ∙ q
  | inr q ↦ found-passes p cs (rw q at e)
]

take-cases :
    (p : ConnPool) (key : String) (now : ℕ) {c : PooledConn}
    → (take p key now).1 ≡ hit c
    → (take_parked p key now).1 ≡ some c
unfolding take
take-cases p key now e = ground arith

tally_self : (n : ℕ) → tally n (n ∷ []) ≡ 1
unfolding tally
tally_self n = ground arith

picked-once :
    (p : ConnPool) (key : String) (now : ℕ) {c : PooledConn}
    → Inv p
    → (take_parked p key now).1 ≡ some c
    → (tally c.number p.handed ≡ 0) × (tally c.number p.shut ≡ 0)
unfolding take_parked
picked-once p key now {c} v e = grind (
  arith,
  tally_self c.number,
  v.placed c.number,
  sort-occurs c.number key now p.parked,
  ap (λ o. tally c.number (picked_numbers o)) e,
)

-- After any interleaving, the connection that a `Take` answers with is one of its key, shook hands, is
-- younger than 300 s, and was neither handed to a request nor closed before.
pub take_hit :
    (ss : List Section) (key : String) (now : ℕ) {c : PooledConn}
    → (take (run new_conn_pool ss) key now).1 ≡ hit c
    → (is_usable key now c ≡ true)
      × (tally c.number (run new_conn_pool ss).handed ≡ 0)
      × (tally c.number (run new_conn_pool ss).shut ≡ 0)
take_hit ss key now {c} e =
    let p = run new_conn_pool ss in
    let q = take-cases p key now e in
    let once = picked-once p key now (run-Inv new_conn_pool ss new_conn_pool-Inv) q in
    (
      found-passes (is_usable key now) p.parked (sym (take_parked_first p key now).0 ∙ q),
      once.0,
      once.1,
    )

close-empty :
    (p : ConnPool) → p.closed ≡ false → ((close p).parked ≡ []) × ((close p).closed ≡ true)
unfolding close
close-empty p h = ground arith

close-dialed : (p : ConnPool) → (close p).dialed ≡ p.dialed
unfolding close
close-dialed p = ground arith

take-closed :
    (p : ConnPool) (key : String) (now : ℕ) → p.closed ≡ true → (take p key now).1 ≡ refused
unfolding take
take-closed p key now h = ground arith

occurs-empty : (n : ℕ) (cs : List PooledConn) → cs ≡ [] → occurs n cs ≡ 0
unfolding tally
occurs-empty n cs h = rw h

-- When a pool is closed after any interleaving in which it was not closed before, no connection is
-- parked, every connection dialed was handed to a request or closed, and `Take` refuses.
pub close_leaves_none :
    (ss : List Section) (key : String) (n now : ℕ)
    → (run new_conn_pool ss).closed ≡ false
    → n < (run new_conn_pool ss).dialed
    → let p = close (run new_conn_pool ss) in
      (p.parked ≡ []) × (0 < gone p n) × ((take p key now).1 ≡ refused)
close_leaves_none ss key n now open_before dialed =
    let p = run new_conn_pool ss in
    let v = close-Inv p (run-Inv new_conn_pool ss new_conn_pool-Inv) in
    let shape = close-empty p open_before in
    (
      shape.0,
      ground (arith, v.placed n, occurs-empty n (close p).parked shape.0, close-dialed p, dialed),
      take-closed (close p) key now shape.1,
    )

-- A `Warm` that was dialing while the pool was closed parks its connection all the same: `Take`
-- refuses to hand it out, and closing the pool again does not close it.
pub parks_when_closed :
    (p : ConnPool) (key : String) (now later : ℕ)
    → p.closed ≡ false
    → let q = park (close p) key now in
      (occurs p.dialed q.parked ≡ 1) × ((take q key later).1 ≡ refused) × (close q ≡ q)
unfolding park close count_for tally take
parks_when_closed p key now later h = ground arith
