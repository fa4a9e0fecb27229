-- ===== src/Connections/Fates.antt =====
-- Where the connections of internal/chathub/connpool.go are.
use m365_copilot2api_dsm.Prelude.{
  ℕ, suc, ◌+◌, ◌-◌, ◌&&◌, ◌<◌, ◌≤◌, ◌≡◌, refl, Bool, true, not, String, List, [], ◌∷◌, ◌++◌, ltb,
  ◌==◌, if◌then◌else◌, arith, Bool-cases, inl, inr, eq_iff, filter, if_both,
}
use m365_copilot2api_dsm.Connections.{
  PooledConn, ConnPool, new_conn_pool, numbers, count_for, is_old, sweep, sort, picked_numbers,
  take_parked, take, Taken, park, drop_number, evict, gc, close, max_pool_per_key,
}

-- How often a number occurs.
unfoldable pub tally : ℕ → List ℕ → ℕ
tally n [] = 0
tally n (m ∷ ms) = if m == n then suc (tally n ms) else tally n ms

abbrev pub occurs : ℕ → List PooledConn → ℕ
occurs n cs = tally n (numbers cs)

pub tally-append : (n : ℕ) (ms ks : List ℕ) → tally n (ms ++ ks) ≡ tally n ms + tally n ks
unfolding tally
tally-append n [] ks = omega arith
tally-append n (m ∷ ms) ks = ground (arith, tally-append n ms ks)

occurs-append : (n : ℕ) (cs ds : List PooledConn) → occurs n (cs ++ ds) ≡ occurs n cs + occurs n ds
unfolding tally
occurs-append n [] ds = omega arith
occurs-append n (c ∷ cs) ds = ground (arith, occurs-append n cs ds)

sweep-occurs :
    (n : ℕ) (key : String) (now : ℕ) (cs : List PooledConn)
    → occurs n cs ≡ occurs n (sweep key now cs).kept + occurs n (sweep key now cs).stale
unfolding sweep tally
sweep-occurs n key now [] = refl
sweep-occurs n key now (c ∷ cs) = ground (arith, sweep-occurs n key now cs)

pub sort-occurs :
    (n : ℕ) (key : String) (now : ℕ) (cs : List PooledConn)
    → occurs n cs
      ≡ occurs n (sort key now cs).kept
        + occurs n (sort key now cs).stale
        + tally n (picked_numbers (sort key now cs).picked)
unfolding sort tally
sort-occurs n key now [] = refl
sort-occurs n key now (c ∷ cs) = ground (arith, sort-occurs n key now cs, sweep-occurs n key now cs)

filter-occurs :
    (n now : ℕ) (cs : List PooledConn)
    → occurs n cs
      ≡ occurs n (filter (λ c. not (is_old now c)) cs) + occurs n (filter (is_old now) cs)
unfolding tally
filter-occurs n now [] = refl
filter-occurs n now (c ∷ cs) = ground (arith, filter-occurs n now cs)

drop-occurs :
    (n m : ℕ) (cs : List PooledConn)
    → occurs n (drop_number m cs)
      ≡ (if m == n then (if ltb 0 (occurs n cs) then occurs n cs - 1 else 0) else occurs n cs)
unfolding drop_number tally
drop-occurs n m [] = ground arith
drop-occurs n m (c ∷ cs) = ground (arith, drop-occurs n m cs)

-- How often a connection was given to a request or closed.
abbrev pub gone : ConnPool → ℕ → ℕ
gone p n = tally n p.handed + tally n p.shut

-- Each connection that was dialed is parked, once, until it is given to a request or closed; none is
-- given to two requests, and no key has more than two parked.
pub record Inv (p : ConnPool) : Type 0 where
  pub placed : (n : ℕ) → occurs n p.parked ≡ (if ltb n p.dialed && gone p n == 0 then 1 else 0)
  pub once : (n : ℕ) → tally n p.handed ≤ 1
  pub fresh : (n : ℕ) → p.dialed ≤ n → gone p n ≡ 0
  pub bounded : (key : String) → count_for key p.parked ≤ max_pool_per_key

count-append :
    (key : String) (cs ds : List PooledConn)
    → count_for key (cs ++ ds) ≡ count_for key cs + count_for key ds
unfolding count_for
count-append key [] ds = omega arith
count-append key (c ∷ cs) ds = ground (arith, count-append key cs ds)

sweep-count :
    (key asked : String) (now : ℕ) (cs : List PooledConn)
    → count_for key (sweep asked now cs).kept ≤ count_for key cs
unfolding sweep count_for
sweep-count key asked now [] = omega arith
sweep-count key asked now (c ∷ cs) = ground (arith, sweep-count key asked now cs)

sort-count :
    (key asked : String) (now : ℕ) (cs : List PooledConn)
    → count_for key (sort asked now cs).kept ≤ count_for key cs
unfolding sort count_for
sort-count key asked now [] = omega arith
sort-count key asked now (c ∷ cs) =
    ground (arith, sort-count key asked now cs, sweep-count key asked now cs)

filter-count :
    (key : String) (p : PooledConn → Bool) (cs : List PooledConn)
    → count_for key (filter p cs) ≤ count_for key cs
unfolding count_for
filter-count key p [] = omega arith
filter-count key p (c ∷ cs) = ground (arith, filter-count key p cs)

drop-count :
    (key : String) (n : ℕ) (cs : List PooledConn)
    → count_for key (drop_number n cs) ≤ count_for key cs
unfolding drop_number count_for
drop-count key n [] = omega arith
drop-count key n (c ∷ cs) = ground (arith, drop-count key n cs)

pub new_conn_pool-Inv : Inv new_conn_pool
unfolding new_conn_pool tally count_for
new_conn_pool-Inv = record {
  placed = λ n. ground arith;
  once = λ n. omega arith;
  fresh = λ n le. omega arith;
  bounded = λ key. omega arith;
}

-- What may happen to the places of a connection: some leave the map to be handed out or closed.
leave :
    (n before kept handed shut h s dialed : ℕ)
    → before ≡ kept + s + h
    → before ≡ (if ltb n dialed && handed + shut == 0 then 1 else 0)
    → handed ≤ 1
    → (dialed ≤ n → handed + shut ≡ 0)
    → (kept ≡ (if ltb n dialed && h + handed + (s + shut) == 0 then 1 else 0))
      × (h + handed ≤ 1)
      × (dialed ≤ n → h + handed + (s + shut) ≡ 0)
leave n before kept handed shut h s dialed e placed once fresh =
    (ground arith, ground arith, λ le. let none_gone = fresh le in ground arith)

-- The places after connections left the map, from the counts of each number.
left-Inv :
    (p : ConnPool) (parked : List PooledConn) (picked stale : List ℕ) (closed : Bool)
    → Inv p
    → ((n : ℕ) → occurs n p.parked ≡ occurs n parked + tally n stale + tally n picked)
    → ((key : String) → count_for key parked ≤ count_for key p.parked)
    → Inv (record p {
      parked = parked;
      closed = closed;
      handed = picked ++ p.handed;
      shut = stale ++ p.shut;
    })
left-Inv p parked picked stale closed v sorted fewer =
    let parts = λ (n : ℕ).
      leave n (occurs n p.parked) (occurs n parked) (tally n p.handed) (tally n p.shut)
        (tally n picked) (tally n stale) p.dialed (sorted n) (v.placed n) (v.once n) (v.fresh n) in
    record {
      placed = λ n. rw (tally-append n picked p.handed, tally-append n stale p.shut) (parts n).0;
      once = λ n. rw (tally-append n picked p.handed) (parts n).1;
      fresh = λ n. rw (tally-append n picked p.handed, tally-append n stale p.shut) (parts n).2;
      bounded = λ k. omega (arith, v.bounded k, fewer k);
    }

pub take_parked-Inv :
    (p : ConnPool) (key : String) (now : ℕ) → Inv p → Inv (take_parked p key now).0
unfolding take_parked
take_parked-Inv p key now v =
    let s = sort key now p.parked in
    left-Inv p s.kept (picked_numbers s.picked) (numbers s.stale) p.closed v
      (λ n. sort-occurs n key now p.parked) (λ k. sort-count k key now p.parked)

pub take-Inv : (p : ConnPool) (key : String) (now : ℕ) → Inv p → Inv (take p key now).0
unfolding take
take-Inv p key now v =
    if_both {A = ConnPool × Taken} (λ r. Inv r.0) p.closed v (take_parked-Inv p key now v)

park-placed :
    (p : ConnPool) (key : String) (now n : ℕ)
    → Inv p
    → let q = park p key now in
      occurs n q.parked ≡ (if ltb n (p.dialed + 1) && gone q n == 0 then 1 else 0)
unfolding park tally
park-placed p key now n v = ground (
  arith,
  v.placed n,
  v.fresh n,
  occurs-append n p.parked
      (record { key = key; number = p.dialed; created = now; handshook = true } ∷ []),
)

park-fresh :
    (p : ConnPool) (key : String) (now n : ℕ)
    → Inv p
    → p.dialed + 1 ≤ n
    → gone (park p key now) n ≡ 0
unfolding park tally
park-fresh p key now n v le =
    let none_gone = v.fresh n (omega (arith, le)) in ground (arith, none_gone, le)

park-once : (p : ConnPool) (key : String) (now n : ℕ) → Inv p → tally n (park p key now).handed ≤ 1
unfolding park
park-once p key now n v = ground (arith, v.once n)

park-bounded :
    (p : ConnPool) (key k : String) (now : ℕ)
    → Inv p
    → count_for k (park p key now).parked ≤ max_pool_per_key
unfolding park count_for
park-bounded p key k now v = ground (
  arith,
  v.bounded k,
  eq_iff key k,
  count-append k p.parked
      (record { key = key; number = p.dialed; created = now; handshook = true } ∷ []),
)

park-dialed : (p : ConnPool) (key : String) (now : ℕ) → (park p key now).dialed ≡ p.dialed + 1
unfolding park
park-dialed p key now = ground arith

pub park-Inv : (p : ConnPool) (key : String) (now : ℕ) → Inv p → Inv (park p key now)
park-Inv p key now v = record {
  placed = λ n. rw (park-dialed p key now) (park-placed p key now n v);
  once = λ n. park-once p key now n v;
  fresh = λ n le. park-fresh p key now n v (rw (park-dialed p key now) at le);
  bounded = λ k. park-bounded p key k now v;
}

evict-placed :
    (p : ConnPool) (n m : ℕ)
    → Inv p
    → let q = evict p n in occurs m q.parked ≡ (if ltb m p.dialed && gone q m == 0 then 1 else 0)
unfolding evict tally
evict-placed p n m v = ground (arith, v.placed m, drop-occurs m n p.parked)

evict-fresh :
    (p : ConnPool) (n m : ℕ) → Inv p → n < p.dialed → p.dialed ≤ m → gone (evict p n) m ≡ 0
unfolding evict tally
evict-fresh p n m v dialed le =
    let none_gone = v.fresh m le in ground (arith, none_gone, dialed, le)

-- The reader of a connection that was dialed evicts it.
pub evict-Inv : (p : ConnPool) (n : ℕ) → Inv p → n < p.dialed → Inv (evict p n)
evict-Inv p n v dialed = record {
  placed = λ m. unfold evict in evict-placed p n m v;
  once = λ m. unfold evict in v.once m;
  fresh = λ m le. evict-fresh p n m v dialed (unfold evict in le);
  bounded = λ k. unfold evict in omega (arith, v.bounded k, drop-count k n p.parked);
}

pub gc-Inv : (p : ConnPool) (now : ℕ) → Inv p → Inv (gc p now)
unfolding gc tally
gc-Inv p now v =
    left-Inv p (filter (λ c. not (is_old now c)) p.parked) []
      (numbers (filter (is_old now) p.parked)) p.closed v
      (λ n. omega (arith, filter-occurs n now p.parked))
      (λ k. filter-count k (λ c. not (is_old now c)) p.parked)

pub close-Inv : (p : ConnPool) → Inv p → Inv (close p)
unfolding close tally count_for
close-Inv p v = elim (Bool-cases p.closed) [
  | inl q ↦ simp q v
  | inr q ↦
      simp q (left-Inv p [] [] (numbers p.parked) true v (λ n. omega arith) (λ k. omega arith))
]
