-- ===== src/Slots/Limit.antt =====
-- The counts and the slots of internal/web/account_concurrency.go, over any sequence of calls.
use m365_copilot2api_dsm.Prelude.{
  ℕ, suc, ◌+◌, ◌-◌, ◌≤◌, ◌<◌, ◌≡◌, refl, ap, ◌≢◌, true, none, some, String, List, [], ◌∷◌, ltb, leb,
  str_eq, if◌then◌else◌, lookup, insert, delete, value_or, eq_iff, lookup-insert, lookup-delete,
  lookup-empty, eq_refl, str_ne, ◌∙◌, arith, Bool-cases, Option-cases, inl, inr,
}
use m365_copilot2api_dsm.Slots.{
  Slot, Slots, new_slots, running, available, Release, no_op, slot, try_acquire, find_held,
  drop_held, release,
}

-- How many slots of an account are held.
unfoldable pub held_by : String → List Slot → ℕ
held_by id [] = 0
held_by id (h ∷ hs) = if str_eq h.account id then suc (held_by id hs) else held_by id hs

-- The counts are those of the held slots, and at most the limit.
pub record Inv (s : Slots) : Type 0 where
  pub counted : (id : String) → running s id ≡ held_by id s.held
  pub limited : (id : String) → held_by id s.held ≤ s.limit

new_slots-Inv : (limit : ℕ) → Inv (new_slots limit)
unfolding new_slots running held_by
new_slots-Inv limit = record { counted = λ id. rw lookup-empty refl; limited = λ id. omega arith }

running-insert :
    (s : Slots) (id j : String) (n : ℕ)
    → value_or 0 (lookup j (insert id n s.inflight)) ≡ (if str_eq id j then n else running s j)
unfolding running
running-insert s id j n = ground (arith, lookup-insert id j n s.inflight)

running-delete :
    (s : Slots) (id j : String)
    → value_or 0 (lookup j (delete id s.inflight)) ≡ (if str_eq id j then 0 else running s j)
unfolding running
running-delete s id j = ground (arith, lookup-delete id j s.inflight)

held_by-drop :
    (n : ℕ) (j : String) (hs : List Slot) {id : String}
    → find_held n hs ≡ some id
    → held_by j hs ≡ held_by j (drop_held n hs) + (if str_eq id j then 1 else 0)
unfolding find_held drop_held held_by
held_by-drop n j [] e = cc
held_by-drop n j (h ∷ hs) {id} e = ground (arith, held_by-drop n j hs {id = id})

held_by-pos : (n : ℕ) (hs : List Slot) {id : String} → find_held n hs ≡ some id → 0 < held_by id hs
unfolding find_held held_by
held_by-pos n [] e = cc
held_by-pos n (h ∷ hs) {id} e = ground (arith, eq_refl id, held_by-pos n hs {id = id})

module _ (s : Slots) (v : Inv s) where
  acquired-counted :
      (id j : String) (n : ℕ)
      → value_or 0 (lookup j (insert id (running s id + 1) s.inflight))
        ≡ held_by j (record { number = n; account = id } ∷ s.held)
  unfolding held_by
  acquired-counted id j n =
      ground (arith, running-insert s id j (running s id + 1), v.counted j, eq_iff id j)

  acquired-limited :
      (id j : String) (n : ℕ)
      → ltb (running s id) s.limit ≡ true
      → held_by j (record { number = n; account = id } ∷ s.held) ≤ s.limit
  unfolding held_by
  acquired-limited id j n h = ground (arith, v.limited j, v.counted j, eq_iff id j)

  given_back-counted :
      (n : ℕ) (id j : String)
      → find_held n s.held ≡ some id
      → value_or 0 (
          lookup j (
            if leb (running s id) 1
            then delete id s.inflight
            else insert id (running s id - 1) s.inflight))
        ≡ held_by j (drop_held n s.held)
  given_back-counted n id j e = ground (
    arith,
    running-delete s id j,
    running-insert s id j (running s id - 1),
    held_by-drop n j s.held e,
    held_by-pos n s.held e,
    v.counted id,
    v.counted j,
    eq_iff id j,
  )

  given_back-limited :
      (n : ℕ) (id j : String)
      → find_held n s.held ≡ some id
      → held_by j (drop_held n s.held) ≤ s.limit
  given_back-limited n id j e = omega (arith, v.limited j, held_by-drop n j s.held e)

try_acquire-Inv : (s : Slots) (id : String) → Inv s → Inv (try_acquire s id).0
unfolding try_acquire running
try_acquire-Inv s id v = elim (Bool-cases (str_eq id "")) [
  | inl p ↦ rw p v
  | inr p ↦ elim (Bool-cases (ltb (running s id) s.limit)) [
    | inl q ↦
        rw (p, q)
          (record {
            counted = λ j. acquired-counted s v id j s.issued;
            limited = λ j. acquired-limited s v id j s.issued q;
          })
    | inr q ↦ rw (p, q) v
  ]
]

release-Inv : (s : Slots) (r : Release) → Inv s → Inv (release s r)
unfolding release running
release-Inv s no_op v = v
release-Inv s (slot n) v = elim (Option-cases (find_held n s.held)) [
  | inl e ↦ rw (e, release) v
  | inr (id, e) ↦
      rw (e, release)
        (record {
          counted = λ j. given_back-counted s v n id j e;
          limited = λ j. given_back-limited s v n id j e;
        })
]

-- What calls do: ask for a slot, or run a release function, at any time and any number of times.
pub data Action : Type 0 where
  asks : String → Action
  releases : Release → Action

unfoldable pub act : Slots → Action → Slots
act s (asks id) = (try_acquire s id).0
act s (releases r) = release s r

unfoldable pub run : Slots → List Action → Slots
unfolding act
run s [] = s
run s (a ∷ rest) = run (act s a) rest

act-Inv : (s : Slots) (a : Action) → Inv s → Inv (act s a)
unfolding act
act-Inv s (asks id) v = try_acquire-Inv s id v
act-Inv s (releases r) v = release-Inv s r v

run-Inv : (s : Slots) (actions : List Action) → Inv s → Inv (run s actions)
unfolding run
run-Inv s [] v = v
run-Inv s (a ∷ rest) v = run-Inv (act s a) rest (act-Inv s a v)

act-limit : (s : Slots) (a : Action) → (act s a).limit ≡ s.limit
unfolding act try_acquire release
act-limit s (asks id) = ground arith
act-limit s (releases no_op) = refl
act-limit s (releases (slot n)) = ground arith

run-limit : (s : Slots) (actions : List Action) → (run s actions).limit ≡ s.limit
unfolding run
run-limit s [] = refl
run-limit s (a ∷ rest) = run-limit (act s a) rest ∙ act-limit s a

new_slots-limit : (limit : ℕ) → (new_slots limit).limit ≡ limit
unfolding new_slots
new_slots-limit limit = refl

-- After any interleaving of calls that ask for slots and of release functions that run, each however
-- often, the count of every account is that of its slots not given back, and at most the limit.
pub run_within_limit :
    (limit : ℕ) (actions : List Action) (id : String)
    → (running (run (new_slots limit) actions) id ≡ held_by id (run (new_slots limit) actions).held)
      × (running (run (new_slots limit) actions) id ≤ limit)
run_within_limit limit actions id =
    let v = run-Inv (new_slots limit) actions (new_slots-Inv limit) in
    let c = run-limit (new_slots limit) actions in
    (v.counted id, omega (arith, v.counted id, v.limited id, c, new_slots-limit limit))

acquire_of_Inv :
    (s : Slots) (id : String)
    → Inv s
    → id ≢ ""
    → ((try_acquire s id).1
        ≡ (if ltb (held_by id s.held) s.limit then some (slot s.issued) else none))
      × (available s id ≡ ltb (held_by id s.held) s.limit)
unfolding try_acquire available
acquire_of_Inv s id v named = rw (str_ne id "" named, v.counted id) (ground arith, refl)

-- After any history, a call for a named account gets a slot exactly when fewer of the account's
-- slots than the limit are held, and that is also when the account is reported available.
pub try_acquire_iff :
    (limit : ℕ) (actions : List Action) (id : String)
    → id ≢ ""
    → let s = run (new_slots limit) actions in
      ((try_acquire s id).1
        ≡ (if ltb (held_by id s.held) limit then some (slot s.issued) else none))
      × (available s id ≡ ltb (held_by id s.held) limit)
try_acquire_iff limit actions id named =
    simp (run-limit (new_slots limit) actions ∙ new_slots-limit limit) at (
      acquire_of_Inv (run (new_slots limit) actions) id
        (run-Inv (new_slots limit) actions (new_slots-Inv limit)) named)

freed_of_Inv :
    (s : Slots) (n : ℕ) {id : String}
    → Inv s
    → find_held n s.held ≡ some id
    → ltb (held_by id (release s (slot n)).held) (release s (slot n)).limit ≡ true
unfolding release
freed_of_Inv s n {id} v e =
    rw (e, release) (ground (arith, held_by-drop n id s.held e, v.limited id, eq_refl id))

-- When a held slot is given back, after any history, the next call for its account gets one, also
-- where all slots of the account were held before.
pub release_frees :
    (limit : ℕ) (actions : List Action) (n : ℕ) (id : String)
    → id ≢ ""
    → find_held n (run (new_slots limit) actions).held ≡ some id
    → let s = release (run (new_slots limit) actions) (slot n) in
      (try_acquire s id).1 ≡ some (slot s.issued)
release_frees limit actions n id named e =
    let v = run-Inv (new_slots limit) actions (new_slots-Inv limit) in
    let s = release (run (new_slots limit) actions) (slot n) in
    (acquire_of_Inv s id (release-Inv _ (slot n) v) named).0
    ∙ ap (λ b. if b then some (slot s.issued) else none) (freed_of_Inv _ n v e)
