-- ===== src/Lockout/Bound.antt =====
-- The size of the map of failed logins in internal/web/admin_security.go.
use m365_copilot2api_dsm.Prelude.{
  ℕ, ◌≤◌, ◌<◌, ◌≡◌, ◌≢◌, refl, sym, ◌∙◌, Bool, true, ◌&&◌, ◌||◌, not, none, some, String, List, [],
  ◌∷◌, ltb, leb, str_eq, if◌then◌else◌, Dict, lookup, insert, delete, value_or, is_some, length,
  is_zero, arith, eq_iff, inl, inr, ◌⊎◌, Bool-cases, if_both, lookup-insert, lookup-delete,
  lookup-empty, str_ne, str_eq_cases, eq_refl, length-delete-lt, length-delete-le, length-insert-le,
  length-insert_old,
}
use m365_copilot2api_dsm.Lockout.{
  LoginAttempt, login_allowed, purge, oldest, evict, make_room, record_login_failure,
  clear_login_failures, max_login_attempt_entries, no_attempt, window_over,
}

length-purge-le : (now : ℕ) (m : Dict LoginAttempt) → length (purge now m) ≤ length m
unfolding purge
length-purge-le now [] = omega arith
length-purge-le now ((k, a) ∷ m) = ground (arith, length-purge-le now m)

pub lookup-purge-none :
    (key : String) (now : ℕ) (m : Dict LoginAttempt)
    → lookup key m ≡ none
    → lookup key (purge now m) ≡ none
unfolding purge lookup
lookup-purge-none key now [] h = refl
lookup-purge-none key now ((k, a) ∷ m) h = ground (arith, lookup-purge-none key now m)

lookup_cons :
    (key k : String) (a : LoginAttempt) (m : Dict LoginAttempt)
    → lookup key ((k, a) ∷ m) ≡ (if str_eq k key then some a else lookup key m)
unfolding lookup
lookup_cons key k a m = refl

-- The search answers with its start, or with a key of the map.
oldest_in :
    (best : String) (since : ℕ) (m : Dict LoginAttempt)
    → (oldest best since m ≡ best) ⊎ (is_some (lookup (oldest best since m) m) ≡ true)
unfolding oldest
oldest_in best since [] = inl refl
oldest_in best since ((k, a) ∷ m) = elim (Bool-cases (str_eq best "" || ltb a.window_start since)) [
  | inl q ↦ rw q (elim (oldest_in k a.window_start m) [
    | inl e ↦ inr (
        ground (
          arith,
          e,
          lookup_cons (oldest k a.window_start m) k a m,
          eq_iff k (oldest k a.window_start m),
        ))
    | inr e ↦ inr (ground (arith, e, lookup_cons (oldest k a.window_start m) k a m))
  ])
  | inr q ↦ rw q (elim (oldest_in best since m) [
    | inl e ↦ inl e
    | inr e ↦ inr (ground (arith, e, lookup_cons (oldest best since m) k a m))
  ])
]

oldest_found : (m : Dict LoginAttempt) → 0 < length m → is_some (lookup (oldest "" 0 m) m) ≡ true
unfolding oldest
oldest_found [] h = absurd (omega arith)
oldest_found ((k, a) ∷ m) h = elim (oldest_in k a.window_start m) [
  | inl e ↦ ground (
    arith,
    e,
    eq_refl k,
    lookup_cons (oldest k a.window_start m) k a m,
    eq_iff k (oldest k a.window_start m),
  )
  | inr e ↦ ground (arith, e, lookup_cons (oldest k a.window_start m) k a m)
]

some_not_none :
    (m : Dict LoginAttempt) (k : String) → is_some (lookup k m) ≡ true → lookup k m ≢ none
some_not_none m k h e = ground arith

length-evict-lt :
    (m : Dict LoginAttempt) → lookup "" m ≡ none → 0 < length m → length (evict m) < length m
unfolding evict
length-evict-lt m named h = elim (str_eq_cases (oldest "" 0 m) "") [
  | inl e ↦ absurd (some_not_none m "" (rw (sym e) (oldest_found m h)) named)
  | inr (q, ne) ↦ rw q (length-delete-lt _ m (some_not_none m _ (oldest_found m h)))
]

pub lookup-evict-none :
    (key : String) (m : Dict LoginAttempt) → lookup key m ≡ none → lookup key (evict m) ≡ none
unfolding evict
lookup-evict-none key m h = ground (arith, h, lookup-delete (oldest "" 0 m) key m)

-- The bound, and that no entry has the address "".
pub record Inv (m : Dict LoginAttempt) : Type 0 where
  pub bounded : length m ≤ max_login_attempt_entries
  pub named : lookup "" m ≡ none

purge-Inv : (m : Dict LoginAttempt) (now : ℕ) → Inv m → Inv (purge now m)
purge-Inv m now v = record {
  bounded = omega (arith, v.bounded, length-purge-le now m);
  named = lookup-purge-none "" now m v.named;
}

delete-Inv : (m : Dict LoginAttempt) (ip : String) → Inv m → Inv (delete ip m)
delete-Inv m ip v = record {
  bounded = omega (arith, v.bounded, length-delete-le ip m);
  named = ground (arith, v.named, lookup-delete ip "" m);
}

evict-Inv : (m : Dict LoginAttempt) → Inv m → Inv (evict m)
unfolding evict
evict-Inv m v = if_both Inv (str_eq (oldest "" 0 m) "") v (delete-Inv m (oldest "" 0 m) v)

evict_fits :
    (m : Dict LoginAttempt)
    → Inv m
    → leb max_login_attempt_entries (length m) ≡ true
    → length (evict m) < max_login_attempt_entries
evict_fits m v h = omega (arith, v.bounded, length-evict-lt m v.named (ground arith))

-- With room made, the map has the address already, or fewer entries than it may.
make_room-fits :
    (m : Dict LoginAttempt) (ip : String) (now : ℕ)
    → Inv m
    → (is_some (lookup ip (make_room m ip now)) ≡ true)
      ⊎ (length (make_room m ip now) < max_login_attempt_entries)
unfolding make_room
make_room-fits m ip now v =
    elim (Bool-cases (not (is_some (lookup ip m)) && leb max_login_attempt_entries (length m))) [
      | inl q ↦ rw q (elim (Bool-cases (leb max_login_attempt_entries (length (purge now m)))) [
        | inl r ↦ rw r (inr (evict_fits (purge now m) (purge-Inv m now v) r))
        | inr r ↦ rw r (inr (ground arith))
      ])
      | inr q ↦ rw q (ground arith)
    ]

make_room-Inv : (m : Dict LoginAttempt) (ip : String) (now : ℕ) → Inv m → Inv (make_room m ip now)
unfolding make_room
make_room-Inv m ip now v =
    if_both Inv (not (is_some (lookup ip m)) && leb max_login_attempt_entries (length m))
      (if_both Inv (leb max_login_attempt_entries (length (purge now m)))
        (evict-Inv (purge now m) (purge-Inv m now v)) (purge-Inv m now v))
      v

-- What may happen to the map: a login is asked for, fails, or goes through.
pub data Login : Type 0 where
  asks fails : String → ℕ → Login
  succeeds : String → Login

unfoldable pub after : Dict LoginAttempt → Login → Dict LoginAttempt
after m (asks ip now) = (login_allowed m ip now).0
after m (fails ip now) = record_login_failure m ip now
after m (succeeds ip) = clear_login_failures m ip

insert-bounded :
    (m : Dict LoginAttempt) (ip : String) (a : LoginAttempt)
    → length m ≤ max_login_attempt_entries
    → (is_some (lookup ip m) ≡ true) ⊎ (length m < max_login_attempt_entries)
    → length (insert ip a m) ≤ max_login_attempt_entries
insert-bounded m ip a b (inl h) = omega (arith, length-insert_old ip a m (some_not_none m ip h))
insert-bounded m ip a b (inr h) = omega (arith, length-insert-le ip a m)

record_login_failure-Inv :
    (m : Dict LoginAttempt) (ip : String) (now : ℕ)
    → ip ≢ ""
    → Inv m
    → Inv (record_login_failure m ip now)
unfolding record_login_failure
record_login_failure-Inv m ip now ne v =
    let w = make_room-Inv m ip now v in
    record {
      bounded = insert-bounded (make_room m ip now) ip _ w.bounded (make_room-fits m ip now v);
      named = lookup-insert ip "" _ (make_room m ip now) ∙ rw (str_ne ip "" ne) w.named;
    }

login_allowed-Inv :
    (m : Dict LoginAttempt) (ip : String) (now : ℕ) → Inv m → Inv (login_allowed m ip now).0
unfolding login_allowed
login_allowed-Inv m ip now v =
    let a = value_or no_attempt (lookup ip m) in
    if_both {A = Dict LoginAttempt × Bool} (λ x. Inv x.0) (ltb now a.locked_until) v
      (if_both Inv (is_zero a.window_start || window_over now a) (delete-Inv m ip v) v)

unfoldable pub run : Dict LoginAttempt → List Login → Dict LoginAttempt
unfolding after
run m [] = m
run m (l ∷ ls) = run (after m l) ls

-- Every address of a history is known.
abbrev pub Addressed : List Login → Type 0
Addressed [] = Unit {0}
Addressed (fails ip now ∷ ls) = (ip ≢ "") × Addressed ls
Addressed (_ ∷ ls) = Addressed ls

run-Inv : (m : Dict LoginAttempt) (ls : List Login) → Addressed ls → Inv m → Inv (run m ls)
unfolding run after
run-Inv m [] k v = v
run-Inv m (asks ip now ∷ ls) k v =
    run-Inv (after m (asks ip now)) ls k (login_allowed-Inv m ip now v)
run-Inv m (fails ip now ∷ ls) k v =
    run-Inv (after m (fails ip now)) ls k.1 (record_login_failure-Inv m ip now k.0 v)
run-Inv m (succeeds ip ∷ ls) k v =
    run-Inv (after m (succeeds ip)) ls k (unfold clear_login_failures in delete-Inv m ip v)

-- After any history of logins from known addresses, the map has at most 4096 entries.
pub length-run-le :
    (ls : List Login) → Addressed ls → length (run [] ls) ≤ max_login_attempt_entries
length-run-le ls k =
    (run-Inv [] ls k (record { bounded = omega arith; named = lookup-empty "" })).bounded
