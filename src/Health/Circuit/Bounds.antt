-- ===== src/Health/Circuit/Bounds.antt =====
-- The counters and the open phase of the global circuit of internal/web/account_health.go.
use m365_copilot2api_dsm.Prelude.{
  ℕ, ◌+◌, ◌*◌, ◌≤◌, ◌≡◌, refl, true, false, Option, none, some, List, [], ◌∷◌, second, arith,
  Bool-cases, inl, inr, Option-cases, ◌⊎◌, ◌≢◌,
}
use m365_copilot2api_dsm.Health.Errors.{Error, typed_category}
use m365_copilot2api_dsm.Health.Circuit.{
  Circuit, closed_circuit, is_open, classify_error, is_transport, record_success, roll_window,
  record_transport_failure, record_result,
}

-- Failures are among the calls counted, no window counts more than 1000 calls, and the circuit is
-- not open for more than 30 s from `latest`.
pub record Inv (latest : ℕ) (g : Circuit) : Type 0 where
  pub counted : g.failures ≤ g.total
  pub capped : g.total ≤ 1000
  pub open_bounded : g.open_until ≤ latest + 30 * second

pub closed_circuit-Inv : (latest : ℕ) → Inv latest closed_circuit
unfolding closed_circuit
closed_circuit-Inv latest = omega arith

pub is_open-Inv : (latest now : ℕ) (g : Circuit) → Inv latest g → Inv latest (is_open g now).0
unfolding is_open
is_open-Inv latest now g v = ground arith

pub classify_error-Inv :
    (latest now : ℕ) (g : Circuit) (e : Option Error)
    → Inv latest g
    → Inv latest (classify_error g now e).0
unfolding classify_error
classify_error-Inv latest now g none v = v
classify_error-Inv latest now g (some e) v = elim (Option-cases (typed_category e)) [
  | inl p ↦ rw (p, classify_error) (is_open-Inv latest now g v)
  | inr (c, p) ↦ rw (p, classify_error) v
]

record_success-Inv :
    (latest now : ℕ) (g : Circuit) → latest ≤ now → Inv latest g → Inv now (record_success g now)
unfolding record_success
record_success-Inv latest now g h v = ground arith

record_transport_failure-Inv :
    (latest now : ℕ) (g : Circuit)
    → latest ≤ now
    → Inv latest g
    → Inv now (record_transport_failure g now)
unfolding record_transport_failure
record_transport_failure-Inv latest now g h v = ground arith

Inv-later : (latest now : ℕ) (g : Circuit) → latest ≤ now → Inv latest g → Inv now g
Inv-later latest now g h v = omega arith

pub record_result-Inv :
    (latest now : ℕ) (g : Circuit) (e : Option Error)
    → latest ≤ now
    → Inv latest g
    → Inv now (record_result g now e)
unfolding record_result
record_result-Inv latest now g none h v = record_success-Inv latest now g h v
record_result-Inv latest now g (some e) h v =
    let (g', cat) = classify_error g now (some e) in
    let v' = classify_error-Inv latest now g (some e) v in
    elim (Bool-cases (is_transport cat)) [
      | inl p ↦ rw p (record_transport_failure-Inv latest now g' h v')
      | inr p ↦ rw p (Inv-later latest now g' h v')
    ]

-- A history of recorded results, each with its time.
pub run : Circuit → List (ℕ × Option Error) → Circuit
run g [] = g
run g ((now, e) ∷ rest) = run (record_result g now e) rest

-- The times of a history do not fall, from `latest` on.
abbrev pub Ascends : ℕ → List (ℕ × Option Error) → Type 0
Ascends latest [] = Unit {0}
Ascends latest ((now, e) ∷ rest) = (latest ≤ now) × Ascends now rest

abbrev pub last_time : ℕ → List (ℕ × Option Error) → ℕ
last_time latest [] = latest
last_time latest ((now, e) ∷ rest) = last_time now rest

run-Inv :
    (latest : ℕ) (g : Circuit) (es : List (ℕ × Option Error))
    → Ascends latest es
    → Inv latest g
    → Inv (last_time latest es) (run g es)
unfolding run
run-Inv latest g [] a v = v
run-Inv latest g ((now, e) ∷ rest) a v =
    run-Inv now (record_result g now e) rest a.1 (record_result-Inv latest now g e a.0 v)

-- After any history of results whose times do not fall, the circuit counts no more failures than
-- calls, at most 1000 calls, and is closed 30 s after the last result.
pub run_bounded :
    (es : List (ℕ × Option Error)) (now : ℕ)
    → Ascends 0 es
    → last_time 0 es + 30 * second ≤ now
    → ((run closed_circuit es).failures ≤ (run closed_circuit es).total)
      × ((run closed_circuit es).total ≤ 1000)
      × ((is_open (run closed_circuit es) now).1 ≡ false)
unfolding is_open
run_bounded es now a h =
    let v = run-Inv 0 closed_circuit es a (closed_circuit-Inv 0) in
    (v.counted, v.capped, ground arith)

-- While the circuit is open, an error that only its text would classify leaves the circuit as it is:
-- the calls that an open circuit rejects do not keep it open.
pub open-untyped_unchanged :
    (g : Circuit) (now : ℕ) (e : Error)
    → typed_category e ≡ none
    → (is_open g now).1 ≡ true
    → record_result g now (some e) ≡ g
unfolding record_result classify_error is_open
open-untyped_unchanged g now e p h = rw (p, classify_error) (ground arith)

-- The calls and the failures that a window still counts at `now`.
abbrev pub window_total : Circuit → ℕ → ℕ
window_total g now = (roll_window g now).total

abbrev pub window_failures : Circuit → ℕ → ℕ
window_failures g now = (roll_window g now).failures

-- What one recorded result may do to the end of the open phase.
abbrev pub Moves : Circuit → ℕ → Circuit → Type 0
Moves g now g' =
    (g'.open_until ≡ g.open_until)
    ⊎ ((g'.open_until ≡ 0) × (g.open_until ≤ now))
    ⊎ ((g'.open_until ≡ now + 30 * second)
        × (9 ≤ window_total g now)
        × (window_total g now + 1 ≤ (window_failures g now + 1) * 2))

record_success-Moves : (g : Circuit) (now : ℕ) → Moves g now (record_success g now)
unfolding record_success
record_success-Moves g now = ground arith

record_transport_failure-Moves :
    (g : Circuit) (now : ℕ) → Moves g now (record_transport_failure g now)
unfolding record_transport_failure
record_transport_failure-Moves g now = ground arith

is_open_cases :
    (g : Circuit) (now : ℕ)
    → ((is_open g now).0 ≡ g)
      ⊎ (((is_open g now).0 ≡ record g { open_until = 0 }) × (g.open_until ≤ now))
unfolding is_open
is_open_cases g now = ground arith

classify_error_cases :
    (g : Circuit) (now : ℕ) (e : Option Error)
    → ((classify_error g now e).0 ≡ g)
      ⊎ (((classify_error g now e).0 ≡ record g { open_until = 0 }) × (g.open_until ≤ now))
unfolding classify_error
classify_error_cases g now none = inl refl
classify_error_cases g now (some e) = elim (Option-cases (typed_category e)) [
  | inl p ↦ rw (p, classify_error) (is_open_cases g now)
  | inr (c, p) ↦ rw (p, classify_error) (inl refl)
]

after_clearing :
    (g : Circuit) (now : ℕ)
    → g.open_until ≤ now
    → Moves g now (record_transport_failure (record g { open_until = 0 }) now)
unfolding record_transport_failure
after_clearing g now h = ground arith

record_result-Moves :
    (g : Circuit) (now : ℕ) (e : Option Error) → Moves g now (record_result g now e)
unfolding record_result
record_result-Moves g now none = record_success-Moves g now
record_result-Moves g now (some e) =
    elim (Bool-cases (is_transport (classify_error g now (some e)).1)) [
      | inl p ↦ rw p (elim (classify_error_cases g now (some e)) [
        | inl q ↦ rw q (record_transport_failure-Moves g now)
        | inr (q, h) ↦ rw q (after_clearing g now h)
      ])
      | inr p ↦ rw p (elim (classify_error_cases g now (some e)) [
        | inl q ↦ rw q (inl refl)
        | inr (q, h) ↦ rw q (inr (inl (refl, h)))
      ])
    ]

-- Recording one result leaves the end of the open phase alone, or clears one that has passed, or
-- sets it to 30 s from now; the last only when the window that still runs has counted nine calls
-- before this one, and its failures with this result are at least half of its calls.
pub record_result_opens :
    (g : Circuit) (now : ℕ) (e : Option Error)
    → (record_result g now e).open_until ≢ g.open_until
    → (record_result g now e).open_until ≢ 0
    → ((record_result g now e).open_until ≡ now + 30 * second)
      × (9 ≤ window_total g now)
      × (window_total g now + 1 ≤ (window_failures g now + 1) * 2)
record_result_opens g now e h k = elim (record_result-Moves g now e) [
  | inl p ↦ absurd (h p)
  | inr (inl (p, q)) ↦ absurd (k p)
  | inr (inr r) ↦ r
]
