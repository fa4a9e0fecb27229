-- ===== src/Health/Circuit.antt =====
-- internal/web/account_health.go: the global circuit breaker, and `ClassifyError`, which asks it.
pub mod Bounds
use m365_copilot2api_dsm.Prelude.{
  ℕ, ◌+◌, ◌*◌, ◌-◌, Bool, true, false, ◌&&◌, ◌||◌, Option, none, some, ltb, leb, if◌then◌else◌,
  second, is_zero,
}
use m365_copilot2api_dsm.Health.Errors.{
  Error, ErrorCategory, socks5, dns, tcp, tls, ws_handshake, ws_read_timeout, client_canceled,
  global_unavailable, unknown, typed_category, text_category,
}

pub record Circuit : Type 0 where
  pub window_start : ℕ
  pub total : ℕ
  pub failures : ℕ
  pub open_until : ℕ

-- `ResetGlobalCircuit`, and the initial value.
unfoldable pub closed_circuit : Circuit
closed_circuit = record { window_start = 0; total = 0; failures = 0; open_until = 0 }

-- `IsOpen`: the state after the call, and its answer.
unfoldable pub is_open : Circuit → ℕ → Circuit × Bool
is_open g now =
    if is_zero g.open_until
    then (g, false)
    else if ltb now g.open_until
    then (g, true)
    else (record g { open_until = 0 }, false)

-- `ClassifyError`; `none` is a nil error.
unfoldable pub classify_error : Circuit → ℕ → Option Error → Circuit × ErrorCategory
unfolding is_open
classify_error g now none = (g, unknown)
classify_error g now (some e) = elim (typed_category e) [
  | some c ↦ (g, c)
  | none ↦
      let (g', open_now) = is_open g now in
      (g', if open_now then global_unavailable else text_category e.message)
]

-- The categories that count against the circuit.
abbrev pub is_transport : ErrorCategory → Bool
is_transport socks5 = true
is_transport dns = true
is_transport tcp = true
is_transport tls = true
is_transport ws_handshake = true
is_transport ws_read_timeout = true
is_transport _ = false

-- A window that has not begun, or is older than 30 s, begins anew.
abbrev pub roll_window : Circuit → ℕ → Circuit
roll_window g now =
    if is_zero g.window_start || ltb (30 * second) (now - g.window_start)
    then record g { window_start = now; total = 0; failures = 0 }
    else g

abbrev pub trip : Circuit → ℕ → Circuit
trip g now =
    if leb 10 g.total && leb g.total (g.failures * 2)
    then record g { open_until = now + 30 * second }
    else g

-- `Record(nil)`.
unfoldable pub record_success : Circuit → ℕ → Circuit
record_success g now =
    let rolled = roll_window g now in
    let counted = record rolled { total = rolled.total + 1 } in
    let capped =
      if ltb 1000 counted.total
      then record counted { window_start = now; total = 1; failures = 0 }
      else counted in
    trip capped now

-- The counting half of `Record(err)`.
unfoldable pub record_transport_failure : Circuit → ℕ → Circuit
record_transport_failure g now =
    let rolled = roll_window g now in
    let counted = record rolled { total = rolled.total + 1; failures = rolled.failures + 1 } in
    let tripped = trip counted now in
    if ltb 1000 tripped.total
    then record tripped { window_start = now; total = 1; failures = 1 }
    else tripped

-- `Record(err)`.
unfoldable pub record_result : Circuit → ℕ → Option Error → Circuit
record_result g now none = record_success g now
record_result g now (some e) =
    let (g', cat) = classify_error g now (some e) in
    if is_transport cat then record_transport_failure g' now else g'
