-- ===== src/Health/Accounts/Recovery.antt =====
-- internal/web/account_health.go: when an account can be used, `Available`, `CooldownUntil` and
-- `EarliestRecovery`.
use m365_copilot2api_dsm.Prelude.{
  ℕ, Bool, true, false, ◌&&◌, not, Option, String, [], ◌∷◌, ltb, if◌then◌else◌, is_zero, Dict,
  lookup, value_or,
}
use m365_copilot2api_dsm.Health.Circuit.{is_open}
use m365_copilot2api_dsm.Health.Accounts.{AccountHealth, World, is_ahead, cleanup}

-- `Available`.
unfoldable pub available : World → String → ℕ → World × Bool
available w id now =
    let h = cleanup w.health id now in
    let (g, open_now) = is_open w.circuit now in
    (
      record { health = h; circuit = g },
      if open_now
          then false
          else if value_or false (lookup id h.auth_fail)
          then false
          else not (is_ahead now (lookup id h.cooldown)),
    )

-- `CooldownUntil`.
unfoldable pub cooldown_until : AccountHealth → String → ℕ → AccountHealth × Option ℕ
cooldown_until h id now = let c = cleanup h id now in (c, lookup id c.cooldown)

-- The loop of `EarliestRecovery`, from its second round on.
unfoldable pub earliest : ℕ → Dict ℕ → ℕ
earliest best [] = best
earliest best ((k, until) ∷ rest) = earliest (if ltb until best then until else best) rest

-- `EarliestRecovery`; the zero time where no account is cooling down.
unfoldable pub earliest_recovery : World → ℕ → World × ℕ
unfolding earliest
earliest_recovery w now = elim w.health.cooldown [
  | [] ↦ (w, 0)
  | (k, until) ∷ rest ↦
      let first = earliest until rest in
      let (g, open_now) = is_open w.circuit now in
      (
        record w { circuit = g },
        if open_now
            then (if not (is_zero g.open_until)
                  && (if is_zero first then true else ltb g.open_until first)
                then g.open_until
                else first)
            else first,
      )
]
