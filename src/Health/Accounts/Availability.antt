-- ===== src/Health/Accounts/Availability.antt =====
-- `Available` of internal/web/account_health.go after failures and successes.
use m365_copilot2api_dsm.Prelude.{
  ℕ, ◌*◌, ◌<◌, ◌≡◌, refl, ap, subst, Bool, true, false, ◌&&◌, not, Option, none, some, String, List,
  [], ◌∷◌, ltb, if◌then◌else◌, second, add_duration, lookup, value_or, is_some, ◌≢◌, str_eq_cases,
  arith, Bool-cases, inl, inr, lookup-empty,
}
use m365_copilot2api_dsm.Health.Errors.{Error, is_positive}
use m365_copilot2api_dsm.Health.Circuit.{is_open, classify_error}
use m365_copilot2api_dsm.Health.Accounts.{AccountHealth, World, no_accounts, is_ahead}
use m365_copilot2api_dsm.Health.Accounts.Failures.{mark_failure, mark_success}
use m365_copilot2api_dsm.Health.Accounts.Recovery.{available}
use m365_copilot2api_dsm.Health.Accounts.Account.{
  Account, view, expire, Verdict, wait, wait_cleared, refuse, throttle, nothing, verdict,
  apply_verdict, succeed, Event, looked_at, called, succeeded, image_limit, image_asked,
  image_tokens, image_system, throttling_told, metering_told, failed, react, forget_image_limit,
}
use m365_copilot2api_dsm.Health.Accounts.Others.{view-notify_ne}
use m365_copilot2api_dsm.Health.Accounts.Refines.{
  notify, view-notify, view-cleanup, view-failure, view-success,
}

-- Whatever holds an account back ends with a cooldown.
pub record Inv (a : Account) : Type 0 where
  pub auth_cools : a.auth_fail ≡ true → is_some a.cooldown ≡ true
  pub limited_cools : a.limited ≡ true → is_some a.cooldown ≡ true
  pub image_cools : a.image_limited ≡ true → is_some a.cooldown ≡ true

expire-Inv : (a : Account) (now : ℕ) → Inv a → Inv (expire a now)
unfolding expire
expire-Inv a now v = ground arith

apply_verdict-Inv : (d : Verdict) (a : Account) (now : ℕ) → Inv a → Inv (apply_verdict d a now)
unfolding apply_verdict
apply_verdict-Inv nothing a now v = v
apply_verdict-Inv (throttle n d) a now v = ground arith
apply_verdict-Inv _ a now v = ground arith

succeed-Inv : (a : Account) (now : ℕ) → Inv (succeed a now)
unfolding succeed
succeed-Inv a now = ground arith

forget_image_limit-Inv : (a : Account) (now : ℕ) → Inv a → Inv (forget_image_limit a now)
unfolding forget_image_limit
forget_image_limit-Inv a now v = ground arith

react-Inv : (a : Account) (ev : Event) (now : ℕ) → Inv a → Inv (react a ev now)
unfolding react
react-Inv a looked_at now v = expire-Inv a now v
react-Inv a called now v =
    let w = expire-Inv a now v in
    record {
      auth_cools = w.auth_cools;
      limited_cools = w.limited_cools;
      image_cools = w.image_cools;
    }
react-Inv a succeeded now v = succeed-Inv a now
react-Inv a image_limit now v = ground arith
react-Inv a image_asked now v = expire-Inv _ now (forget_image_limit-Inv a now v)
react-Inv a (throttling_told none) now v = v
react-Inv a (throttling_told (some payload)) now v = ground arith
react-Inv a (metering_told meter_error has_access remaining) now v = ground arith
react-Inv a image_tokens now v = ground arith
react-Inv a image_system now v = ground arith
react-Inv a (failed c e window) now v = apply_verdict-Inv _ a now v

-- A history: what happened, when and to which account.
unfoldable pub run : AccountHealth → List (ℕ × String × Event) → AccountHealth
run h [] = h
run h ((now, id, ev) ∷ rest) = run (notify h id ev now) rest

-- Every account of a history has a name.
abbrev pub Named : List (ℕ × String × Event) → Type 0
Named [] = Unit {0}
Named ((now, id, ev) ∷ rest) = (id ≢ "") × Named rest

notify-Inv :
    (h : AccountHealth) (id j : String) (ev : Event) (now : ℕ)
    → id ≢ ""
    → Inv (view h j)
    → Inv (view (notify h id ev now) j)
notify-Inv h id j ev now named v = elim (str_eq_cases id j) [
  | inl e ↦
      subst (λ k. Inv (view (notify h id ev now) k)) e
        (rw (view-notify h id ev now named) (react-Inv (view h id) ev now (rw e v)))
  | inr (_, ne) ↦ rw (view-notify_ne h id j ev now ne) v
]

run-Inv :
    (h : AccountHealth) (es : List (ℕ × String × Event)) (j : String)
    → Named es
    → Inv (view h j)
    → Inv (view (run h es) j)
unfolding run
run-Inv h [] j named v = v
run-Inv h ((now, id, ev) ∷ rest) j named v =
    run-Inv (notify h id ev now) rest j named.1 (notify-Inv h id j ev now named.0 v)

no_accounts-Inv : (j : String) → Inv (view no_accounts j)
unfolding view no_accounts
no_accounts-Inv j = simp lookup-empty (ground arith)

-- What `Available` reads of an account.
unblocked : Account → ℕ → Bool
unblocked a now = if a.auth_fail then false else not (is_ahead now a.cooldown)

available-unblocked :
    (w : World) (id : String) (now : ℕ)
    → (available w id now).1
      ≡ (if (is_open w.circuit now).1 then false else unblocked (expire (view w.health id) now) now)
unfolding available unblocked view
available-unblocked w id now =
    ap (λ a. if (is_open w.circuit now).1 then false else unblocked a now)
      (view-cleanup w.health id now)

unblocked-expire :
    (a : Account) (now : ℕ) → Inv a → unblocked (expire a now) now ≡ not (is_ahead now a.cooldown)
unfolding unblocked expire
unblocked-expire a now v = ground arith

-- After any history of named accounts, an account can be used exactly when the global circuit is
-- closed and no cooldown of the account lies ahead: nothing else, such as an authentication failure,
-- holds it back for longer.
pub available_iff_cooled :
    (es : List (ℕ × String × Event)) (w : World) (id : String) (now : ℕ)
    → Named es
    → w.health ≡ run no_accounts es
    → (available w id now).1 ≡ (
        if (is_open w.circuit now).1
        then false
        else not (is_ahead now (lookup id w.health.cooldown)))
unfolding view
available_iff_cooled es w id now named reached =
    let v : Inv (view w.health id) =
      rw reached (run-Inv no_accounts es id named (no_accounts-Inv id)) in
    rw (available-unblocked w id now, unblocked-expire (view w.health id) now v)

-- The wait that a verdict imposes.
abbrev pub wait_of : Verdict → Option ℕ
wait_of (wait d) = some d
wait_of (wait_cleared d) = some d
wait_of (refuse unlimits reason d) = some d
wait_of (throttle attempts d) = some d
wait_of nothing = none

-- The category that `MarkFailure` gives to an error, and its verdict on the account.
abbrev pub failure_verdict : World → String → Option Error → ℕ → ℕ → Verdict
failure_verdict w id e window now =
    verdict (classify_error w.circuit now e).1 e (view w.health id).quota_attempts
      (if is_positive window then window else 60 * second) now

blocked_ahead :
    (a : Account) (later until : ℕ)
    → a.cooldown ≡ some until
    → later < until
    → unblocked (expire a later) later ≡ false
unfolding unblocked expire
blocked_ahead a later until e h = ground arith

verdict_cools :
    (d : Verdict) (a : Account) (now t : ℕ)
    → wait_of d ≡ some t
    → (apply_verdict d a now).cooldown ≡ some (add_duration now t)
unfolding apply_verdict
verdict_cools nothing a now t e = cc
verdict_cools (throttle n d) a now t e = ground arith
verdict_cools _ a now t e = ground arith

-- A failure blocks its account for the wait that its category's verdict names, whatever else is
-- known of the account and the circuit: until then it is not available.
pub mark_failure_blocks :
    (w : World) (id : String) (e : Option Error) (window now later t : ℕ)
    → wait_of (failure_verdict w id e window now) ≡ some t
    → later < add_duration now t
    → (available (mark_failure w id e window now) id later).1 ≡ false
unfolding mark_failure
mark_failure_blocks w id e window now later t p h =
    elim (Bool-cases (is_open after.circuit later).1) [
      | inl q ↦ rw (available-unblocked after id later, q)
      | inr q ↦
          rw
            (
              available-unblocked after id later,
              q,
              view-failure (classify_error w.circuit now e).1 w.health id e positive now,
            )
            (blocked_ahead _ later _ (verdict_cools _ (view w.health id) now t p) h)
    ]
  where
    positive : ℕ
    positive = if is_positive window then window else 60 * second

    after : World
    after = mark_failure w id e window now

succeed-unblocked :
    (a : Account) (now later : ℕ)
    → (a.image_limited && ltb now (value_or 0 a.image_limit_until)) ≡ false
    → unblocked (expire (succeed a now) later) later ≡ true
unfolding unblocked expire succeed
succeed-unblocked a now later h = ground arith

if_open : (b : Bool) → (if b then false else true) ≡ not b
if_open true = refl
if_open false = refl

-- A success makes its account available at once, also after an authentication failure, unless the
-- circuit is open or an image limit that lies ahead keeps its cooldown.
pub mark_success_frees :
    (w : World) (id : String) (now later : ℕ)
    → (value_or false (lookup id w.health.image_limited)
        && ltb now (value_or 0 (lookup id w.health.image_limit_until)))
      ≡ false
    → (available (mark_success w id now) id later).1
      ≡ not (is_open (mark_success w id now).circuit later).1
unfolding mark_success view
mark_success_frees w id now later q =
    rw
      (
        available-unblocked (mark_success w id now) id later,
        view-success w.health id now,
        succeed-unblocked (view w.health id) now later q,
      )
      (if_open _)
