-- ===== src/Health/Accounts/Refines.antt =====
-- The methods of `accountHealth` in internal/web/account_health.go, by what the maps hold for an account.
use m365_copilot2api_dsm.Prelude.{
  ℕ, ◌+◌, ◌≡◌, refl, some, none, Bool, true, false, ◌&&◌, Option, String, ◌==◌, str_eq,
  if◌then◌else◌, Dict, lookup, insert, value_or, lookup-insert, lookup-delete, ap, ◌∙◌, eq_refl,
  ◌≢◌, str_ne, Bool-cases, inl, inr,
}
use m365_copilot2api_dsm.Health.Errors.{
  Error, ErrorCategory, quota_429, forbidden_403, client_canceled, retry_after_seconds,
}
use m365_copilot2api_dsm.Health.Cooldown.{cooldown_for_category}
use m365_copilot2api_dsm.Health.Accounts.{
  AccountHealth, end_cooldown, cleanup, mark_call, mark_image_limited,
  mark_image_gen_tokens_throttled, mark_image_gen_system_throttled, is_over, is_past,
  is_image_limited, expire_image_limit, update_throttling, update_metering,
}
use m365_copilot2api_dsm.Health.Accounts.Failures.{
  category_failure, quota_failure, health_success, designer_only, is_metering,
}
use m365_copilot2api_dsm.Health.Accounts.Account.{
  Account, view, expire, verdict, apply_verdict, succeed, Event, looked_at, called, succeeded,
  image_limit, image_asked, image_tokens, image_system, throttling_told, metering_told, failed,
  react, forget_image_limit,
}

-- The method that is called when something happens to an account.
unfoldable pub notify : AccountHealth → String → Event → ℕ → AccountHealth
notify h id looked_at now = cleanup h id now
notify h id called now = mark_call h id now
notify h id succeeded now = health_success h id now
notify h id image_limit now = mark_image_limited h id now
notify h id image_asked now = (is_image_limited h id now).0
notify h id (throttling_told payload) now = update_throttling h id payload
notify h id (metering_told meter_error has_access remaining) now =
    update_metering h id meter_error has_access remaining
notify h id image_tokens now = mark_image_gen_tokens_throttled h id now
notify h id image_system now = mark_image_gen_system_throttled h id now
notify h id (failed c e window) now = category_failure c h id e window now

pub lookup-if {ℓ} :
    {V : Type ℓ} (b : Bool) (id : String) (m n : Dict V)
    → lookup id (if b then m else n) ≡ (if b then lookup id m else lookup id n)
lookup-if true id m n = refl
lookup-if false id m n = refl

pub value_or-if {ℓ} :
    {V : Type ℓ} (b : Bool) (d : V) (m n : Option V)
    → value_or d (if b then m else n) ≡ (if b then value_or d m else value_or d n)
value_or-if true d m n = refl
value_or-if false d m n = refl

pub if_same {ℓ} : {A : Type ℓ} (b : Bool) (x : A) → (if b then x else x) ≡ x
if_same true x = refl
if_same false x = refl

pub ruleset view_laws = (lookup-if, value_or-if, if_same, lookup-insert, lookup-delete, eq_refl)

pub view-cleanup :
    (h : AccountHealth) (id : String) (now : ℕ)
    → view (cleanup h id now) id ≡ expire (view h id) now
unfolding view cleanup end_cooldown expire
view-cleanup h id now = elim (Bool-cases (is_over now (lookup id h.cooldown))) [
  | inl q ↦ rw q (simp view_laws)
  | inr q ↦ rw q
]

counted : Account → Account
counted a = record a { calls = a.calls + 1 }

view-counted :
    (c : AccountHealth) (id : String)
    → view (record c { calls = insert id (value_or 0 (lookup id c.calls) + 1) c.calls }) id
      ≡ counted (view c id)
unfolding view counted
view-counted c id = simp view_laws

pub view-success :
    (h : AccountHealth) (id : String) (now : ℕ)
    → view (health_success h id now) id ≡ succeed (view h id) now
unfolding view succeed
view-success h id now = simp view_laws

view-quota :
    (h : AccountHealth) (id : String) (e : Option Error) (window now : ℕ)
    → view (quota_failure h id e now) id
      ≡ apply_verdict (verdict quota_429 e (view h id).quota_attempts window now) (view h id) now
unfolding view verdict apply_verdict quota_failure
view-quota h id e window now = elim (Bool-cases (is_metering e && retry_after_seconds e == 0)) [
  | inl p ↦ rw p (simp view_laws)
  | inr p ↦ rw p (simp view_laws)
]

pub view-failure :
    (c : ErrorCategory) (h : AccountHealth) (id : String) (e : Option Error) (window now : ℕ)
    → view (category_failure c h id e window now) id
      ≡ apply_verdict (verdict c e (view h id).quota_attempts window now) (view h id) now
unfolding view category_failure verdict apply_verdict cooldown_for_category
view-failure client_canceled h id e window now = refl
view-failure forbidden_403 h id e window now = elim (Bool-cases (designer_only e)) [
  | inl p ↦ rw p
  | inr p ↦ rw p (simp view_laws)
]
view-failure quota_429 h id e window now = view-quota h id e window now
view-failure _ h id e window now = simp view_laws

view-called :
    (h : AccountHealth) (id : String) (now : ℕ)
    → id ≢ ""
    → view (mark_call h id now) id ≡ counted (expire (view h id) now)
unfolding mark_call
view-called h id now ne =
    rw (str_ne id "" ne) (view-counted (cleanup h id now) id ∙ ap counted (view-cleanup h id now))

view-image_limit :
    (h : AccountHealth) (id : String) (now : ℕ)
    → id ≢ ""
    → view (mark_image_limited h id now) id ≡ react (view h id) image_limit now
unfolding view mark_image_limited react
view-image_limit h id now ne = rw (str_ne id "" ne) (simp view_laws)

view-image_tokens :
    (h : AccountHealth) (id : String) (now : ℕ)
    → id ≢ ""
    → view (mark_image_gen_tokens_throttled h id now) id ≡ react (view h id) image_tokens now
unfolding view mark_image_gen_tokens_throttled react
view-image_tokens h id now ne = rw (str_ne id "" ne) (simp view_laws)

view-image_system :
    (h : AccountHealth) (id : String) (now : ℕ)
    → id ≢ ""
    → view (mark_image_gen_system_throttled h id now) id ≡ react (view h id) image_system now
unfolding view mark_image_gen_system_throttled react
view-image_system h id now ne = rw (str_ne id "" ne) (simp view_laws)

view-expire_image_limit :
    (h : AccountHealth) (id : String) (now : ℕ)
    → view (expire_image_limit h id now) id ≡ forget_image_limit (view h id) now
unfolding view forget_image_limit
view-expire_image_limit h id now =
    elim (Bool-cases
      (value_or false (lookup id h.image_limited) && is_past now (lookup id h.image_limit_until))) [
        | inl p ↦ rw p (simp view_laws)
        | inr p ↦ rw p
      ]

view-image_asked :
    (h : AccountHealth) (id : String) (now : ℕ)
    → view (is_image_limited h id now).0 id ≡ expire (forget_image_limit (view h id) now) now
unfolding is_image_limited
view-image_asked h id now =
    view-cleanup (expire_image_limit h id now) id now
    ∙ ap (λ a. expire a now) (view-expire_image_limit h id now)

view-throttling :
    (h : AccountHealth) (id : String) (payload : Option String) (now : ℕ)
    → id ≢ ""
    → view (update_throttling h id payload) id ≡ react (view h id) (throttling_told payload) now
unfolding view update_throttling react
view-throttling h id none now ne = refl
view-throttling h id (some payload) now ne = rw (str_ne id "" ne) (simp view_laws)

view-metering :
    (h : AccountHealth) (id meter_error : String) (has_access : Bool) (remaining : Dict ℕ) (now : ℕ)
    → id ≢ ""
    → view (update_metering h id meter_error has_access remaining) id
      ≡ react (view h id) (metering_told meter_error has_access remaining) now
unfolding view update_metering react
view-metering h id meter_error has_access remaining now ne = rw (str_ne id "" ne) (simp view_laws)

-- Each of these methods changes what the maps hold for the account that it is called for as the machine
-- of one account says: `MarkCall`, `MarkSuccess`, `MarkImageLimited`, `ImageLimited`,
-- `MarkImageGenTokensThrottled`, `MarkImageGenSystemThrottled`, `UpdateThrottling`, `UpdateMetering`,
-- `MarkFailure` with an error of any category, and the clean-up of the methods that only answer. The
-- account has a name.
pub view-notify :
    (h : AccountHealth) (id : String) (ev : Event) (now : ℕ)
    → id ≢ ""
    → view (notify h id ev now) id ≡ react (view h id) ev now
unfolding notify react counted
view-notify h id looked_at now ne = view-cleanup h id now
view-notify h id called now ne = view-called h id now ne
view-notify h id succeeded now ne = view-success h id now
view-notify h id image_limit now ne = view-image_limit h id now ne
view-notify h id image_asked now ne = view-image_asked h id now
view-notify h id (throttling_told payload) now ne = view-throttling h id payload now ne
view-notify h id (metering_told meter_error has_access remaining) now ne =
    view-metering h id meter_error has_access remaining now ne
view-notify h id image_tokens now ne = view-image_tokens h id now ne
view-notify h id image_system now ne = view-image_system h id now ne
view-notify h id (failed c e window) now ne = view-failure c h id e window now
