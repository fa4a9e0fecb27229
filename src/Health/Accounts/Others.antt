-- ===== src/Health/Accounts/Others.antt =====
-- The methods of `accountHealth` in internal/web/account_health.go leave the other accounts alone.
use m365_copilot2api_dsm.Prelude.{
  ℕ, ◌≡◌, refl, some, none, Bool, false, ◌&&◌, Option, String, ◌==◌, str_eq, Dict, lookup, insert,
  value_or, ◌∙◌, ◌≢◌, str_ne, Bool-cases, inl, inr,
}
use m365_copilot2api_dsm.Health.Errors.{
  Error, ErrorCategory, quota_429, forbidden_403, client_canceled, retry_after_seconds,
}
use m365_copilot2api_dsm.Health.Accounts.{
  AccountHealth, end_cooldown, cleanup, mark_call, mark_image_limited,
  mark_image_gen_tokens_throttled, mark_image_gen_system_throttled, is_over, is_past,
  is_image_limited, expire_image_limit, update_throttling, update_metering,
}
use m365_copilot2api_dsm.Health.Accounts.Failures.{
  category_failure, quota_failure, health_success, designer_only, is_metering,
}
use m365_copilot2api_dsm.Health.Accounts.Account.{
  view, Event, looked_at, called, succeeded, image_limit, image_asked, image_tokens, image_system,
  throttling_told, metering_told, failed,
}
use m365_copilot2api_dsm.Health.Accounts.Refines.{notify, view_laws}

view-cleanup_ne :
    (h : AccountHealth) (id j : String) (now : ℕ) → id ≢ j → view (cleanup h id now) j ≡ view h j
unfolding view cleanup end_cooldown
view-cleanup_ne h id j now ne = elim (Bool-cases (is_over now (lookup id h.cooldown))) [
  | inl q ↦ rw q (simp (view_laws, str_ne id j ne))
  | inr q ↦ rw q
]

view-counted_ne :
    (c : AccountHealth) (id j : String) (n : ℕ)
    → id ≢ j
    → view (record c { calls = insert id n c.calls }) j ≡ view c j
unfolding view
view-counted_ne c id j n ne = simp (view_laws, str_ne id j ne)

view-success_ne :
    (h : AccountHealth) (id j : String) (now : ℕ)
    → id ≢ j
    → view (health_success h id now) j ≡ view h j
unfolding view
view-success_ne h id j now ne = simp (view_laws, str_ne id j ne)

view-quota_ne :
    (h : AccountHealth) (id j : String) (e : Option Error) (now : ℕ)
    → id ≢ j
    → view (quota_failure h id e now) j ≡ view h j
unfolding view quota_failure
view-quota_ne h id j e now ne = elim (Bool-cases (is_metering e && retry_after_seconds e == 0)) [
  | inl p ↦ rw p (simp (view_laws, str_ne id j ne))
  | inr p ↦ rw p (simp (view_laws, str_ne id j ne))
]

view-failure_ne :
    (c : ErrorCategory) (h : AccountHealth) (id j : String) (e : Option Error) (window now : ℕ)
    → id ≢ j
    → view (category_failure c h id e window now) j ≡ view h j
unfolding view category_failure
view-failure_ne client_canceled h id j e window now ne = refl
view-failure_ne forbidden_403 h id j e window now ne = elim (Bool-cases (designer_only e)) [
  | inl p ↦ rw p
  | inr p ↦ rw p (simp (view_laws, str_ne id j ne))
]
view-failure_ne quota_429 h id j e window now ne = view-quota_ne h id j e now ne
view-failure_ne _ h id j e window now ne = simp (view_laws, str_ne id j ne)

view-image_limit_ne :
    (h : AccountHealth) (id j : String) (now : ℕ)
    → id ≢ j
    → view (mark_image_limited h id now) j ≡ view h j
unfolding view mark_image_limited
view-image_limit_ne h id j now ne = elim (Bool-cases (str_eq id "")) [
  | inl p ↦ rw p
  | inr p ↦ rw p (simp (view_laws, str_ne id j ne))
]

view-image_tokens_ne :
    (h : AccountHealth) (id j : String) (now : ℕ)
    → id ≢ j
    → view (mark_image_gen_tokens_throttled h id now) j ≡ view h j
unfolding view mark_image_gen_tokens_throttled
view-image_tokens_ne h id j now ne = elim (Bool-cases (str_eq id "")) [
  | inl p ↦ rw p
  | inr p ↦ rw p (simp (view_laws, str_ne id j ne))
]

view-image_system_ne :
    (h : AccountHealth) (id j : String) (now : ℕ)
    → id ≢ j
    → view (mark_image_gen_system_throttled h id now) j ≡ view h j
unfolding view mark_image_gen_system_throttled
view-image_system_ne h id j now ne = elim (Bool-cases (str_eq id "")) [
  | inl p ↦ rw p
  | inr p ↦ rw p (simp (view_laws, str_ne id j ne))
]

view-called_ne :
    (h : AccountHealth) (id j : String) (now : ℕ) → id ≢ j → view (mark_call h id now) j ≡ view h j
unfolding mark_call
view-called_ne h id j now ne = elim (Bool-cases (str_eq id "")) [
  | inl p ↦ rw p
  | inr p ↦ rw p (view-counted_ne (cleanup h id now) id j _ ne ∙ view-cleanup_ne h id j now ne)
]

view-expire_image_limit_ne :
    (h : AccountHealth) (id j : String) (now : ℕ)
    → id ≢ j
    → view (expire_image_limit h id now) j ≡ view h j
unfolding view
view-expire_image_limit_ne h id j now ne =
    elim (Bool-cases
      (value_or false (lookup id h.image_limited) && is_past now (lookup id h.image_limit_until))) [
        | inl p ↦ rw p (simp (view_laws, str_ne id j ne))
        | inr p ↦ rw p
      ]

view-image_asked_ne :
    (h : AccountHealth) (id j : String) (now : ℕ)
    → id ≢ j
    → view (is_image_limited h id now).0 j ≡ view h j
unfolding is_image_limited
view-image_asked_ne h id j now ne =
    view-cleanup_ne (expire_image_limit h id now) id j now ne
    ∙ view-expire_image_limit_ne h id j now ne

view-throttling_ne :
    (h : AccountHealth) (id j : String) (payload : Option String)
    → id ≢ j
    → view (update_throttling h id payload) j ≡ view h j
unfolding view update_throttling
view-throttling_ne h id j none ne = refl
view-throttling_ne h id j (some payload) ne = elim (Bool-cases (str_eq id "")) [
  | inl p ↦ rw p
  | inr p ↦ rw p (simp (view_laws, str_ne id j ne))
]

view-metering_ne :
    (h : AccountHealth) (id j meter_error : String) (has_access : Bool) (remaining : Dict ℕ)
    → id ≢ j
    → view (update_metering h id meter_error has_access remaining) j ≡ view h j
unfolding view update_metering
view-metering_ne h id j meter_error has_access remaining ne = elim (Bool-cases (str_eq id "")) [
  | inl p ↦ rw p
  | inr p ↦ rw p (simp (view_laws, str_ne id j ne))
]

-- No method that is called for an account changes what the maps hold for another one.
pub view-notify_ne :
    (h : AccountHealth) (id j : String) (ev : Event) (now : ℕ)
    → id ≢ j
    → view (notify h id ev now) j ≡ view h j
unfolding notify
view-notify_ne h id j looked_at now ne = view-cleanup_ne h id j now ne
view-notify_ne h id j called now ne = view-called_ne h id j now ne
view-notify_ne h id j succeeded now ne = view-success_ne h id j now ne
view-notify_ne h id j image_limit now ne = view-image_limit_ne h id j now ne
view-notify_ne h id j image_asked now ne = view-image_asked_ne h id j now ne
view-notify_ne h id j (throttling_told payload) now ne = view-throttling_ne h id j payload ne
view-notify_ne h id j (metering_told meter_error has_access remaining) now ne =
    view-metering_ne h id j meter_error has_access remaining ne
view-notify_ne h id j image_tokens now ne = view-image_tokens_ne h id j now ne
view-notify_ne h id j image_system now ne = view-image_system_ne h id j now ne
view-notify_ne h id j (failed c e window) now ne = view-failure_ne c h id j e window now ne
