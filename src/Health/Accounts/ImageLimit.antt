-- ===== src/Health/Accounts/ImageLimit.antt =====
-- `MarkImageLimited` and `ImageLimited` of internal/web/account_health.go, with a failure between them.
use m365_copilot2api_dsm.Prelude.{
  ℕ, ◌+◌, ◌*◌, ◌≤◌, ◌≡◌, ap, ◌∙◌, true, false, Option, some, String, second, hour, lookup, ◌≢◌,
  arith, lookup-insert, eq_refl, str_ne,
}
use m365_copilot2api_dsm.Health.Errors.{Error, tcp}
use m365_copilot2api_dsm.Health.Cooldown.{cooldown_for_category}
use m365_copilot2api_dsm.Health.Accounts.{
  AccountHealth, is_over, is_image_limited, expire_image_limit, mark_image_limited,
}
use m365_copilot2api_dsm.Health.Accounts.Failures.{category_failure}
use m365_copilot2api_dsm.Health.Accounts.Account.{Account, view, expire}
use m365_copilot2api_dsm.Health.Accounts.Refines.{view-cleanup}

expire_image_limit-cooldown :
    (h : AccountHealth) (id : String) (now : ℕ)
    → (expire_image_limit h id now).cooldown ≡ h.cooldown
expire_image_limit-cooldown h id now = ground arith

expire_over :
    (a : Account) (now : ℕ) → is_over now a.cooldown ≡ true → (expire a now).image_limited ≡ false
unfolding expire
expire_over a now h = rw h

is_image_limited-over :
    (h : AccountHealth) (id : String) (now : ℕ)
    → is_over now (lookup id h.cooldown) ≡ true
    → (is_image_limited h id now).1 ≡ false
unfolding is_image_limited view
is_image_limited-over h id now over =
    ap (λ a. a.image_limited) (view-cleanup (expire_image_limit h id now) id now)
    ∙ expire_over _ now (rw (expire_image_limit-cooldown h id now) over)

-- The accounts after an image limit and a TCP failure.
abbrev pub limited_then_failed : AccountHealth → String → Option Error → ℕ → ℕ → ℕ → AccountHealth
limited_then_failed h id e window marked now =
    category_failure tcp (mark_image_limited h id marked) id e window now

tcp_cools :
    (h : AccountHealth) (id : String) (e : Option Error) (window now : ℕ)
    → lookup id (category_failure tcp h id e window now).cooldown ≡ some (now + 15 * second)
unfolding category_failure cooldown_for_category
tcp_cools h id e window now = simp (lookup-insert, eq_refl)

limit_stored :
    (h : AccountHealth) (id : String) (e : Option Error) (window marked now : ℕ)
    → id ≢ ""
    → lookup id (limited_then_failed h id e window marked now).image_limit_until
      ≡ some (marked + 24 * hour)
unfolding category_failure mark_image_limited
limit_stored h id e window marked now named =
    rw (str_ne id "" named) (simp (lookup-insert, eq_refl))

-- The image limit of a day is lost early: a TCP failure after it replaces its cooldown by one of
-- 15 s, and from the end of that one on the account is not reported as image limited, although the
-- limit that is stored still ends a day after it was marked. The account has a name.
pub image_limit_lost :
    (h : AccountHealth) (id : String) (e : Option Error) (window marked now later : ℕ)
    → id ≢ ""
    → now + 15 * second ≤ later
    → (lookup id (limited_then_failed h id e window marked now).image_limit_until
        ≡ some (marked + 24 * hour))
      × ((is_image_limited (limited_then_failed h id e window marked now) id later).1 ≡ false)
image_limit_lost h id e window marked now later named over = (
  limit_stored h id e window marked now named,
  is_image_limited-over _ id later
      (rw (tcp_cools (mark_image_limited h id marked) id e window now) (ground arith)),
)
