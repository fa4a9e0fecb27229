-- ===== src/Health/Cooldown.antt =====
-- internal/web/account_health.go: `CooldownForCategory`.
use m365_copilot2api_dsm.Prelude.{
  ℕ, zero, suc, ◌+◌, ◌-◌, ◌*◌, ◌^◌, ◌≤◌, ◌<◌, ◌≡◌, refl, ltb, if◌then◌else◌, second, minute, hour,
  mul_64, longer, arith, inl, inr, ◌⊎◌, sign_bit, false, Bool-cases, ltb→lt,
}
use m365_copilot2api_dsm.Health.Errors.{
  ErrorCategory, quota_429, overload_503, auth_expired_401, forbidden_403, retryable_422,
  user_banned, user_throttled, insufficient_tokens, designer_disabled, socks5, dns, tcp, tls,
  ws_handshake, ws_read_timeout, upstream_structured, client_canceled, global_unavailable,
  is_positive,
}

-- `attempt` brought into 1 to 7.
abbrev pub clamp_attempt : ℕ → ℕ
clamp_attempt attempt =
    let low = if ltb attempt 1 then 1 else attempt in if ltb 7 low then 7 else low

-- The doubling of 30 s: at most 64 times 30 s, so the product does not wrap.
backoff_at : ℕ → ℕ
backoff_at clamped =
    let d = mul_64 (30 * second) (2 ^ (clamped - 1)) in
    if longer d (30 * minute) then 30 * minute else d

unfoldable pub backoff : ℕ → ℕ
unfolding backoff_at
backoff attempt = backoff_at (clamp_attempt attempt)

-- A positive Retry-After, in seconds. The product may wrap, also into a negative duration.
unfoldable pub honour_retry_after : ℕ → ℕ
honour_retry_after retry_after =
    let d = mul_64 retry_after second in if longer d (30 * minute) then 30 * minute else d

unfoldable pub cooldown_for_category : ErrorCategory → ℕ → ℕ → ℕ
unfolding backoff honour_retry_after
cooldown_for_category quota_429 retry_after attempt =
    if is_positive retry_after then honour_retry_after retry_after else backoff attempt
cooldown_for_category overload_503 _ _ = 15 * second
cooldown_for_category auth_expired_401 _ _ = 2 * minute
cooldown_for_category forbidden_403 _ _ = 24 * hour
cooldown_for_category user_banned _ _ = 365 * 24 * hour
cooldown_for_category user_throttled _ _ = 1 * hour
cooldown_for_category insufficient_tokens _ _ = 24 * hour
cooldown_for_category designer_disabled _ _ = 0
cooldown_for_category retryable_422 _ _ = 5 * second
cooldown_for_category socks5 _ _ = 30 * second
cooldown_for_category dns _ _ = 30 * second
cooldown_for_category tcp _ _ = 15 * second
cooldown_for_category tls _ _ = 30 * second
cooldown_for_category ws_handshake _ _ = 15 * second
cooldown_for_category ws_read_timeout _ _ = 30 * second
cooldown_for_category upstream_structured _ _ = 10 * second
cooldown_for_category client_canceled _ _ = 0
cooldown_for_category global_unavailable _ _ = 15 * second
cooldown_for_category _ _ _ = 15 * second

-- The first six attempts double the cooldown, from 30 s; every later one waits 30 min.
pub backoff_short : (n : ℕ) → n < 6 → backoff (suc n) ≡ 30 * second * 2 ^ n
unfolding backoff
backoff_short zero h = refl
backoff_short (suc zero) h = refl
backoff_short (suc (suc zero)) h = refl
backoff_short (suc (suc (suc zero))) h = refl
backoff_short (suc (suc (suc (suc zero)))) h = refl
backoff_short (suc (suc (suc (suc (suc zero))))) h = refl
backoff_short (suc (suc (suc (suc (suc (suc n)))))) h = absurd (omega arith)

clamp_attempt_high : (n : ℕ) → 7 ≤ n → clamp_attempt n ≡ 7
clamp_attempt_high n h = ground arith

pub backoff_long : (n : ℕ) → 7 ≤ n → backoff n ≡ 30 * minute
backoff_long n h = unfold backoff in rw (clamp_attempt_high n h) (unfold backoff_at in refl)

backoff-suc : (n : ℕ) → backoff n ≤ backoff (suc n)
unfolding backoff
backoff-suc zero = omega arith
backoff-suc (suc zero) = omega arith
backoff-suc (suc (suc zero)) = omega arith
backoff-suc (suc (suc (suc zero))) = omega arith
backoff-suc (suc (suc (suc (suc zero)))) = omega arith
backoff-suc (suc (suc (suc (suc (suc zero))))) = omega arith
backoff-suc (suc (suc (suc (suc (suc (suc zero)))))) = omega arith
backoff-suc (suc (suc (suc (suc (suc (suc (suc n))))))) = omega (
  arith,
  backoff_long (suc (suc (suc (suc (suc (suc (suc n))))))) (omega arith),
  backoff_long (suc (suc (suc (suc (suc (suc (suc (suc n)))))))) (omega arith),
)

pub backoff_mono : (a b : ℕ) → a ≤ b → backoff a ≤ backoff b
backoff_mono a zero h = let e : a ≡ 0 = omega arith in rw e (omega arith)
backoff_mono a (suc b) h =
    let split : (a ≡ suc b) ⊎ (a ≤ b) = omega arith in
    elim split [
      | inl e ↦ rw e (omega arith)
      | inr k ↦ omega (arith, backoff_mono a b k, backoff-suc b)
    ]

backoff_zero : backoff 0 ≡ 30 * second
unfolding backoff
backoff_zero = refl

backoff-ge : (n : ℕ) → 30 * second ≤ backoff n
backoff-ge n = omega (arith, backoff_zero, backoff_mono 0 n (omega arith))

backoff-le : (n : ℕ) → backoff n ≤ 30 * minute
backoff-le n =
    omega (arith, backoff_mono n (7 + n) (omega arith), backoff_long (7 + n) (omega arith))

quota-backoff :
    (n retry_after : ℕ)
    → is_positive retry_after ≡ false
    → cooldown_for_category quota_429 retry_after n ≡ backoff n
unfolding cooldown_for_category
quota-backoff n retry_after h = rw h

backoff_table : (n : ℕ) → backoff (suc n) ≡ (if ltb n 6 then 30 * second * 2 ^ n else 30 * minute)
backoff_table n = elim (Bool-cases (ltb n 6)) [
  | inl p ↦ rw p (backoff_short n (ltb→lt n 6 p))
  | inr p ↦ rw p (backoff_long (suc n) (ground arith))
]

-- What an account waits for a quota error when upstream names no Retry-After: at the (n + 1)-th
-- attempt in a row 30 s times 2 ^ n for n below 6, and 30 min from then on; never less at a later
-- attempt than at an earlier one, and always between 30 s and 30 min.
pub quota_backoff :
    (n a b retry_after : ℕ)
    → is_positive retry_after ≡ false
    → a ≤ b
    → (cooldown_for_category quota_429 retry_after (suc n)
        ≡ (if ltb n 6 then 30 * second * 2 ^ n else 30 * minute))
      × (cooldown_for_category quota_429 retry_after a
          ≤ cooldown_for_category quota_429 retry_after b)
      × (30 * second ≤ cooldown_for_category quota_429 retry_after a)
      × (cooldown_for_category quota_429 retry_after b ≤ 30 * minute)
quota_backoff n a b retry_after none_named h =
    rw
      (
        quota-backoff (suc n) _ none_named,
        quota-backoff a _ none_named,
        quota-backoff b _ none_named,
      )
      (backoff_table n, backoff_mono a b h, backoff-ge a, backoff-le b)

-- A Retry-After of 1 to 9223372036 seconds is kept to, and cut to 30 min.
pub quota_retry_after :
    (retry_after attempt : ℕ)
    → 1 ≤ retry_after
    → retry_after ≤ 9_223_372_036
    → cooldown_for_category quota_429 retry_after attempt
      ≡ (if ltb (30 * minute) (retry_after * second) then 30 * minute else retry_after * second)
unfolding cooldown_for_category
quota_retry_after retry_after attempt h k = ground arith

-- A Retry-After of 9223372037 to 18446744073 seconds wraps to a negative duration.
pub quota_retry_after_wraps :
    (retry_after attempt : ℕ)
    → 9_223_372_037 ≤ retry_after
    → retry_after ≤ 18_446_744_073
    → sign_bit ≤ cooldown_for_category quota_429 retry_after attempt
unfolding cooldown_for_category
quota_retry_after_wraps retry_after attempt h k = ground arith
