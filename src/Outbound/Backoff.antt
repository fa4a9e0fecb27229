-- ===== src/Outbound/Backoff.antt =====
-- The cooldowns that `Pool.mark` of internal/outbound/pool.go sets.
use m365_copilot2api_dsm.Prelude.{
  ℕ, zero, suc, ◌+◌, ◌*◌, ◌^◌, ◌≤◌, ◌<◌, ◌≡◌, refl, ap, some, String, second, minute, arith, ltb,
  if◌then◌else◌, inl, inr, ◌⊎◌, Bool-cases,
}
use native.Mathlib.Numerals.{add-one}
use m365_copilot2api_dsm.Outbound.{
  Entry, backoff, mark_entry, is_proxy_error, proxy_base_duration, shift_of,
}

base_cases :
    (m : String) → (proxy_base_duration m ≡ 15 * second) ⊎ (proxy_base_duration m ≡ 30 * second)
unfolding proxy_base_duration
base_cases m = ground arith

-- Twice the base for each failure before, and at most 5 min.
abbrev pub doubled : ℕ → ℕ → ℕ
doubled base n = if ltb (5 * minute) (base * 2 ^ n) then 5 * minute else base * 2 ^ n

shift_high : (n : ℕ) → 6 ≤ n → shift_of (suc n) ≡ 6
shift_high n h = ground arith

backoff_high : (base n : ℕ) → 6 ≤ n → backoff base (suc n) ≡ backoff base 7
unfolding backoff
backoff_high base n h = rw (shift_high n h)

backoff_15 : (n : ℕ) → n < 6 → backoff (15 * second) (suc n) ≡ doubled (15 * second) n
unfolding backoff
backoff_15 zero h = refl
backoff_15 (suc zero) h = refl
backoff_15 (suc (suc zero)) h = refl
backoff_15 (suc (suc (suc zero))) h = refl
backoff_15 (suc (suc (suc (suc zero)))) h = refl
backoff_15 (suc (suc (suc (suc (suc zero))))) h = refl
backoff_15 (suc (suc (suc (suc (suc (suc n)))))) h = absurd (omega arith)

backoff_30 : (n : ℕ) → n < 6 → backoff (30 * second) (suc n) ≡ doubled (30 * second) n
unfolding backoff
backoff_30 zero h = refl
backoff_30 (suc zero) h = refl
backoff_30 (suc (suc zero)) h = refl
backoff_30 (suc (suc (suc zero))) h = refl
backoff_30 (suc (suc (suc (suc zero)))) h = refl
backoff_30 (suc (suc (suc (suc (suc zero))))) h = refl
backoff_30 (suc (suc (suc (suc (suc (suc n)))))) h = absurd (omega arith)

backoff_late :
    (base n : ℕ)
    → (base ≡ 15 * second) ⊎ (base ≡ 30 * second)
    → 6 ≤ n
    → backoff base (suc n) ≡ 5 * minute
unfolding backoff
backoff_late base n (inl e) h = rw (backoff_high base n h) (rw e)
backoff_late base n (inr e) h = rw (backoff_high base n h) (rw e)

backoff_early :
    (base n : ℕ)
    → (base ≡ 15 * second) ⊎ (base ≡ 30 * second)
    → n < 6
    → backoff base (suc n) ≡ doubled base n
backoff_early base n (inl e) h = rw e (backoff_15 n h)
backoff_early base n (inr e) h = rw e (backoff_30 n h)

backoff_lem :
    (m : String) (n : ℕ)
    → backoff (proxy_base_duration m) (n + 1)
      ≡ (if ltb n 6 then doubled (proxy_base_duration m) n else 5 * minute)
backoff_lem m n = elim (Bool-cases (ltb n 6)) [
  | inl p ↦ rw (add-one, p) (backoff_early _ n (base_cases m) (ground arith))
  | inr p ↦ rw (add-one, p) (backoff_late _ n (base_cases m) (ground arith))
]

-- A proxy failure is counted and cools its entry down for 15 s or 30 s, by the error's text, doubled
-- for each proxy failure in a row before it and cut to 5 min, which it is from the seventh on. A
-- failure that is no proxy failure changes neither the count nor the cooldown.
pub mark_entry_cools :
    (e : Entry) (m : String) (now : ℕ)
    → ((proxy_base_duration m ≡ 15 * second) ⊎ (proxy_base_duration m ≡ 30 * second))
      × ((mark_entry e (some m) now).cooldown ≡ (
          if is_proxy_error m
          then now
            + (if ltb e.failures 6 then doubled (proxy_base_duration m) e.failures else 5 * minute)
          else e.cooldown))
      × ((mark_entry e (some m) now).failures
          ≡ (if is_proxy_error m then e.failures + 1 else e.failures))
unfolding mark_entry
mark_entry_cools e m now = elim (Bool-cases (is_proxy_error m)) [
  | inl p ↦ rw p (base_cases m, ap (◌+◌ now) (backoff_lem m e.failures), refl)
  | inr p ↦ rw p (base_cases m, refl, refl)
]
