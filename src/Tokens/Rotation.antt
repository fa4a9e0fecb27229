-- ===== src/Tokens/Rotation.antt =====
-- The turns of the accounts in internal/auth/cache.go, and where their tokens are renewed.
use native.Mathlib.Nat.{mod-add-mod, add-mod-mod}
use m365_copilot2api_dsm.Prelude.{
  ℕ, zero, suc, ◌+◌, ◌-◌, ◌%◌, ◌<◌, ◌≡◌, refl, sym, ap, subst, ◌∙◌, length, get_elem?, arith,
}
use m365_copilot2api_dsm.Tokens.Store.{TokenStore, next_account}

-- The store after a number of calls of `Next`.
unfoldable pub after_calls : ℕ → TokenStore → TokenStore
after_calls zero s = s
after_calls (suc k) s = after_calls k (next_account s).0

next-accounts : (s : TokenStore) → (next_account s).0.accounts ≡ s.accounts
unfolding next_account
next-accounts s = ground arith

next-idx :
    (s : TokenStore)
    → 0 < length s.accounts
    → (next_account s).0.next_idx ≡ (s.next_idx + 1) % length s.accounts
unfolding next_account
next-idx s h = ground arith

next-picks :
    (s : TokenStore)
    → 0 < length s.accounts
    → (next_account s).1 ≡ get_elem? s.accounts (s.next_idx % length s.accounts)
unfolding next_account
next-picks s h = ground arith

after_calls-place :
    (k : ℕ) (s : TokenStore)
    → 0 < length s.accounts
    → ((after_calls k s).accounts ≡ s.accounts)
      × ((after_calls k s).next_idx % length s.accounts ≡ (s.next_idx + k) % length s.accounts)
unfolding after_calls
after_calls-place zero s h = (refl, ap (λ i. i % length s.accounts) (omega arith))
after_calls-place (suc k) s h =
    let t = (next_account s).0 in
    let n = length s.accounts in
    let (same, at) = after_calls-place k t (subst (λ l. 0 < length l) (sym (next-accounts s)) h) in
    (
      same ∙ next-accounts s,
      subst (λ l. (after_calls k t).next_idx % length l ≡ (t.next_idx + k) % length l)
            (next-accounts s) at
          ∙ ap (λ i. (i + k) % n) (next-idx s h)
          ∙ mod-add-mod (s.next_idx + 1) n k
          ∙ ap (λ i. i % n) (omega arith),
    )

place_reached : (i j n : ℕ) → j < n → (i + (j + n - i % n) % n) % n ≡ j
place_reached i j n h =
    let below : i % n < n = omega arith in
    add-mod-mod i (j + n - i % n) n
    ∙ sym (mod-add-mod i n (j + n - i % n))
    ∙ ap (λ x. x % n) (omega (arith, below))
    ∙ wrap
  where
    wrap : (j + n) % n ≡ j
    wrap = grind arith

-- Whichever account is next, each account gets its turn within as many calls of `Next` as there are
-- accounts.
pub next-served :
    (s : TokenStore) (j : ℕ)
    → j < length s.accounts
    → (k : ℕ) × (k < length s.accounts)
      × ((next_account (after_calls k s)).1 ≡ get_elem? s.accounts j)
next-served s j h =
    let n = length s.accounts in
    let k = (j + n - s.next_idx % n) % n in
    let some_account : 0 < n = omega arith in
    let (same, at) = after_calls-place k s some_account in
    (
      k,
      omega (arith, some_account),
      next-picks (after_calls k s) (subst (λ l. 0 < length l) (sym same) some_account)
          ∙ subst
              (λ l. get_elem? l ((after_calls k s).next_idx % length l) ≡ get_elem? s.accounts j)
              (sym same) (ap (get_elem? s.accounts) (at ∙ place_reached s.next_idx j n h)),
    )
