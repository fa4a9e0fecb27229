-- ===== src/Tokens/Clients.antt =====
-- The client that internal/auth/cache.go stores for an account, and where its token is renewed.
use m365_copilot2api_dsm.Prelude.{
  ℕ, ◌≡◌, ◌≢◌, refl, sym, subst, ◌∙◌, Bool, true, false, Option, none, some, String, List, [], ◌∷◌,
  ◌++◌, arith, inl, inr, Option-cases, if_both, str_ne,
}
use m365_copilot2api_dsm.Tokens.Store.{
  AccountToken, Saving, TokenStore, TokenSet, save, write_file, encrypt_accounts, find_account,
  change_account, account_of, keep_stored, is_same_account, upsert, get_account, answers_to,
  open_store,
}
use m365_copilot2api_dsm.Tokens.Sealing.{Cipher}
use m365_copilot2api_dsm.Tokens.Refresh.{refreshes, ensure_valid, device, endpoint_for}

-- All accounts have one client id.
abbrev pub OfClient : String → List AccountToken → Type 0
OfClient client [] = Unit {0}
OfClient client (a ∷ accounts) = (a.client_id ≡ client) × OfClient client accounts

added-OfClient :
    (client : String) (accounts : List AccountToken) (a : AccountToken)
    → a.client_id ≡ client
    → OfClient client accounts
    → OfClient client (accounts ++ (a ∷ []))
added-OfClient client [] a e h = (e, tt)
added-OfClient client (b ∷ accounts) a e h = (h.0, added-OfClient client accounts a e h.1)

changed-OfClient :
    (client : String) (test : AccountToken → Bool) (f : AccountToken → AccountToken)
    (accounts : List AccountToken)
    → ((a : AccountToken) → (f a).client_id ≡ client)
    → OfClient client accounts
    → OfClient client (change_account test f accounts)
unfolding change_account
changed-OfClient client test f [] same h = tt
changed-OfClient client test f (a ∷ accounts) same h =
    if_both (OfClient client) (test a) (same a, h.1)
      (h.0, changed-OfClient client test f accounts same h.1)

found-OfClient :
    (client : String) (test : AccountToken → Bool) (accounts : List AccountToken) (a : AccountToken)
    → OfClient client accounts
    → find_account test accounts ≡ some a
    → a.client_id ≡ client
unfolding find_account
found-OfClient client test [] a h found = cc
found-OfClient client test (b ∷ accounts) a h found =
    ground (arith, found, h.0, found-OfClient client test accounts a h.1)

written-accounts :
    (b : Bool) (s : TokenStore) (o : Option (List AccountToken))
    → (write_file b s o).0.accounts ≡ s.accounts
written-accounts b s none = refl
written-accounts true s (some accounts) = refl
written-accounts false s (some accounts) = refl

save-accounts : (c : Cipher) (d : Saving) (s : TokenStore) → (save c d s).0.accounts ≡ s.accounts
unfolding save
save-accounts c d s = written-accounts d.written s (encrypt_accounts c d.nonce 0 s.accounts)

upsert-OfClient :
    (c : Cipher) (d : Saving) (generated client : String) (now : ℕ) (s : TokenStore)
    (tok : TokenSet)
    → OfClient client s.accounts
    → OfClient client (upsert c d generated client now s tok).0.accounts
unfolding upsert account_of keep_stored
upsert-OfClient c d generated client now s tok h =
    let acc = account_of generated client now tok in
    subst (OfClient client) (sym (save-accounts c d _))
      (elim (Option-cases (find_account (is_same_account acc) s.accounts)) [
        | inl e ↦ rw e (added-OfClient client s.accounts acc refl h)
        | inr (existing, e) ↦ rw e (
            changed-OfClient client (is_same_account acc) (keep_stored acc) s.accounts (λ a. refl)
              h)
      ])

-- A login or the end of a refresh, with what the save meets and the id that is made up.
pub record Arrival : Type 0 where
  pub saving : Saving
  pub generated : String
  pub now : ℕ
  pub tokens : TokenSet

unfoldable pub after_arrivals : Cipher → String → TokenStore → List Arrival → TokenStore
after_arrivals c client s [] = s
after_arrivals c client s (x ∷ xs) =
    after_arrivals c client (upsert c x.saving x.generated client x.now s x.tokens).0 xs

arrivals-OfClient :
    (c : Cipher) (client : String) (s : TokenStore) (xs : List Arrival)
    → OfClient client s.accounts
    → OfClient client (after_arrivals c client s xs).accounts
unfolding after_arrivals
arrivals-OfClient c client s [] h = h
arrivals-OfClient c client s (x ∷ xs) h =
    arrivals-OfClient c client (upsert c x.saving x.generated client x.now s x.tokens).0 xs
      (upsert-OfClient c x.saving x.generated client x.now s x.tokens h)

refreshed-stored :
    (c : Cipher) (d : Saving) (s : TokenStore) (id : String) (now : ℕ) (a : AccountToken)
    → (ensure_valid c d s id now).1 ≡ refreshes a
    → get_account s id ≡ some a
unfolding ensure_valid
refreshed-stored c d s id now a h = elim (Option-cases (get_account s id)) [
  | inl e ↦ absurd (cc (h, e))
  | inr (b, e) ↦ ground (arith, e, h)
]

-- The client id of every stored login is that of the browser login. So where the device login has
-- another client, no account that came by logins and refreshes, those of the device login included, is
-- renewed at the endpoint of the device login.
pub never_at_device :
    (c : Cipher) (d : Saving) (client device_client id : String) (is_common : Bool)
    (xs : List Arrival) (now : ℕ) (a : AccountToken)
    → client ≢ device_client
    → (ensure_valid c d (after_arrivals c client (open_store c []) xs) id now).1 ≡ refreshes a
    → endpoint_for device_client is_common a ≢ device
unfolding endpoint_for get_account open_store
never_at_device c d client device_client id is_common xs now a ne h at =
    let s = after_arrivals c client (open_store c []) xs in
    let e =
      found-OfClient client (answers_to id) s.accounts a
        (arrivals-OfClient c client (open_store c []) xs tt) (refreshed-stored c d s id now a h) in
    ground (arith, at, str_ne a.client_id device_client (λ q. ne (sym e ∙ q)))
