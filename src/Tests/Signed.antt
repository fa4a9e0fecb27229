-- ===== src/Tests/Signed.antt =====
-- Runs of the model of internal/auth/cache.go.
use m365_copilot2api_dsm.Prelude.{
  ℕ, ◌*◌, ◌<◌, ◌≡◌, ◌≢◌, refl, true, false, some, String, [], ◌∷◌, second, differs, arith,
}
use m365_copilot2api_dsm.Tokens.Store.{
  AccountToken, Saving, TokenStore, save, open_store, saved, encrypt_accounts, next_account, upsert,
  account_of, find_account, get_account,
}
use m365_copilot2api_dsm.Tokens.Sealing.{Cipher, strip, is_encrypted, encrypt_refresh_token}
use m365_copilot2api_dsm.Tokens.Refresh.{ensure_valid, refreshes, endpoint_for, device, threshold}
use m365_copilot2api_dsm.Tokens.Secrets.{Opens, AllWhole, Covered, open_store-save}
use m365_copilot2api_dsm.Tokens.Rotation.{after_calls, next-served}
use m365_copilot2api_dsm.Tokens.Clients.{Arrival, after_arrivals, never_at_device}
use m365_copilot2api_dsm.Context.Messages.{trim_left}
use Prim.Native.String.{◌++◌ as join}

abbrev plain_cipher : Cipher
plain_cipher = record { seal = λ nonce plain. plain; unseal = λ enc. some enc }

plain-Opens : Opens plain_cipher
unfolding Opens
plain-Opens nonce plain = refl

abbrev saving : Saving
saving = record { nonce = λ i. some "n"; written = true }

abbrev member : String → String → AccountToken
member id token = record {
  id = id;
  email = join id "@x";
  display_name = "";
  status = "online";
  schedule_disabled = false;
  access_token = "at";
  refresh_token = token;
  expires_at = 60 * second;
  updated_at = 0;
  oid = id;
  tid = "t";
  client_id = "c";
  bound_proxy = "";
}

abbrev members : TokenStore
members = record { accounts = member "a" "r1" ∷ member "b" "" ∷ []; next_idx = 1; disk = [] }

members-AllWhole : AllWhole members.accounts
unfolding is_encrypted strip
members-AllWhole = (
  (differs "a" "" refl, differs "a" "" refl, refl),
  ((differs "b" "" refl, differs "b" "" refl, refl), tt),
)

members_saved : (save plain_cipher saving members).1 ≡ saved
unfolding save encrypt_accounts encrypt_refresh_token is_encrypted strip
members_saved = refl

open_store-save_example :
    ((open_store plain_cipher (save plain_cipher saving members).0.disk).accounts
      ≡ members.accounts)
    × Covered (save plain_cipher saving members).0.disk
open_store-save_example =
    open_store-save plain_cipher saving members plain-Opens members-AllWhole members_saved

next-served_example :
    (k : ℕ) × (k < 2) × ((next_account (after_calls k members)).1 ≡ some (member "a" "r1"))
next-served_example = next-served members 0 (omega arith)

abbrev login : Arrival
login = record {
  saving = saving;
  generated = "account-1";
  now = 0;
  tokens = record {
    access_token = "at";
    refresh_token = "rt";
    expires_at = 60 * second;
    email = "a@x";
    display_name = "A";
    home_oid = "oid";
    tenant_id = "t";
  };
}

abbrev logged_in : TokenStore
logged_in = after_arrivals plain_cipher "browser" (open_store plain_cipher []) (login ∷ [])

abbrev stored_login : AccountToken
stored_login = account_of "account-1" "browser" 0 login.tokens

login_runs_out :
    (ensure_valid plain_cipher saving logged_in "a@x" (59 * second)).1 ≡ refreshes stored_login
unfolding ensure_valid get_account find_account after_arrivals open_store upsert save
    encrypt_accounts encrypt_refresh_token is_encrypted strip account_of threshold trim_left
login_runs_out = refl

never_at_device_example : endpoint_for "device" true stored_login ≢ device
never_at_device_example =
    never_at_device plain_cipher saving "browser" "device" "a@x" true (login ∷ []) (59 * second)
      stored_login (differs "browser" "device" refl) login_runs_out
