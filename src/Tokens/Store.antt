-- ===== src/Tokens/Store.antt =====
-- internal/auth/cache.go: `TokenStore`, the accounts in memory and in the file. Whether random bytes can be read and the file can be written are arguments too.
use m365_copilot2api_dsm.Prelude.{
  ℕ, suc, ◌+◌, ◌%◌, Bool, true, false, ◌&&◌, ◌||◌, not, Option, none, some, String, List, [], ◌∷◌,
  ◌++◌, map, ◌==◌, str_eq, if◌then◌else◌, length, get_elem?, filter, is_empty, codes,
}
use m365_copilot2api_dsm.Context.Messages.{trim_space}
use m365_copilot2api_dsm.Tokens.Sealing.{Cipher, encrypt_refresh_token, decrypt_refresh_token}

pub record AccountToken : Type 0 where
  pub id : String
  pub email : String
  pub display_name : String
  pub status : String
  pub schedule_disabled : Bool
  pub access_token : String
  pub refresh_token : String
  pub expires_at : ℕ
  pub updated_at : ℕ
  pub oid : String
  pub tid : String
  pub client_id : String
  pub bound_proxy : String

-- What a save meets: the nonce of each account, where it can be read, and whether the file is written.
pub record Saving : Type 0 where
  pub nonce : ℕ → Option String
  pub written : Bool

pub record TokenStore : Type 0 where
  pub accounts : List AccountToken
  pub next_idx : ℕ
  pub disk : List AccountToken

abbrev pub with_token : AccountToken → Option String → Option AccountToken
with_token a none = none
with_token a (some enc) = some (record a { refresh_token = enc })

abbrev pub prepend {ℓ} : {A : Type ℓ} → Option A → Option (List A) → Option (List A)
prepend none rest = none
prepend (some a) none = none
prepend (some a) (some rest) = some (a ∷ rest)

-- The accounts for the file, from the `i`-th on.
unfoldable pub encrypt_accounts :
    Cipher → (ℕ → Option String) → ℕ → List AccountToken → Option (List AccountToken)
encrypt_accounts c nonce i [] = some []
encrypt_accounts c nonce i (a ∷ accounts) =
    prepend
      (if str_eq a.refresh_token ""
        then some a
        else with_token a (encrypt_refresh_token c (nonce i) a.refresh_token))
      (encrypt_accounts c nonce (suc i) accounts)

-- How an operation ends.
pub data Outcome : Type 0 where
  saved unsaved not_found : Outcome

abbrev pub write_file : Bool → TokenStore → Option (List AccountToken) → TokenStore × Outcome
write_file written s none = (s, unsaved)
write_file true s (some accounts) = (record s { disk = accounts }, saved)
write_file false s (some accounts) = (s, unsaved)

unfoldable pub save : Cipher → Saving → TokenStore → TokenStore × Outcome
save c d s = write_file d.written s (encrypt_accounts c d.nonce 0 s.accounts)

abbrev pub or_kept : String → Option String → String
or_kept enc none = enc
or_kept enc (some plain) = plain

abbrev pub or_else : String → String → String
or_else s t = if str_eq s "" then t else s

-- `firstNonEmpty` of two texts, which looks past white space.
abbrev pub is_blank : String → Bool
is_blank s = is_empty (trim_space (codes s))

abbrev pub first_non_empty : String → String → String
first_non_empty s t = if is_blank s then (if is_blank t then "" else t) else s

-- An account as it is read from the file.
abbrev pub loaded : Cipher → AccountToken → AccountToken
loaded c a =
    let oid = or_else a.oid a.id in
    record a {
      refresh_token = or_kept a.refresh_token (decrypt_refresh_token c a.refresh_token);
      oid = oid;
      id = or_else a.id oid;
    }

unfoldable pub open_store : Cipher → List AccountToken → TokenStore
open_store c held = record { accounts = map (loaded c) held; next_idx = 0; disk = held }

-- The first account that passes a test, and a change of it.
unfoldable pub find_account : (AccountToken → Bool) → List AccountToken → Option AccountToken
find_account test [] = none
find_account test (a ∷ accounts) =
    let later = find_account test accounts in if test a then some a else later

unfoldable pub change_account :
    (AccountToken → Bool) → (AccountToken → AccountToken) → List AccountToken → List AccountToken
change_account test f [] = []
change_account test f (a ∷ accounts) =
    let later = change_account test f accounts in if test a then f a ∷ accounts else a ∷ later

abbrev pub has_id : String → AccountToken → Bool
has_id id a = str_eq a.id id

abbrev pub edit_found :
    Cipher
    → Saving
    → TokenStore
    → String
    → (AccountToken → AccountToken)
    → Option AccountToken
    → TokenStore × Outcome
edit_found c d s id f none = (s, not_found)
edit_found c d s id f (some a) =
    save c d (record s { accounts = change_account (has_id id) f s.accounts })

unfoldable pub edit_account :
    Cipher → Saving → TokenStore → String → (AccountToken → AccountToken) → TokenStore × Outcome
edit_account c d s id f = edit_found c d s id f (find_account (has_id id) s.accounts)

unfoldable pub set_schedule_enabled :
    Cipher → Saving → TokenStore → String → Bool → ℕ → TokenStore × Outcome
set_schedule_enabled c d s id enabled now =
    edit_account c d s id (λ a. record a { schedule_disabled = not enabled; updated_at = now })

unfoldable pub set_bound_proxy :
    Cipher → Saving → TokenStore → String → String → ℕ → TokenStore × Outcome
set_bound_proxy c d s id proxy now =
    edit_account c d s id (λ a. record a { bound_proxy = proxy; updated_at = now })

-- `trim` is `strings.TrimSpace`.
unfoldable pub update_refresh_token :
    (String → String) → Cipher → Saving → TokenStore → String → String → ℕ → TokenStore × Outcome
update_refresh_token trim c d s id token now =
    if str_eq (trim token) ""
    then (s, saved)
    else edit_account c d s id (λ a. record a { refresh_token = trim token; updated_at = now })

abbrev pub enabled_of : Option AccountToken → Bool
enabled_of none = false
enabled_of (some a) = not a.schedule_disabled

unfoldable pub schedule_enabled : TokenStore → String → Bool
schedule_enabled s id = enabled_of (find_account (has_id id) s.accounts)

unfoldable pub delete_account : Cipher → Saving → TokenStore → String → TokenStore × Outcome
delete_account c d s id =
    save c d (record s { accounts = filter (λ a. not (has_id id a)) s.accounts })

-- The token set that a login or a refresh brings.
pub record TokenSet : Type 0 where
  pub access_token : String
  pub refresh_token : String
  pub expires_at : ℕ
  pub email : String
  pub display_name : String
  pub home_oid : String
  pub tenant_id : String

-- The account of a token set: `generated` is the id made of the time and random bytes, `client` the
-- client id of the settings.
unfoldable pub account_of : String → String → ℕ → TokenSet → AccountToken
account_of generated client now tok =
    let id = or_else (or_else tok.home_oid tok.email) generated in
    record {
      id = id;
      email = tok.email;
      display_name = tok.display_name;
      status = "online";
      schedule_disabled = false;
      access_token = tok.access_token;
      refresh_token = tok.refresh_token;
      expires_at = tok.expires_at;
      updated_at = now;
      oid = first_non_empty tok.home_oid id;
      tid = tok.tenant_id;
      client_id = client;
      bound_proxy = "";
    }

-- The account keeps some of what is stored for it.
unfoldable pub keep_stored : AccountToken → AccountToken → AccountToken
keep_stored acc existing = record acc {
  refresh_token = or_else acc.refresh_token existing.refresh_token;
  tid = or_else acc.tid existing.tid;
  oid = or_else acc.oid existing.oid;
  schedule_disabled = existing.schedule_disabled;
  bound_proxy = or_else acc.bound_proxy existing.bound_proxy;
}

abbrev pub is_same_account : AccountToken → AccountToken → Bool
is_same_account acc existing =
    str_eq existing.id acc.id || (not (str_eq acc.email "") && str_eq existing.email acc.email)

abbrev pub placed :
    AccountToken → List AccountToken → Option AccountToken → List AccountToken × AccountToken
placed acc accounts none = (accounts ++ (acc ∷ []), acc)
placed acc accounts (some existing) =
    (change_account (is_same_account acc) (keep_stored acc) accounts, keep_stored acc existing)

unfoldable pub upsert :
    Cipher
    → Saving
    → String
    → String
    → ℕ
    → TokenStore
    → TokenSet
    → TokenStore × AccountToken × Outcome
upsert c d generated client now s tok =
    let acc = account_of generated client now tok in
    let (accounts, stored) =
      placed acc s.accounts (find_account (is_same_account acc) s.accounts) in
    let (t, outcome) = save c d (record s { accounts = accounts }) in (t, stored, outcome)

-- `Get` looks for an id, an object id or an address.
abbrev pub answers_to : String → AccountToken → Bool
answers_to id a = str_eq a.id id || str_eq a.oid id || str_eq a.email id

unfoldable pub get_account : TokenStore → String → Option AccountToken
get_account s id = find_account (answers_to id) s.accounts

unfoldable pub first_account : TokenStore → Option AccountToken
first_account s = get_elem? s.accounts 0

unfoldable pub next_account : TokenStore → TokenStore × Option AccountToken
next_account s =
    let n = length s.accounts in
    if n == 0
    then (s, none)
    else (record s { next_idx = (s.next_idx + 1) % n }, get_elem? s.accounts (s.next_idx % n))
