-- ===== src/Tokens/Refresh.antt =====
-- internal/auth/cache.go: `EnsureValid` and what it does for a token that runs out. The two settings
-- for the endpoints are arguments. Several calls for one account share one refresh; here it is the one.
use m365_copilot2api_dsm.Prelude.{
  ℕ, ◌+◌, ◌-◌, ◌*◌, ◌/◌, Bool, ◌&&◌, not, Option, none, some, String, List, ltb, str_eq,
  if◌then◌else◌, second, filter,
}
use m365_copilot2api_dsm.Tokens.Store.{
  AccountToken, Saving, TokenStore, TokenSet, Outcome, edit_account, get_account, upsert, or_else,
  first_non_empty,
}
use m365_copilot2api_dsm.Tokens.Sealing.{Cipher}

-- How long before its end a token is renewed: 2 min, or the tenth of its life where that is less.
unfoldable pub threshold : AccountToken → ℕ
threshold a =
    let total = a.expires_at - a.updated_at in
    if ltb 0 total && ltb (total / 10) (120 * second) then total / 10 else 120 * second

pub data Validity : Type 0 where
  unknown : Validity
  current expired refreshes : AccountToken → Validity

abbrev pub set_expired : AccountToken → AccountToken
set_expired a = record a { status = "expired" }

-- The account is marked as expired, whether or not that can be saved.
unfoldable pub mark_expired : Cipher → Saving → TokenStore → String → TokenStore
mark_expired c d s id = (edit_account c d s id set_expired).0

abbrev pub check_found :
    Cipher → Saving → TokenStore → ℕ → Option AccountToken → TokenStore × Validity
check_found c d s now none = (s, unknown)
check_found c d s now (some a) =
    if ltb (now + threshold a) a.expires_at
    then (s, current a)
    else if str_eq a.refresh_token ""
    then (mark_expired c d s a.id, expired (set_expired a))
    else (s, refreshes a)

unfoldable pub ensure_valid : Cipher → Saving → TokenStore → String → ℕ → TokenStore × Validity
ensure_valid c d s id now = check_found c d s now (get_account s id)

-- Where a refresh goes: to the endpoint of the device login, or to the one of the browser login, perhaps
-- of a tenant.
pub data Endpoint : Type 0 where
  device common : Endpoint
  tenant : String → Endpoint

unfoldable pub endpoint_for : String → Bool → AccountToken → Endpoint
endpoint_for device_client is_common a =
    if str_eq a.client_id device_client
    then device
    else if not (str_eq a.tid "") && is_common
    then tenant a.tid
    else common

-- What the token set lacks is that of the account.
unfoldable pub filled : AccountToken → TokenSet → TokenSet
filled a tok = record tok {
  email = or_else tok.email a.email;
  display_name = or_else tok.display_name a.display_name;
  home_oid = or_else tok.home_oid (first_non_empty a.oid a.id);
  tenant_id = or_else tok.tenant_id a.tid;
}

abbrev pub Answer : Type 0
Answer = TokenStore × AccountToken × Outcome

-- The end of a refresh: with no token set it has failed.
unfoldable pub finish_refresh :
    Cipher → Saving → String → String → ℕ → TokenStore → AccountToken → Option TokenSet → Answer
finish_refresh c d generated client now s a none = (mark_expired c d s a.id, a, Outcome.unsaved)
finish_refresh c d generated client now s a (some tok) =
    upsert c d generated client now s (filled a tok)

-- The accounts that `RefreshAllExpired` tries.
unfoldable pub candidates : ℕ → List AccountToken → List AccountToken
candidates now =
    filter (λ a. ltb a.expires_at (now + threshold a) && not (str_eq a.refresh_token ""))
