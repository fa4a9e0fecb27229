-- ===== src/Keys/Update.antt =====
-- internal/web/keys.go: `update` of `apiKeyStore`. A quota is the bit pattern of an int64.
use m365_copilot2api_dsm.Prelude.{
  ℕ, Bool, Option, none, some, String, List, [], ◌∷◌, ltb, str_eq, if◌then◌else◌, sign_bit,
}
use m365_copilot2api_dsm.Keys.Store.{
  ApiKeyRecord, ApiKeyStore, flush_now, Answer, Place, find_key, change_first, conclude, has_id,
  missing,
}

pub record KeyUpdateOpts : Type 0 where
  pub name : Option String
  pub revoked : Option Bool
  pub daily_quota : Option ℕ
  pub total_quota : Option ℕ
  pub per_minute_rate : Option ℕ
  pub expires_at : Option (Option ℕ)
  pub model_whitelist : Option (List String)
  pub ip_whitelist : Option (List String)

abbrev pub or_old {ℓ} : {A : Type ℓ} → A → Option A → A
or_old old none = old
or_old old (some new) = new

abbrev pub name_or_old : String → Option String → String
name_or_old old none = old
name_or_old old (some new) = if str_eq new "" then old else new

-- A negative quota is none at all.
abbrev pub quota_or_old : ℕ → Option ℕ → ℕ
quota_or_old old none = old
quota_or_old old (some q) = if ltb q sign_bit then q else 0

unfoldable pub normalize_string_list : (String → String) → List String → List String
normalize_string_list trim [] = []
normalize_string_list trim (v ∷ vs) =
    let rest = normalize_string_list trim vs in if str_eq (trim v) "" then rest else trim v ∷ rest

abbrev pub list_or_old : (String → String) → List String → Option (List String) → List String
list_or_old trim old none = old
list_or_old trim old (some new) = normalize_string_list trim new

unfoldable pub apply_opts : (String → String) → KeyUpdateOpts → ApiKeyRecord → ApiKeyRecord
apply_opts trim o k = record k {
  name = name_or_old k.name o.name;
  revoked = or_old k.revoked o.revoked;
  daily_quota = quota_or_old k.daily_quota o.daily_quota;
  total_quota = quota_or_old k.total_quota o.total_quota;
  per_minute_rate = quota_or_old k.per_minute_rate o.per_minute_rate;
  expires_at = or_old k.expires_at o.expires_at;
  model_whitelist = list_or_old trim k.model_whitelist o.model_whitelist;
  ip_whitelist = list_or_old trim k.ip_whitelist o.ip_whitelist;
}

-- The fields that `update` kept are written back.
abbrev pub restore : ApiKeyRecord → ApiKeyRecord → ApiKeyRecord
restore old k = record k {
  name = old.name;
  revoked = old.revoked;
  daily_quota = old.daily_quota;
  total_quota = old.total_quota;
  per_minute_rate = old.per_minute_rate;
  expires_at = old.expires_at;
  model_whitelist = old.model_whitelist;
  ip_whitelist = old.ip_whitelist;
}

abbrev pub update_at :
    (String → String)
    → KeyUpdateOpts
    → Bool
    → (ApiKeyStore → ApiKeyStore)
    → ApiKeyStore
    → String
    → Option Place
    → ApiKeyStore × Answer
update_at trim o written others s id none = (s, missing)
update_at trim o written others s id (some p) =
    let changed = record s { keys = change_first (has_id id) (apply_opts trim o) s.keys } in
    conclude written (others (flush_now written changed))
      (λ keys. some (change_first (has_id id) (restore p.key) keys))

unfoldable pub update :
    (String → String)
    → String
    → KeyUpdateOpts
    → Bool
    → (ApiKeyStore → ApiKeyStore)
    → ApiKeyStore
    → ApiKeyStore × Answer
update trim id o written others s =
    update_at trim o written others s id (find_key (has_id id) s.keys)
