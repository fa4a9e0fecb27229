-- ===== src/Keys/Lookup.antt =====
-- internal/web/keys.go: `list`, the lookups and `valid` of `apiKeyStore`.
use m365_copilot2api_dsm.Prelude.{
  ℕ, Bool, true, false, ◌&&◌, not, Option, none, some, String, List, map, str_eq, if◌then◌else◌,
}
use m365_copilot2api_dsm.Keys.Store.{
  ApiKeyRecord, ApiKeyStore, Place, find_key, change_first, is_live,
}

-- `publicKeyRecord`, and `list`.
abbrev pub public_key_record : ApiKeyRecord → ApiKeyRecord
public_key_record k = record k { hash = ""; raw = "" }

unfoldable pub list_keys : ApiKeyStore → List ApiKeyRecord
list_keys s = map public_key_record s.keys

abbrev pub found_key : Option Place → Option ApiKeyRecord
found_key none = none
found_key (some p) = some p.key

-- The test of a presented key, by its hash.
abbrev pub is_hashed : String → ApiKeyRecord → Bool
is_hashed hash k = str_eq k.hash hash && not k.revoked

unfoldable pub lookup_raw : (String → String) → ApiKeyStore → String → Option ApiKeyRecord
lookup_raw key_hash s raw = found_key (find_key (is_hashed (key_hash raw)) s.keys)

unfoldable pub lookup_by_id : ApiKeyStore → String → Option ApiKeyRecord
lookup_by_id s id = if str_eq id "" then none else found_key (find_key (is_live id) s.keys)

abbrev pub found_id : Option Place → Option String
found_id none = none
found_id (some p) = some p.key.id

unfoldable pub record_id_for_key_hash : (String → String) → ApiKeyStore → String → Option String
record_id_for_key_hash key_hash s raw = found_id (find_key (is_hashed (key_hash raw)) s.keys)

abbrev pub set_used : ℕ → ApiKeyRecord → ApiKeyRecord
set_used now k = record k { last_used_at = some now }

abbrev pub use_key : ApiKeyStore → String → ℕ → Option Place → ApiKeyStore × Bool
use_key s hash now none = (s, false)
use_key s hash now (some p) =
    (record s { keys = change_first (is_hashed hash) (set_used now) s.keys; dirty = true }, true)

unfoldable pub valid : (String → String) → ApiKeyStore → String → ℕ → ApiKeyStore × Bool
valid key_hash s raw now = use_key s (key_hash raw) now (find_key (is_hashed (key_hash raw)) s.keys)
