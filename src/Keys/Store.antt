-- ===== src/Keys/Store.antt =====
-- internal/web/keys.go: `apiKeyStore`. A method that persists a change unlocks the mutex for that time:
-- `others` is what the calls of other requests do to the store meanwhile. Whether the file could be
-- written is an argument, and so is the hash of a key.
use Prim.Native.String.{◌++◌ as join}
use m365_copilot2api_dsm.Prelude.{
  ℕ, zero, suc, Bool, true, false, ◌&&◌, not, Option, none, some, String, List, [], ◌∷◌, ◌++◌, map,
  str_eq, if◌then◌else◌,
}

pub record ApiKeyRecord : Type 0 where
  pub id : String
  pub name : String
  pub prefix : String
  pub hash : String
  pub raw : String
  pub created_at : ℕ
  pub last_used_at : Option ℕ
  pub revoked : Bool
  pub daily_quota : ℕ
  pub total_quota : ℕ
  pub per_minute_rate : ℕ
  pub expires_at : Option ℕ
  pub model_whitelist : List String
  pub ip_whitelist : List String

-- `disk` is what the file holds, and `dirty` the mark of the `persistStore`.
pub record ApiKeyStore : Type 0 where
  pub keys : List ApiKeyRecord
  pub disk : List ApiKeyRecord
  pub dirty : Bool

abbrev pub without_raw : ApiKeyRecord → ApiKeyRecord
without_raw k = record k { raw = "" }

-- A key of the file whose cleartext is left over gets its hash.
abbrev pub migrate : (String → String) → ApiKeyRecord → ApiKeyRecord
migrate key_hash k =
    if str_eq k.raw ""
    then k
    else record k { raw = ""; hash = if str_eq k.hash "" then key_hash k.raw else k.hash }

unfoldable pub any_raw : List ApiKeyRecord → Bool
any_raw [] = false
any_raw (k ∷ keys) = let later = any_raw keys in if str_eq k.raw "" then later else true

unfoldable pub flush : Bool → ApiKeyStore → ApiKeyStore
flush written s =
    let cleared = map without_raw s.keys in
    record s { keys = cleared; disk = if written then cleared else s.disk }

-- `flushNowBlocking`, with `flush`.
unfoldable pub flush_now : Bool → ApiKeyStore → ApiKeyStore
flush_now written s = record (flush written s) { dirty = not written }

-- `openAPIKeys`, on what the file holds.
unfoldable pub open_api_keys : (String → String) → Bool → List ApiKeyRecord → ApiKeyStore
open_api_keys key_hash written held =
    let s : ApiKeyStore = record {
      keys = map (migrate key_hash) held;
      disk = held;
      dirty = false;
    } in
    if any_raw held then flush written s else s

-- How a method ends: with its change, with nothing to change, with an error, or in a panic.
pub data Answer : Type 0 where
  done missing failed panicked : Answer

unfoldable pub first_chars : ℕ → String → String
first_chars zero s = ""
first_chars (suc n) String.[] = ""
first_chars (suc n) (String.◌∷◌ c s) = String.◌∷◌ c (first_chars n s)

-- The key of 32 random bytes, given in hexadecimal.
unfoldable pub raw_key : String → String
raw_key random = join "m365_" random

unfoldable pub new_key : (String → String) → String → String → ℕ → ApiKeyRecord
new_key key_hash random name now = record {
  id = first_chars 16 random;
  name = name;
  prefix = first_chars 12 (raw_key random);
  hash = key_hash (raw_key random);
  raw = "";
  created_at = now;
  last_used_at = none;
  revoked = false;
  daily_quota = 0;
  total_quota = 0;
  per_minute_rate = 0;
  expires_at = none;
  model_whitelist = [];
  ip_whitelist = [];
}

-- A slice that ends before the last key, and one with a key put in at a place: `none` is a panic.
unfoldable pub without_last : List ApiKeyRecord → Option (List ApiKeyRecord)
without_last [] = none
without_last (k ∷ []) = some []
without_last (k ∷ l ∷ keys) = elim (without_last (l ∷ keys)) [
  | none ↦ none
  | some rest ↦ some (k ∷ rest)
]

unfoldable pub insert_at : ℕ → ApiKeyRecord → List ApiKeyRecord → Option (List ApiKeyRecord)
insert_at zero k keys = some (k ∷ keys)
insert_at (suc i) k [] = none
insert_at (suc i) k (l ∷ keys) = elim (insert_at i k keys) [
  | none ↦ none
  | some rest ↦ some (l ∷ rest)
]

unfoldable pub change_at :
    ℕ → (ApiKeyRecord → ApiKeyRecord) → List ApiKeyRecord → Option (List ApiKeyRecord)
change_at i f [] = none
change_at zero f (k ∷ keys) = some (f k ∷ keys)
change_at (suc i) f (k ∷ keys) = elim (change_at i f keys) [
  | none ↦ none
  | some rest ↦ some (k ∷ rest)
]

-- The first key that passes a test: its place, the key, and the keys without it.
pub record Place : Type 0 where
  pub index : ℕ
  pub key : ApiKeyRecord
  pub others : List ApiKeyRecord

abbrev pub later_place : ApiKeyRecord → Option Place → Option Place
later_place k none = none
later_place k (some p) = some (record { index = suc p.index; key = p.key; others = k ∷ p.others })

unfoldable pub find_key : (ApiKeyRecord → Bool) → List ApiKeyRecord → Option Place
find_key test [] = none
find_key test (k ∷ keys) =
    let later = find_key test keys in
    if test k then some (record { index = 0; key = k; others = keys }) else later_place k later

-- The first key that passes a test is changed.
unfoldable pub change_first :
    (ApiKeyRecord → Bool) → (ApiKeyRecord → ApiKeyRecord) → List ApiKeyRecord → List ApiKeyRecord
change_first test f [] = []
change_first test f (k ∷ keys) =
    let later = change_first test f keys in if test k then f k ∷ keys else k ∷ later

-- A change that could not be persisted is taken back.
abbrev pub take_back : ApiKeyStore → Option (List ApiKeyRecord) → ApiKeyStore × Answer
take_back s none = (s, panicked)
take_back s (some keys) = (record s { keys = keys }, failed)

abbrev pub conclude :
    Bool → ApiKeyStore → (List ApiKeyRecord → Option (List ApiKeyRecord)) → ApiKeyStore × Answer
conclude true s undo = (s, done)
conclude false s undo = take_back s (undo s.keys)

-- `none` where no random bytes could be read.
unfoldable pub create :
    (String → String)
    → Option String
    → String
    → ℕ
    → Bool
    → (ApiKeyStore → ApiKeyStore)
    → ApiKeyStore
    → ApiKeyStore × Answer
create key_hash none name now written others s = (s, failed)
create key_hash (some random) name now written others s =
    let added = record s { keys = s.keys ++ (new_key key_hash random name now ∷ []) } in
    conclude written (others (flush_now written added)) without_last

abbrev pub is_live : String → ApiKeyRecord → Bool
is_live id k = str_eq k.id id && not k.revoked

abbrev pub set_revoked : Bool → ApiKeyRecord → ApiKeyRecord
set_revoked b k = record k { revoked = b }

abbrev pub revoke_at :
    Bool → (ApiKeyStore → ApiKeyStore) → ApiKeyStore → String → Option Place → ApiKeyStore × Answer
revoke_at written others s id none = (s, missing)
revoke_at written others s id (some p) =
    let changed = record s { keys = change_first (is_live id) (set_revoked true) s.keys } in
    conclude written (others (flush_now written changed)) (change_at p.index (set_revoked false))

unfoldable pub revoke :
    String → Bool → (ApiKeyStore → ApiKeyStore) → ApiKeyStore → ApiKeyStore × Answer
revoke id written others s = revoke_at written others s id (find_key (is_live id) s.keys)

abbrev pub has_id : String → ApiKeyRecord → Bool
has_id id k = str_eq k.id id

abbrev pub delete_at :
    Bool → (ApiKeyStore → ApiKeyStore) → ApiKeyStore → Option Place → ApiKeyStore × Answer
delete_at written others s none = (s, missing)
delete_at written others s (some p) =
    conclude written (others (flush_now written (record s { keys = p.others })))
      (insert_at p.index p.key)

unfoldable pub delete_key :
    String → Bool → (ApiKeyStore → ApiKeyStore) → ApiKeyStore → ApiKeyStore × Answer
delete_key id written others s = delete_at written others s (find_key (has_id id) s.keys)
