-- ===== src/Keys/Lifecycle.antt =====
-- The life of a key of internal/web/keys.go, from its creation to its revocation.
use m365_copilot2api_dsm.Prelude.{
  ℕ, ◌≡◌, ◌≢◌, refl, sym, ap, ◌∙◌, Bool, true, false, Option, none, some, String, List, [], ◌∷◌,
  ◌++◌, map, if◌then◌else◌, arith, inl, inr, Bool-cases, Option-cases, if_both, eq_refl, eq_iff,
  str_ne,
}
use m365_copilot2api_dsm.Keys.Store.{
  ApiKeyRecord, ApiKeyStore, flush, flush_now, new_key, raw_key, Place, find_key, change_first,
  create, is_live, set_revoked, revoke, open_api_keys, any_raw, migrate, later_place,
}
use m365_copilot2api_dsm.Keys.Lookup.{valid, set_used, is_hashed, found_key, lookup_raw}
use m365_copilot2api_dsm.Keys.Rollback.{
  Clean, Clean-map, map-Clean, Edit, alone, perform, map_append,
}
use m365_copilot2api_dsm.Keys.Atomic.{perform-Clean}

-- What happens to a store: a change, with or without a file to write to, or the use of a key.
pub data Event : Type 0 where
  edits : Edit → Bool → Event
  uses : String → ℕ → Event

unfoldable pub run : (String → String) → (String → String) → ApiKeyStore → List Event → ApiKeyStore
run key_hash trim s [] = s
run key_hash trim s (edits e written ∷ events) =
    run key_hash trim (perform key_hash trim e written s).0 events
run key_hash trim s (uses raw now ∷ events) = run key_hash trim (valid key_hash s raw now).0 events

used-Clean :
    (hash : String) (now : ℕ) (keys : List ApiKeyRecord)
    → Clean keys
    → Clean (change_first (is_hashed hash) (set_used now) keys)
unfolding change_first
used-Clean hash now [] c = tt
used-Clean hash now (k ∷ keys) c =
    if_both Clean (is_hashed hash k) c (c.0, used-Clean hash now keys c.1)

valid-Clean :
    (key_hash : String → String) (s : ApiKeyStore) (raw : String) (now : ℕ)
    → Clean s.keys
    → Clean s.disk
    → Clean (valid key_hash s raw now).0.keys × Clean (valid key_hash s raw now).0.disk
unfolding valid
valid-Clean key_hash s raw now c d =
    elim (Option-cases (find_key (is_hashed (key_hash raw)) s.keys)) [
      | inl e ↦ rw e (c, d)
      | inr (p, e) ↦ rw e (used-Clean (key_hash raw) now s.keys c, d)
    ]

no_raw-Clean : (keys : List ApiKeyRecord) → any_raw keys ≡ false → Clean keys
unfolding any_raw
no_raw-Clean [] h = tt
no_raw-Clean (k ∷ keys) h = ground (arith, h, eq_iff k.raw "", no_raw-Clean keys)

migrate-Clean :
    (key_hash : String → String) (keys : List ApiKeyRecord) → Clean (map (migrate key_hash) keys)
migrate-Clean key_hash [] = tt
migrate-Clean key_hash (k ∷ keys) = (ground (arith, eq_iff k.raw ""), migrate-Clean key_hash keys)

open-Clean :
    (key_hash : String → String) (held : List ApiKeyRecord)
    → Clean (open_api_keys key_hash true held).keys × Clean (open_api_keys key_hash true held).disk
unfolding open_api_keys flush
open-Clean key_hash held = elim (Bool-cases (any_raw held)) [
  | inl q ↦ rw q (Clean-map _, Clean-map _)
  | inr q ↦ rw q (migrate-Clean key_hash held, no_raw-Clean held q)
]

run-both :
    (key_hash trim : String → String) (s : ApiKeyStore) (events : List Event)
    → Clean s.keys
    → Clean s.disk
    → Clean (run key_hash trim s events).keys × Clean (run key_hash trim s events).disk
unfolding run
run-both key_hash trim s [] c d = (c, d)
run-both key_hash trim s (edits e written ∷ events) c d =
    let (c', d') = perform-Clean key_hash trim e written s c d in
    run-both key_hash trim (perform key_hash trim e written s).0 events c' d'
run-both key_hash trim s (uses raw now ∷ events) c d =
    let (c', d') = valid-Clean key_hash s raw now c d in
    run-both key_hash trim (valid key_hash s raw now).0 events c' d'

-- Whatever the file held at the start, cleartext keys of old versions included, if it can be written
-- then, no key has its cleartext afterwards, in memory or in the file, whatever changes and uses of keys
-- follow and whichever of these can be persisted.
pub run-Clean :
    (key_hash trim : String → String) (held : List ApiKeyRecord) (events : List Event)
    → let s = run key_hash trim (open_api_keys key_hash true held) events in
      Clean s.keys × Clean s.disk
run-Clean key_hash trim held events =
    let (c, d) = open-Clean key_hash held in run-both key_hash trim _ events c d

-- No key passes a test.
abbrev pub Fails : (ApiKeyRecord → Bool) → List ApiKeyRecord → Type 0
Fails test [] = Unit {0}
Fails test (k ∷ keys) = (test k ≡ false) × Fails test keys

found_later : (k : ApiKeyRecord) (p : Option Place) → found_key (later_place k p) ≡ found_key p
found_later k none = refl
found_later k (some p) = refl

found_cons :
    (test : ApiKeyRecord → Bool) (k : ApiKeyRecord) (keys : List ApiKeyRecord)
    → found_key (find_key test (k ∷ keys))
      ≡ (if test k then some k else found_key (find_key test keys))
unfolding find_key
found_cons test k keys = elim (Bool-cases (test k)) [
  | inl q ↦ rw q refl
  | inr q ↦ rw q (found_later k (find_key test keys))
]

-- A key that is added last is found where no other is.
found_last :
    (test : ApiKeyRecord → Bool) (keys : List ApiKeyRecord) (k : ApiKeyRecord)
    → Fails test keys
    → found_key (find_key test (keys ++ (k ∷ []))) ≡ (if test k then some k else none)
found_last test [] k f = found_cons test k [] ∙ (unfold find_key in refl)
found_last test (l ∷ keys) k f =
    found_cons test l (keys ++ (k ∷ [])) ∙ rw (f.0) (found_last test keys k f.1)

found_but :
    (test : ApiKeyRecord → Bool) (keys : List ApiKeyRecord) (k : ApiKeyRecord)
    → test k ≡ false
    → found_key (find_key test (keys ++ (k ∷ []))) ≡ found_key (find_key test keys)
found_but test [] k h = found_cons test k [] ∙ rw h refl
found_but test (l ∷ keys) k h =
    found_cons test l (keys ++ (k ∷ []))
    ∙ rw (found_but test keys k h) (sym (found_cons test l keys))

change_last :
    (test : ApiKeyRecord → Bool) (f : ApiKeyRecord → ApiKeyRecord) (keys : List ApiKeyRecord)
    (k : ApiKeyRecord)
    → Fails test keys
    → test k ≡ true
    → change_first test f (keys ++ (k ∷ [])) ≡ keys ++ (f k ∷ [])
unfolding change_first
change_last test f [] k fails h = rw h refl
change_last test f (l ∷ keys) k fails h =
    rw (fails.0) (ap (◌∷◌ l) (change_last test f keys k fails.1 h))

-- The store with a new key last, and with that key revoked.
abbrev added : (String → String) → String → String → ℕ → ApiKeyStore → ApiKeyStore
added key_hash random name now s = (create key_hash (some random) name now true alone s).0

added-keys :
    (key_hash : String → String) (random name : String) (now : ℕ) (s : ApiKeyStore)
    → Clean s.keys
    → (added key_hash random name now s).keys ≡ s.keys ++ (new_key key_hash random name now ∷ [])
unfolding create flush_now flush
added-keys key_hash random name now s c =
    map_append s.keys (new_key key_hash random name now)
    ∙ rw (map-Clean s.keys c) (unfold new_key in refl)

-- The place of a key that is found.
found_place :
    (p : Option Place) (k : ApiKeyRecord) → found_key p ≡ some k → (r : Place) × (p ≡ some r)
found_place none k h = cc
found_place (some r) k h = (r, refl)

revoked-keys :
    (s : ApiKeyStore) (keys : List ApiKeyRecord) (k : ApiKeyRecord)
    → s.keys ≡ keys ++ (k ∷ [])
    → Clean keys
    → k.raw ≡ ""
    → Fails (is_live k.id) keys
    → k.revoked ≡ false
    → (revoke k.id true alone s).0.keys ≡ keys ++ (record k { revoked = true; raw = "" } ∷ [])
unfolding revoke flush_now flush
revoked-keys s keys k e c clean fails live =
    let this : is_live k.id k ≡ true = ground (arith, live, eq_refl k.id) in
    let (r, at) =
      found_place (find_key (is_live k.id) s.keys) k
        (rw e (found_last (is_live k.id) keys k fails ∙ rw this refl)) in
    rw (at, e, change_last (is_live k.id) (set_revoked true) keys k fails this)
      (map_append keys (set_revoked true k) ∙ rw (map-Clean keys c) refl)

-- Where no stored key without a revocation has its id, and none its hash, a new key that is persisted
-- is found by its cleartext; once it is revoked, which is persisted, it is found no more. Neither
-- changes what the cleartext of another hash finds.
pub created-revoked :
    (key_hash : String → String) (random name asked : String) (now : ℕ) (s : ApiKeyStore)
    → Clean s.keys
    → Fails (is_live (new_key key_hash random name now).id) s.keys
    → Fails (is_hashed (key_hash (raw_key random))) s.keys
    → key_hash asked ≢ key_hash (raw_key random)
    → let k = new_key key_hash random name now in
      let t = (create key_hash (some random) name now true alone s).0 in
      let u = (revoke k.id true alone t).0 in
      (lookup_raw key_hash t (raw_key random) ≡ some k)
      × (lookup_raw key_hash u (raw_key random) ≡ none)
      × (lookup_raw key_hash t asked ≡ lookup_raw key_hash s asked)
      × (lookup_raw key_hash u asked ≡ lookup_raw key_hash s asked)
unfolding lookup_raw new_key
created-revoked key_hash random name asked now s c unused fresh other =
    let k = new_key key_hash random name now in
    let hash = key_hash (raw_key random) in
    let keys = added-keys key_hash random name now s c in
    let gone : ApiKeyRecord = record k { revoked = true; raw = "" } in
    let left = revoked-keys (added key_hash random name now s) s.keys k keys c refl unused refl in
    let differ = str_ne hash (key_hash asked) (λ e. other (sym e)) in
    (
      rw keys (found_last (is_hashed hash) s.keys k fresh ∙ rw (eq_refl hash) refl),
      rw left (found_last (is_hashed hash) s.keys gone fresh ∙ rw (eq_refl hash) refl),
      rw keys (found_but (is_hashed (key_hash asked)) s.keys k (rw differ refl)),
      rw left (found_but (is_hashed (key_hash asked)) s.keys gone (rw differ refl)),
    )
