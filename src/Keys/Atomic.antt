-- ===== src/Keys/Atomic.antt =====
-- The changes of internal/web/keys.go as a whole, alone and between others.
use m365_copilot2api_dsm.Prelude.{
  ℕ, ◌≡◌, ◌≢◌, ◌⊎◌, refl, Bool, true, false, Option, none, some, String, [], ◌∷◌, ◌++◌, inl, inr,
  Option-cases,
}
use m365_copilot2api_dsm.Keys.Store.{
  ApiKeyStore, without_raw, flush, flush_now, Answer, done, missing, failed, new_key, find_key,
  create, is_live, revoke, has_id, delete_key, revoke_at, delete_at,
}
use m365_copilot2api_dsm.Keys.Update.{KeyUpdateOpts, update, update_at}
use m365_copilot2api_dsm.Keys.Rollback.{
  Clean, Clean-map, map-Clean, Edit, creates, revokes, deletes, updates, alone, perform,
  without_last-append, map_append, delete_back, revoke_back, update_back,
}

-- A change ends with success and is in the file, with no cleartext, or changes neither the keys nor the file.
abbrev pub Atomic : ApiKeyStore → ApiKeyStore × Answer → Type 0
Atomic s x =
    ((x.1 ≡ done) × (x.0.disk ≡ x.0.keys) × Clean x.0.keys)
    ⊎ ((x.1 ≢ done) × (x.0.keys ≡ s.keys) × (x.0.disk ≡ s.disk))

failed_ne : failed ≢ done
failed_ne e = cc

missing_ne : missing ≢ done
missing_ne e = cc

create-Atomic :
    (key_hash : String → String) (random : Option String) (name : String) (now : ℕ) (written : Bool)
    (s : ApiKeyStore)
    → Clean s.keys
    → Atomic s (create key_hash random name now written alone s)
unfolding create flush_now flush
create-Atomic key_hash none name now written s c = inr (failed_ne, refl, refl)
create-Atomic key_hash (some random) name now true s c = inl (refl, refl, Clean-map _)
create-Atomic key_hash (some random) name now false s c =
    let k = new_key key_hash random name now in
    rw (map_append s.keys k, map-Clean s.keys c, without_last-append s.keys (without_raw k))
      (inr (failed_ne, refl, refl))

revoke-Atomic :
    (id : String) (written : Bool) (s : ApiKeyStore)
    → Clean s.keys
    → Atomic s (revoke id written alone s)
unfolding revoke flush_now flush
revoke-Atomic id written s c = elim (Option-cases (find_key (is_live id) s.keys)) [
  | inl e ↦ rw e (inr (missing_ne, refl, refl))
  | inr (p, e) ↦ rw e (elim written as (λ w. Atomic s (revoke_at w alone s id (some p))) [
    | true ↦ inl (refl, refl, Clean-map _)
    | false ↦ rw (revoke_back id s.keys p c e) (inr (failed_ne, refl, refl))
  ])
]

delete-Atomic :
    (id : String) (written : Bool) (s : ApiKeyStore)
    → Clean s.keys
    → Atomic s (delete_key id written alone s)
unfolding delete_key flush_now flush
delete-Atomic id written s c = elim (Option-cases (find_key (has_id id) s.keys)) [
  | inl e ↦ rw e (inr (missing_ne, refl, refl))
  | inr (p, e) ↦ rw e (elim written as (λ w. Atomic s (delete_at w alone s (some p))) [
    | true ↦ inl (refl, refl, Clean-map _)
    | false ↦ rw (delete_back (has_id id) s.keys p c e) (inr (failed_ne, refl, refl))
  ])
]

update-Atomic :
    (trim : String → String) (id : String) (o : KeyUpdateOpts) (written : Bool) (s : ApiKeyStore)
    → Clean s.keys
    → Atomic s (update trim id o written alone s)
unfolding update flush_now flush
update-Atomic trim id o written s c = elim (Option-cases (find_key (has_id id) s.keys)) [
  | inl e ↦ rw e (inr (missing_ne, refl, refl))
  | inr (p, e) ↦ rw e (elim written as (λ w. Atomic s (update_at trim o w alone s id (some p))) [
    | true ↦ inl (refl, refl, Clean-map _)
    | false ↦ rw (update_back trim o id s.keys p c e) (inr (failed_ne, refl, refl))
  ])
]

-- Where no stored key has its cleartext, a change that runs alone ends with success and the file holds
-- the keys, all without their cleartext, or it does not, and the keys and the file are what they were, in every field and in order:
-- for a creation, a revocation, a deletion and an update, whether or not the file can be written.
pub perform-Atomic :
    (key_hash trim : String → String) (e : Edit) (written : Bool) (s : ApiKeyStore)
    → Clean s.keys
    → Atomic s (perform key_hash trim e written s)
unfolding perform
perform-Atomic key_hash trim (creates random name now) written s c =
    create-Atomic key_hash random name now written s c
perform-Atomic key_hash trim (revokes id) written s c = revoke-Atomic id written s c
perform-Atomic key_hash trim (deletes id) written s c = delete-Atomic id written s c
perform-Atomic key_hash trim (updates id o) written s c = update-Atomic trim id o written s c

pub perform-Clean :
    (key_hash trim : String → String) (e : Edit) (written : Bool) (s : ApiKeyStore)
    → Clean s.keys
    → Clean s.disk
    → Clean (perform key_hash trim e written s).0.keys
      × Clean (perform key_hash trim e written s).0.disk
perform-Clean key_hash trim e written s c d = elim (perform-Atomic key_hash trim e written s c) [
  | inl (ok, same, clean) ↦ (clean, rw same clean)
  | inr (no_, keys, disk) ↦ (rw keys c, rw disk d)
]

-- While the creation of a first key is written to the file, which fails, a second key is created and
-- persisted. Then the store has the first key, whose client got an error, and not the second.
pub create_takes_other :
    (key_hash : String → String) (first second name other : String) (now later : ℕ)
    (s : ApiKeyStore)
    → Clean s.keys
    → (create key_hash
        (some first)
        name
        now
        false
        (λ t. (create key_hash (some second) other later true alone t).0)
        s).0.keys
      ≡ s.keys ++ (new_key key_hash first name now ∷ [])
unfolding create flush_now flush
create_takes_other key_hash first second name other now later s c =
    let k = new_key key_hash first name now in
    let l = new_key key_hash second other later in
    rw
      (
        map_append s.keys k,
        map-Clean s.keys c,
        map_append (s.keys ++ (without_raw k ∷ [])) l,
        map_append s.keys (without_raw k),
        map-Clean s.keys c,
        without_last-append (s.keys ++ (without_raw k ∷ [])) (without_raw l),
      )
      (unfold new_key in refl)
