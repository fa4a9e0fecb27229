-- ===== src/Keys/Rollback.antt =====
-- The changes of internal/web/keys.go that could not be persisted.
use m365_copilot2api_dsm.Prelude.{
  ℕ, suc, ◌≡◌, ◌⊎◌, refl, sym, ap, subst, ◌∙◌, Bool, true, false, Option, some, String, List, [],
  ◌∷◌, ◌++◌, map, if◌then◌else◌, arith, inl, inr, Bool-cases, Option-cases,
}
use m365_copilot2api_dsm.Keys.Store.{
  ApiKeyRecord, ApiKeyStore, without_raw, Answer, without_last, insert_at, change_at, Place,
  find_key, change_first, create, is_live, set_revoked, revoke, has_id, delete_key, later_place,
}
use m365_copilot2api_dsm.Keys.Update.{KeyUpdateOpts, apply_opts, restore, update}

-- No key has its cleartext.
abbrev pub Clean : List ApiKeyRecord → Type 0
Clean [] = Unit {0}
Clean (k ∷ keys) = (k.raw ≡ "") × Clean keys

pub Clean-map : (keys : List ApiKeyRecord) → Clean (map without_raw keys)
Clean-map [] = tt
Clean-map (k ∷ keys) = (refl, Clean-map keys)

pub map-Clean : (keys : List ApiKeyRecord) → Clean keys → map without_raw keys ≡ keys
map-Clean [] c = refl
map-Clean (k ∷ keys) c = ground (arith, c, map-Clean keys c.1)

-- The changes of the keys, and a change that runs alone.
pub data Edit : Type 0 where
  creates : Option String → String → ℕ → Edit
  revokes deletes : String → Edit
  updates : String → KeyUpdateOpts → Edit

abbrev pub alone : ApiKeyStore → ApiKeyStore
alone s = s

unfoldable pub perform :
    (String → String) → (String → String) → Edit → Bool → ApiKeyStore → ApiKeyStore × Answer
perform key_hash trim (creates random name now) written s =
    create key_hash random name now written alone s
perform key_hash trim (revokes id) written s = revoke id written alone s
perform key_hash trim (deletes id) written s = delete_key id written alone s
perform key_hash trim (updates id o) written s = update trim id o written alone s

pub without_last-append :
    (keys : List ApiKeyRecord) (k : ApiKeyRecord) → without_last (keys ++ (k ∷ [])) ≡ some keys
unfolding without_last
without_last-append [] k = refl
without_last-append (l ∷ []) k = refl
without_last-append (l ∷ m ∷ keys) k = rw (without_last-append (m ∷ keys) k) refl

pub map_append :
    (keys : List ApiKeyRecord) (k : ApiKeyRecord)
    → map without_raw (keys ++ (k ∷ [])) ≡ map without_raw keys ++ (without_raw k ∷ [])
map_append [] k = refl
map_append (l ∷ keys) k = ap (◌∷◌ (without_raw l)) (map_append keys k)

here : ApiKeyRecord → List ApiKeyRecord → Place
here k keys = record { index = 0; key = k; others = keys }

behind : ApiKeyRecord → Place → Place
behind k p = record { index = suc p.index; key = p.key; others = k ∷ p.others }

some_eq {ℓ} : {A : Type ℓ} (a b : A) → some a ≡ some b → a ≡ b
some_eq a b e = cc

found_cases :
    (test : ApiKeyRecord → Bool) (k : ApiKeyRecord) (keys : List ApiKeyRecord) (p : Place)
    → find_key test (k ∷ keys) ≡ some p
    → ((test k ≡ true) × (here k keys ≡ p))
      ⊎ ((test k ≡ false) × ((r : Place) × (find_key test keys ≡ some r) × (behind k r ≡ p)))
unfolding find_key here behind
found_cases test k keys p h = elim (Bool-cases (test k)) [
  | inl q ↦ inl (
    q,
    some_eq _ p (
        subst (λ b. (if b then some (here k keys) else later_place k (find_key test keys)) ≡ some p)
          q h),
  )
  | inr q ↦ inr (
    q,
    let later : later_place k (find_key test keys) ≡ some p =
          subst
            (λ b. (if b then some (here k keys) else later_place k (find_key test keys)) ≡ some p) q
            h in
        elim (Option-cases (find_key test keys)) [
          | inl e ↦ absurd (cc (later, ap (later_place k) e))
          | inr (r, e) ↦ (r, e, some_eq _ p (sym (ap (later_place k) e) ∙ later))
        ],
  )
]

-- What is put back where it was taken away makes the keys whole again.
pub delete_back :
    (test : ApiKeyRecord → Bool) (keys : List ApiKeyRecord) (p : Place)
    → Clean keys
    → find_key test keys ≡ some p
    → insert_at p.index p.key (map without_raw p.others) ≡ some keys
unfolding find_key insert_at here behind
delete_back test [] p c h = cc
delete_back test (k ∷ keys) p c h = elim (found_cases test k keys p h) [
  | inl (q, e) ↦
      subst (λ x. insert_at x.index x.key (map without_raw x.others) ≡ some (k ∷ keys)) e
        (ap (λ l. some (k ∷ l)) (map-Clean keys c.1))
  | inr (q, (r, found, e)) ↦
      subst (λ x. insert_at x.index x.key (map without_raw x.others) ≡ some (k ∷ keys)) e
        (rw (delete_back test keys r c.1 found) (ground (arith, c.0)))
]

pub revoke_back :
    (id : String) (keys : List ApiKeyRecord) (p : Place)
    → Clean keys
    → find_key (is_live id) keys ≡ some p
    → change_at p.index
        (set_revoked false)
        (map without_raw (change_first (is_live id) (set_revoked true) keys))
      ≡ some keys
unfolding find_key change_at change_first here behind
revoke_back id [] p c h = cc
revoke_back id (k ∷ keys) p c h = elim (found_cases (is_live id) k keys p h) [
  | inl (q, e) ↦
      subst
        (λ x.
          change_at x.index (set_revoked false)
            (map without_raw (change_first (is_live id) (set_revoked true) (k ∷ keys)))
          ≡ some (k ∷ keys))
        e (rw (q, map-Clean keys c.1) (ground (arith, c.0, q)))
  | inr (q, (r, found, e)) ↦
      subst
        (λ x.
          change_at x.index (set_revoked false)
            (map without_raw (change_first (is_live id) (set_revoked true) (k ∷ keys)))
          ≡ some (k ∷ keys))
        e (rw (q, revoke_back id keys r c.1 found) (ground (arith, c.0)))
]

pub update_back :
    (trim : String → String) (o : KeyUpdateOpts) (id : String) (keys : List ApiKeyRecord)
    (p : Place)
    → Clean keys
    → find_key (has_id id) keys ≡ some p
    → change_first
        (has_id id)
        (restore p.key)
        (map without_raw (change_first (has_id id) (apply_opts trim o) keys))
      ≡ keys
unfolding find_key change_first here behind apply_opts
update_back trim o id [] p c h = cc
update_back trim o id (k ∷ keys) p c h = elim (found_cases (has_id id) k keys p h) [
  | inl (q, e) ↦
      subst
        (λ x.
          change_first (has_id id) (restore x.key)
            (map without_raw (change_first (has_id id) (apply_opts trim o) (k ∷ keys)))
          ≡ k ∷ keys)
        e (rw (q, map-Clean keys c.1) (ground (arith, c.0, q)))
  | inr (q, (r, found, e)) ↦
      subst
        (λ x.
          change_first (has_id id) (restore x.key)
            (map without_raw (change_first (has_id id) (apply_opts trim o) (k ∷ keys)))
          ≡ k ∷ keys)
        e (rw (q, update_back trim o id keys r c.1 found) (ground (arith, c.0)))
]
