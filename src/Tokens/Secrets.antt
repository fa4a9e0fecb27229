-- ===== src/Tokens/Secrets.antt =====
-- The refresh tokens that internal/auth/cache.go writes and reads.
use Prim.Native.String.{◌++◌ as join}
use text.Mathlib.TextLemmas.{nil-append, cons-append}
use m365_copilot2api_dsm.Prelude.{
  ℕ, suc, ◌≡◌, ◌≢◌, ◌⊎◌, refl, sym, ap, subst, ◌∙◌, Bool, true, false, Option, none, some, String,
  List, [], ◌∷◌, map, str_eq, if◌then◌else◌, arith, inl, inr, Bool-cases, Option-cases, eq_iff,
  str_ne,
}
use m365_copilot2api_dsm.Tokens.Store.{
  AccountToken, Saving, TokenStore, with_token, prepend, encrypt_accounts, saved, unsaved,
  write_file, save, loaded, open_store,
}
use m365_copilot2api_dsm.Tokens.Sealing.{
  Cipher, strip, enc_prefix, is_encrypted, sealed, encrypt_refresh_token, unsealed,
  decrypt_refresh_token,
}

strip-join : (p s : String) → strip p (join p s) ≡ some s
unfolding strip
strip-join String.[] s = ap some (nil-append s)
strip-join (String.◌∷◌ c p) s =
    ap (strip (String.◌∷◌ c p)) (cons-append c p s) ∙ ground (arith, strip-join p s)

-- What the cipher opens is what it was given.
unfoldable pub Opens : Cipher → Type 0
Opens c = (nonce plain : String) → c.unseal (c.seal nonce plain) ≡ some plain

sealed_ne : (x : String) → join enc_prefix x ≢ ""
sealed_ne x e = cc (sym (strip-join enc_prefix x) ∙ ap (strip enc_prefix) e, none_there)
  where
    none_there : strip enc_prefix "" ≡ none
    none_there = unfold strip in refl

-- A token that is encrypted and written is read back.
pub decrypt-encrypt :
    (c : Cipher) (nonce : Option String) (plain enc : String)
    → Opens c
    → is_encrypted plain ≡ false
    → encrypt_refresh_token c nonce plain ≡ some enc
    → decrypt_refresh_token c enc ≡ some plain
unfolding encrypt_refresh_token decrypt_refresh_token Opens
decrypt-encrypt c nonce plain enc opens open_text h = elim (Bool-cases (str_eq plain "")) [
  | inl q ↦
      let e : some "" ≡ some enc =
        subst
          (λ b.
            (if b then some "" else if is_encrypted plain then some plain else sealed c plain nonce)
            ≡ some enc)
          q h in
      let blank : "" ≡ enc = cc e in rw (sym blank) (ap some (sym ((eq_iff plain "").0 q)))
  | inr q ↦ elim (Option-cases nonce) [
    | inl n ↦ absurd (cc (h, branch q (ap (sealed c plain) n)))
    | inr (x, n) ↦
        let e : some (join enc_prefix (c.seal x plain)) ≡ some enc =
          sym (branch q (ap (sealed c plain) n)) ∙ h in
        let same : join enc_prefix (c.seal x plain) ≡ enc = cc e in
        subst
          (λ t. (if str_eq t "" then some "" else unsealed c t (strip enc_prefix t)) ≡ some plain)
          same
          (rw
            (
              str_ne (join enc_prefix (c.seal x plain)) "" (sealed_ne (c.seal x plain)),
              strip-join enc_prefix (c.seal x plain),
            )
            (opens x plain))
  ]
]
  where
    branch :
        str_eq plain "" ≡ false
        → {o : Option String} → sealed c plain nonce ≡ o
        → (if str_eq plain ""
            then some ""
            else if is_encrypted plain
            then some plain
            else sealed c plain nonce)
          ≡ o
    branch q e = rw (q, open_text) e

prepend-some :
    (x : Option AccountToken) (rest : Option (List AccountToken)) (enc : List AccountToken)
    → prepend x rest ≡ some enc
    → (a : AccountToken) × (others : List AccountToken) × (x ≡ some a)
      × (rest ≡ some others)
      × (enc ≡ a ∷ others)
prepend-some none rest enc h = cc
prepend-some (some a) none enc h = cc
prepend-some (some a) (some others) enc h = (a, others, refl, refl, cc h)

-- An account with its two ids, and a token that does not look like an encrypted one.
abbrev pub Whole : AccountToken → Type 0
Whole a = (a.id ≢ "") × (a.oid ≢ "") × (is_encrypted a.refresh_token ≡ false)

abbrev pub AllWhole : List AccountToken → Type 0
AllWhole [] = Unit {0}
AllWhole (a ∷ accounts) = Whole a × AllWhole accounts

-- No token is there but encrypted.
abbrev pub Covered : List AccountToken → Type 0
Covered [] = Unit {0}
Covered (a ∷ accounts) =
    ((a.refresh_token ≡ "") ⊎ (is_encrypted a.refresh_token ≡ true)) × Covered accounts

-- The account of the file.
written_account : Cipher → Option String → AccountToken → Option AccountToken
written_account c nonce a =
    if str_eq a.refresh_token ""
    then some a
    else with_token a (encrypt_refresh_token c nonce a.refresh_token)

with_token-some :
    (a b : AccountToken) (o : Option String)
    → with_token a o ≡ some b
    → (enc : String) × (o ≡ some enc) × (record a { refresh_token = enc } ≡ b)
with_token-some a b none h = cc
with_token-some a b (some enc) h = (enc, refl, cc h)

loaded_whole :
    (c : Cipher) (a : AccountToken) (enc : String)
    → a.id ≢ ""
    → a.oid ≢ ""
    → decrypt_refresh_token c enc ≡ some a.refresh_token
    → loaded c (record a { refresh_token = enc }) ≡ a
loaded_whole c a enc id oid h = rw (h, str_ne a.oid "" oid, str_ne a.id "" id) refl

encrypted_covered :
    (c : Cipher) (nonce : Option String) (plain enc : String)
    → encrypt_refresh_token c nonce plain ≡ some enc
    → is_encrypted plain ≡ false
    → (enc ≡ "") ⊎ (is_encrypted enc ≡ true)
unfolding encrypt_refresh_token is_encrypted
encrypted_covered c none plain enc h open_text = ground (arith, h, open_text)
encrypted_covered c (some nonce) plain enc h open_text =
    ground (arith, h, open_text, strip-join enc_prefix (c.seal nonce plain))

written_back :
    (c : Cipher) (nonce : Option String) (a b : AccountToken)
    → Opens c
    → Whole a
    → written_account c nonce a ≡ some b
    → (loaded c b ≡ a) × ((b.refresh_token ≡ "") ⊎ (is_encrypted b.refresh_token ≡ true))
unfolding written_account
written_back c nonce a b opens (id, oid, open_text) h =
    elim (Bool-cases (str_eq a.refresh_token "")) [
      | inl q ↦
          let e = (eq_iff a.refresh_token "").0 q in
          let same : a ≡ b = ground (arith, h, q) in
          (
            subst (λ x. loaded c x ≡ a) same
                (loaded_whole c a a.refresh_token id oid
                  (unfold decrypt_refresh_token in rw q (ap some (sym e)))),
            inl (subst (λ x. x.refresh_token ≡ "") same e),
          )
      | inr q ↦
          let (enc, made, same) =
            with_token-some a b (encrypt_refresh_token c nonce a.refresh_token) (
              subst
                (λ t.
                  (if t
                    then some a
                    else with_token a (encrypt_refresh_token c nonce a.refresh_token))
                  ≡ some b)
                q h) in
          (
            subst (λ x. loaded c x ≡ a) same
                (loaded_whole c a enc id oid
                  (decrypt-encrypt c nonce a.refresh_token enc opens open_text made)),
            subst (λ x. (x.refresh_token ≡ "") ⊎ (is_encrypted x.refresh_token ≡ true)) same
                (encrypted_covered c nonce a.refresh_token enc made open_text),
          )
    ]

accounts_back :
    (c : Cipher) (nonce : ℕ → Option String) (i : ℕ) (accounts enc : List AccountToken)
    → Opens c
    → AllWhole accounts
    → encrypt_accounts c nonce i accounts ≡ some enc
    → (map (loaded c) enc ≡ accounts) × Covered enc
unfolding encrypt_accounts written_account
accounts_back c nonce i [] enc opens whole h =
    let empty : [] ≡ enc = cc h in
    (subst (λ l. map (loaded c) l ≡ []) empty refl, subst Covered empty tt)
accounts_back c nonce i (a ∷ accounts) enc opens (this, whole) h =
    let (b, others, first, rest, same) =
      prepend-some (written_account c (nonce i) a) (encrypt_accounts c nonce (suc i) accounts) enc
        h in
    let (back, cover) = written_back c (nonce i) a b opens this first in
    let (all_back, all_cover) = accounts_back c nonce (suc i) accounts others opens whole rest in
    (
      subst (λ l. map (loaded c) l ≡ a ∷ accounts) (sym same) (cc (back, all_back)),
      subst Covered (sym same) (cover, all_cover),
    )

-- A store that is saved and opened again has the same accounts with the same tokens, in order, and in the
-- file no refresh token stands but encrypted: where the cipher opens what it sealed, each account has
-- its two ids, and no token begins like an encrypted one.
pub open_store-save :
    (c : Cipher) (d : Saving) (s : TokenStore)
    → Opens c
    → AllWhole s.accounts
    → (save c d s).1 ≡ saved
    → ((open_store c (save c d s).0.disk).accounts ≡ s.accounts) × Covered (save c d s).0.disk
unfolding save open_store
open_store-save c d s opens whole h =
    elim (Option-cases (encrypt_accounts c d.nonce 0 s.accounts)) [
      | inl e ↦ absurd (cc (h, unsaved_none d.written))
      | inr (enc, e) ↦ elim (Bool-cases d.written) [
        | inl w ↦ rw (w, e) (accounts_back c d.nonce 0 s.accounts enc opens whole e)
        | inr w ↦ absurd (cc (h, w))
      ]
    ]
  where
    unsaved_none : (b : Bool) → (write_file b s none).1 ≡ unsaved
    unsaved_none true = refl
    unsaved_none false = refl
