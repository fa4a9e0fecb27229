-- ===== src/Sessions/Stored.antt =====
-- What the stores of internal/web/session_resolver.go have in common.
use m365_copilot2api_dsm.Prelude.{
  ℕ, ◌≡◌, ◌≢◌, refl, Bool, true, false, none, some, String, List, [], ◌∷◌, str_eq, Dict, lookup,
  delete, Distinct, delete-Distinct, lookup-delete, arith, eq_iff, eq_refl, str_eq_cases, inl, inr,
  Bool-cases, Option-cases, if_both, value_or, length, ltb,
}
use m365_copilot2api_dsm.Sessions.Store.{
  SessionBinding, SessionResolver, explicit_key, drop_session, drop_where, drop_all, evict,
  drop_least_used, no_binding, is_older,
}
use m365_copilot2api_dsm.Sessions.Names.{Plain}

-- Each session stands under its id, and under the tenant's name for it where it has one.
pub record Inv (r : SessionResolver) : Type 0 where
  pub distinct : Distinct r.sessions
  pub keyed : (k : String) (s : SessionBinding) → lookup k r.sessions ≡ some s → s.session_id ≡ k
  pub plain : (k : String) (s : SessionBinding) → lookup k r.sessions ≡ some s → Plain s.tenant
  pub named :
      (k : String) (s : SessionBinding)
      → lookup k r.sessions ≡ some s
      → s.explicit_id ≢ ""
      → lookup (explicit_key s.tenant s.explicit_id) r.by_explicit ≡ some k

-- What is found in a map without one of its keys.
lookup_left :
    (k j : String) (d : Dict SessionBinding) (s : SessionBinding)
    → lookup k (delete j d) ≡ some s
    → (str_eq j k ≡ false) × (lookup k d ≡ some s)
lookup_left k j d s h = ground (arith, h, lookup-delete j k d)

key_kept :
    (entries : Dict String) (key gone j k : String)
    → lookup gone entries ≡ some j
    → lookup key entries ≡ some k
    → str_eq j k ≡ false
    → lookup key (delete gone entries) ≡ some k
key_kept entries key gone j k g h ne =
    ground (arith, g, h, ne, lookup-delete gone key entries, eq_iff gone key, eq_iff j k)

pub drop_session-Inv :
    (r : SessionResolver) (id : String) (s : SessionBinding)
    → lookup id r.sessions ≡ some s
    → Inv r
    → Inv (drop_session r id s)
unfolding drop_session
drop_session-Inv r id s held v = record {
  distinct = delete-Distinct id r.sessions v.distinct;
  keyed = λ k t h. v.keyed k t (lookup_left k id r.sessions t h).1;
  plain = λ k t h. v.plain k t (lookup_left k id r.sessions t h).1;
  named = λ k t h ne.
      let (other, left) = lookup_left k id r.sessions t h in
      elim (str_eq_cases s.explicit_id "") [
        | inl e ↦ rw (e) (v.named k t left ne)
        | inr (q, ns) ↦ rw q (
            key_kept r.by_explicit (explicit_key t.tenant t.explicit_id)
              (explicit_key s.tenant s.explicit_id) id k (v.named id s held ns)
              (v.named k t left ne) other)
      ];
}

-- The sessions of a list that goes, but for one that may have gone already.
abbrev pub AllHeld : Dict SessionBinding → Dict SessionBinding → Type 0
AllHeld [] d = Unit {0}
AllHeld ((k, s) ∷ rest) d = (lookup k d ≡ some s) × AllHeld rest d

AllHeld-cons :
    (k : String) (s : SessionBinding) (es d : Dict SessionBinding)
    → lookup k es ≡ none
    → AllHeld es d
    → AllHeld es ((k, s) ∷ d)
unfolding lookup
AllHeld-cons k s [] d n h = tt
AllHeld-cons k s ((j, t) ∷ es) d n h =
    (ground (arith, n, h.0, eq_iff k j, eq_iff j k), AllHeld-cons k s es d (ground (arith, n)) h.1)

pub AllHeld-self : (d : Dict SessionBinding) → Distinct d → AllHeld d d
unfolding lookup
AllHeld-self [] h = tt
AllHeld-self ((k, s) ∷ d) h = (rw (eq_refl k) refl, AllHeld-cons k s d d h.0 (AllHeld-self d h.1))

AllHeld-delete :
    (id : String) (es d : Dict SessionBinding)
    → lookup id es ≡ none
    → AllHeld es d
    → AllHeld es (delete id d)
unfolding lookup
AllHeld-delete id [] d n h = tt
AllHeld-delete id ((k, s) ∷ es) d n h = (
  ground (arith, n, h.0, lookup-delete id k d, eq_iff k id, eq_iff id k),
  AllHeld-delete id es d (ground (arith, n)) h.1,
)

-- What each drop keeps, the loop keeps.
pub drop_where-keeps {ℓ} :
    (P : SessionResolver → Type ℓ) (gone : SessionBinding → Bool)
    → ((r : SessionResolver) (id : String) (s : SessionBinding)
        → lookup id r.sessions ≡ some s
        → gone s ≡ true
        → P r
        → P (drop_session r id s))
    → (es : Dict SessionBinding) (r : SessionResolver) → Distinct es
    → AllHeld es r.sessions
    → P r
    → P (drop_where gone es r)
unfolding drop_where
drop_where-keeps P gone keep [] r distinct held p = p
drop_where-keeps P gone keep ((id, s) ∷ es) r distinct held p = elim (Bool-cases (gone s)) [
  | inl q ↦ rw q (
      drop_where-keeps P gone keep es (drop_session r id s) distinct.1
        (unfold drop_session in AllHeld-delete id es r.sessions distinct.0 held.1)
        (keep r id s held.0 q p))
  | inr q ↦ rw q (drop_where-keeps P gone keep es r distinct.1 held.1 p)
]

pub drop_where-self {ℓ} :
    (P : SessionResolver → Type ℓ) (gone : SessionBinding → Bool)
    → ((r : SessionResolver) (id : String) (s : SessionBinding)
        → lookup id r.sessions ≡ some s
        → gone s ≡ true
        → P r
        → P (drop_session r id s))
    → (r : SessionResolver) → Distinct r.sessions
    → P r
    → P (drop_where gone r.sessions r)
drop_where-self P gone keep r distinct =
    drop_where-keeps P gone keep r.sessions r distinct (AllHeld-self r.sessions distinct)

drop_missing-Inv : (r : SessionResolver) (id : String) → Inv r → Inv (drop_session r id no_binding)
unfolding drop_session
drop_missing-Inv r id v = record {
  distinct = delete-Distinct id r.sessions v.distinct;
  keyed = λ k t h. v.keyed k t (lookup_left k id r.sessions t h).1;
  plain = λ k t h. v.plain k t (lookup_left k id r.sessions t h).1;
  named = λ k t h ne. v.named k t (lookup_left k id r.sessions t h).1 ne;
}

drop_found-Inv :
    (r : SessionResolver) (id : String)
    → Inv r
    → Inv (drop_session r id (value_or no_binding (lookup id r.sessions)))
drop_found-Inv r id v = elim (Option-cases (lookup id r.sessions)) [
  | inl e ↦ rw e (drop_missing-Inv r id v)
  | inr (s, e) ↦ rw e (drop_session-Inv r id s e v)
]

drop_all-Inv : (ids : List String) (r : SessionResolver) → Inv r → Inv (drop_all ids r)
unfolding drop_all
drop_all-Inv [] r v = v
drop_all-Inv (id ∷ ids) r v = drop_all-Inv ids _ (drop_found-Inv r id v)

pub drop_where-Inv :
    (gone : SessionBinding → Bool) (r : SessionResolver)
    → Inv r
    → Inv (drop_where gone r.sessions r)
drop_where-Inv gone r v =
    drop_where-self Inv gone (λ d id s held q w. drop_session-Inv d id s held w) r v.distinct v

pub drop_least_used-Inv : (r : SessionResolver) → Inv r → Inv (drop_least_used r)
unfolding drop_least_used
drop_least_used-Inv r v =
    if_both Inv (ltb r.max_sessions (length r.sessions)) (drop_all-Inv _ r v) v

pub evict-Inv : (r : SessionResolver) (now : ℕ) → Inv r → Inv (evict r now)
unfolding evict
evict-Inv r now v = drop_least_used-Inv _ (drop_where-Inv (is_older now r.ttl) r v)
