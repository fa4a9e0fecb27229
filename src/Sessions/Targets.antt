-- ===== src/Sessions/Targets.antt =====
-- The session that `Bind` of internal/web/session_resolver.go writes over or stores.
use m365_copilot2api_dsm.Prelude.{
  ℕ, ◌≡◌, ◌≢◌, refl, sym, ap, subst, ◌∙◌, false, some, String, List, [], ◌∷◌, str_eq, if◌then◌else◌,
  Dict, lookup, insert, Distinct, insert-Distinct, lookup-insert, arith, eq_iff, eq_refl, str_ne,
  differs, str_eq_cases, inl, inr, ◌⊎◌, Bool-cases, ◌&&◌,
}
use m365_copilot2api_dsm.Sessions.Store.{
  OaiMsg, SessionBinding, SessionResolver, explicit_key, reindex,
}
use m365_copilot2api_dsm.Sessions.Resolve.{
  by_explicit_id, Outside, Request, tenant_from_request, reuse, MatchedBy,
}
use m365_copilot2api_dsm.Sessions.Bind.{Bound, bind_target, find_conversation, update_binding}
use m365_copilot2api_dsm.Sessions.Names.{Plain, explicit_key-injective}
use m365_copilot2api_dsm.Sessions.Choice.{by_explicit_id-held}
use m365_copilot2api_dsm.Sessions.Stored.{Inv}

-- A session that has a tenant's name is the one that the name finds.
named_by :
    (r : SessionResolver) (tenant x k : String) (s : SessionBinding)
    → Inv r
    → Plain tenant
    → lookup k r.sessions ≡ some s
    → s.explicit_id ≢ ""
    → explicit_key tenant x ≡ explicit_key s.tenant s.explicit_id
    → by_explicit_id r tenant x ≡ some (k, s)
unfolding by_explicit_id
named_by r tenant x k s v p held ne same =
    let tenants =
      (explicit_key-injective tenant s.tenant x s.explicit_id p (v.plain k s held) same).0 in
    rw (same, v.named k s held ne, held, tenants, eq_refl s.tenant) refl

pub find_conversation-held :
    (tenant conversation k : String) (s : SessionBinding) (d : Dict SessionBinding)
    → Distinct d
    → find_conversation tenant conversation d ≡ some (k, s)
    → (lookup k d ≡ some s) × (s.tenant ≡ tenant)
unfolding find_conversation lookup
find_conversation-held tenant conversation k s [] distinct h = cc
find_conversation-held tenant conversation k s ((j, t) ∷ d) distinct h =
    elim (Bool-cases (str_eq t.tenant tenant && str_eq t.conversation_id conversation)) [
      | inl q ↦ ground (arith, h, q, eq_refl j, eq_iff t.tenant tenant)
      | inr q ↦
          let (held, mine) = find_conversation-held tenant conversation k s d distinct.1 (
            subst
              (λ b.
                (if b then some (j, t) else find_conversation tenant conversation d) ≡ some (k, s))
              q h) in
          (ground (arith, held, distinct.0, eq_iff j k), mine)
    ]

pub bind_target-held :
    (r : SessionResolver) (tenant x conversation k : String) (s : SessionBinding)
    → Inv r
    → bind_target r tenant x conversation ≡ some (k, s)
    → (lookup k r.sessions ≡ some s) × (s.tenant ≡ tenant)
unfolding bind_target
bind_target-held r tenant x conversation k s v h = ground (
  arith,
  h,
  by_explicit_id-held r tenant x k s,
  find_conversation-held tenant conversation k s r.sessions v.distinct,
)

named_target :
    (r : SessionResolver) (tenant x conversation k : String) (s : SessionBinding)
    → x ≢ ""
    → by_explicit_id r tenant x ≡ some (k, s)
    → bind_target r tenant x conversation ≡ some (k, s)
unfolding bind_target
named_target r tenant x conversation k s ne h = rw (str_ne x "" ne, h) refl

-- What a write needs of the other sessions.
abbrev pub Others : SessionResolver → SessionBinding → Type 0
Others r s =
    (k : String) (t : SessionBinding)
    → str_eq s.session_id k ≡ false
    → lookup k r.sessions ≡ some t
    → (t.session_id ≡ k)
      × Plain t.tenant
      × (t.explicit_id ≢ ""
          → (lookup (explicit_key t.tenant t.explicit_id) r.by_explicit ≡ some k)
            × (s.explicit_id ≢ ""
                → explicit_key s.tenant s.explicit_id ≢ explicit_key t.tenant t.explicit_id))

pub lookup_written :
    (k id : String) (s t : SessionBinding) (d : Dict SessionBinding)
    → lookup k (insert id s d) ≡ some t
    → ((id ≡ k) × (s ≡ t)) ⊎ ((str_eq id k ≡ false) × (lookup k d ≡ some t))
lookup_written k id s t d h = ground (arith, h, lookup-insert id k s d, eq_iff id k)

reindex-named :
    (r : SessionResolver) (s : SessionBinding)
    → Others r s
    → (k : String) (t : SessionBinding) → lookup k (insert s.session_id s r.sessions) ≡ some t
    → t.explicit_id ≢ ""
    → lookup (explicit_key t.tenant t.explicit_id) (reindex r s).by_explicit ≡ some k
unfolding reindex
reindex-named r s others k t h ne = elim (lookup_written k s.session_id s t r.sessions h) [
  | inl (e, same) ↦ ground (
    arith,
    e,
    same,
    ne,
    lookup-insert (explicit_key s.tenant s.explicit_id) (explicit_key t.tenant t.explicit_id)
        s.session_id r.by_explicit,
    eq_refl (explicit_key s.tenant s.explicit_id),
    eq_iff s.explicit_id "",
  )
  | inr (q, held) ↦
      let (mapped, apart) = (others k t q held).2 ne in
      elim (str_eq_cases s.explicit_id "") [
        | inl e ↦ rw e mapped
        | inr (p, ns) ↦ rw p (
            lookup-insert (explicit_key s.tenant s.explicit_id)
              (explicit_key t.tenant t.explicit_id) s.session_id r.by_explicit
            ∙ rw (str_ne _ _ (apart ns)) mapped)
      ]
]

pub reindex-Inv :
    (r : SessionResolver) (s : SessionBinding)
    → Distinct r.sessions
    → Plain s.tenant
    → Others r s
    → Inv (reindex r s)
reindex-Inv r s distinct plain others = record {
  distinct = unfold reindex in insert-Distinct s.session_id s r.sessions distinct;
  keyed = λ k t h. elim (lookup_written k s.session_id s t r.sessions (unfold reindex in h)) [
    | inl (e, same) ↦ rw (sym same) e
    | inr (q, held) ↦ (others k t q held).0
  ];
  plain = λ k t h. elim (lookup_written k s.session_id s t r.sessions (unfold reindex in h)) [
    | inl (e, same) ↦ subst (λ u. Plain u.tenant) same plain
    | inr (q, held) ↦ (others k t q held).1
  ];
  named = λ k t h. reindex-named r s others k t (unfold reindex in h);
}

pub reuse-Inv :
    (r : SessionResolver) (id : String) (s : SessionBinding) (now n : ℕ) (by : MatchedBy)
    → lookup id r.sessions ≡ some s
    → Inv r
    → Inv (reuse r id s now by n).0
unfolding reuse
reuse-Inv r id s now n by held v =
    let fresh : SessionBinding = record s { last_used_at = now } in
    record {
      distinct = insert-Distinct id fresh r.sessions v.distinct;
      keyed = λ k t h. elim (lookup_written k id fresh t r.sessions h) [
        | inl (e, same) ↦ ap (λ u. u.session_id) (sym same) ∙ v.keyed id s held ∙ e
        | inr (q, old) ↦ v.keyed k t old
      ];
      plain = λ k t h. elim (lookup_written k id fresh t r.sessions h) [
        | inl (e, same) ↦ subst (λ u. Plain u.tenant) same (v.plain id s held)
        | inr (q, old) ↦ v.plain k t old
      ];
      named = λ k t h ne. elim (lookup_written k id fresh t r.sessions h) [
        | inl (e, same) ↦
            let mapped = v.named id s held (subst (λ u. u.explicit_id ≢ "") (sym same) ne) in
            subst (λ u. lookup (explicit_key u.tenant u.explicit_id) r.by_explicit ≡ some k) same
              (mapped ∙ ap some e)
        | inr (q, old) ↦ v.named k t old ne
      ];
    }

-- At most the session `id` has the name of the written one.
abbrev pub Sole : SessionResolver → SessionBinding → Type 0
Sole r s =
    (k : String) (t : SessionBinding)
    → lookup k r.sessions ≡ some t
    → t.explicit_id ≢ ""
    → s.explicit_id ≢ ""
    → explicit_key s.tenant s.explicit_id ≡ explicit_key t.tenant t.explicit_id
    → s.session_id ≡ k

pub Sole-Others : (r : SessionResolver) (s : SessionBinding) → Inv r → Sole r s → Others r s
Sole-Others r s v sole k t q held = (
  v.keyed k t held,
  v.plain k t held,
  λ ne. (
    v.named k t held ne,
    λ ns same. ground (arith, q, sole k t held ne ns same, eq_iff s.session_id k),
  ),
)

pub insert-Others :
    (r : SessionResolver) (s : SessionBinding)
    → Others r s
    → Others (record r { sessions = insert s.session_id s r.sessions }) s
insert-Others r s others k t q held =
    others k t q (ground (arith, q, held, lookup-insert s.session_id k s r.sessions))

-- A name that `Bind` looks for leads it to the session that has it.
pub named_sole :
    (r : SessionResolver) (tenant x conversation k : String) (t : SessionBinding)
    → Inv r
    → Plain tenant
    → x ≢ ""
    → lookup k r.sessions ≡ some t
    → t.explicit_id ≢ ""
    → explicit_key tenant x ≡ explicit_key t.tenant t.explicit_id
    → bind_target r tenant x conversation ≡ some (k, t)
named_sole r tenant x conversation k t v plain ne held nt same =
    named_target r tenant x conversation k t ne (named_by r tenant x k t v plain held nt same)

pub update-Sole :
    (o : Outside) (r : SessionResolver) (b : Bound) (q : Request) (now : ℕ) (k : String)
    (s : SessionBinding) (history : List OaiMsg)
    → Inv r
    → Plain (tenant_from_request o q)
    → lookup k r.sessions ≡ some s
    → s.tenant ≡ tenant_from_request o q
    → bind_target r (tenant_from_request o q) q.explicit_id b.conversation_id ≡ some (k, s)
    → Sole r (update_binding o q now b.conversation_id b.account_id history s)
unfolding update_binding
update-Sole o r b q now k s history v plain held mine target j t found nt =
    elim (Bool-cases (str_eq q.explicit_id "")) [
      | inl p ↦ rw p λ ns same.
          let there = v.named k s held ns in
          let here = v.named j t found nt in v.keyed k s held ∙ cc (there, here, mine, same)
      | inr p ↦ rw p λ ns same.
          let other =
            named_sole r (tenant_from_request o q) q.explicit_id b.conversation_id j t v plain
              (differs q.explicit_id "" p) found nt same in
          v.keyed k s held ∙ cc (target, other)
    ]
