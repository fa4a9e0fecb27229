-- ===== src/Sessions/Isolation.antt =====
-- What one tenant may do to the sessions of another in internal/web/session_resolver.go, and what stays
-- in the indexes.
use mathlib.Core.Option.{map as option_map}
use m365_copilot2api_dsm.Prelude.{
  ◌≡◌, ◌≢◌, refl, sym, ap, ◌∙◌, some, String, arith, inl, inr, str_eq, lookup, lookup-delete,
  Option-cases, Bool-cases, eq_iff, str_ne,
}
use m365_copilot2api_dsm.Sessions.Store.{
  SessionBinding, SessionResolver, explicit_key, drop_session,
}
use m365_copilot2api_dsm.Sessions.Resolve.{by_explicit_id, owned}
use m365_copilot2api_dsm.Sessions.Bind.{lookup_for_tenant, get_session, delete_session}
use m365_copilot2api_dsm.Sessions.Names.{Plain, explicit_key-injective}
use m365_copilot2api_dsm.Sessions.Stored.{Inv}
use m365_copilot2api_dsm.Sessions.Kept.{lookup_for_tenant-held}

-- A session of one tenant goes, and another tenant looks for a session.
owned_left :
    (r : SessionResolver) (other id k : String) (s : SessionBinding)
    → lookup k r.sessions ≡ some s
    → s.tenant ≢ other
    → owned other id (lookup id (drop_session r k s).sessions)
      ≡ owned other id (lookup id r.sessions)
unfolding drop_session
owned_left r other id k s held ne = elim (Bool-cases (str_eq k id)) [
  | inl q ↦
      ground (arith, q, held, lookup-delete k id r.sessions, eq_iff k id, eq_iff s.tenant other)
  | inr q ↦ rw (lookup-delete k id r.sessions, q) refl
]

name_left :
    (r : SessionResolver) (other id k : String) (s : SessionBinding)
    → Plain s.tenant
    → Plain other
    → s.tenant ≢ other
    → lookup (explicit_key other id) (drop_session r k s).by_explicit
      ≡ lookup (explicit_key other id) r.by_explicit
unfolding drop_session
name_left r other id k s p p' ne = elim (Bool-cases (str_eq s.explicit_id "")) [
  | inl q ↦ rw q refl
  | inr q ↦ rw q (
      lookup-delete (explicit_key s.tenant s.explicit_id) (explicit_key other id) r.by_explicit
      ∙ rw (str_ne _ _ (λ e. ne (explicit_key-injective s.tenant other s.explicit_id id p p' e).0))
          refl)
]

lookup_left :
    (r : SessionResolver) (other id k : String) (s : SessionBinding)
    → Plain s.tenant
    → Plain other
    → lookup k r.sessions ≡ some s
    → s.tenant ≢ other
    → lookup_for_tenant (drop_session r k s) other id ≡ lookup_for_tenant r other id
unfolding lookup_for_tenant by_explicit_id
lookup_left r other id k s p p' held ne =
    rw (owned_left r other id k s held ne, name_left r other id k s p p' ne)
      (elim (Option-cases (lookup (explicit_key other id) r.by_explicit)) [
        | inl e ↦ rw e refl
        | inr (j, e) ↦ rw (e, owned_left r other j k s held ne) refl
      ])

-- A tenant that deletes a session, by its id or by its own name for it, changes nothing of what another
-- tenant finds, whatever that one asks for.
pub delete_session-isolated :
    (r : SessionResolver) (tenant other id asked : String)
    → Inv r
    → Plain other
    → tenant ≢ other
    → get_session (delete_session r tenant id).0 other asked ≡ get_session r other asked
unfolding delete_session get_session drop_session lookup_for_tenant by_explicit_id
delete_session-isolated r tenant other id asked v plain ne =
    elim (Option-cases (lookup_for_tenant r tenant id)) [
      | inl e ↦ rw e refl
      | inr ((k, s), e) ↦
          let (held, mine) = lookup_for_tenant-held r tenant id k s e in
          rw (e, v.keyed k s held)
            (ap (option_map (λ (x : String × SessionBinding). x.1)) (
              lookup_left r other asked k s (v.plain k s held) plain held
                (λ same. ne (sym mine ∙ same))))
    ]
