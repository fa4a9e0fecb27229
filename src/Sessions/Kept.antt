-- ===== src/Sessions/Kept.antt =====
-- Runs of the operations of internal/web/session_resolver.go on a store.
use m365_copilot2api_dsm.Prelude.{
  ℕ, ◌≡◌, sym, subst, none, some, String, List, [], ◌∷◌, str_eq, if◌then◌else◌, lookup, insert,
  insert-Distinct, lookup-empty, arith, eq_iff, inl, inr, Option-cases, if_both,
}
use m365_copilot2api_dsm.Sessions.Store.{
  SessionBinding, SessionResolver, reindex, drop_session, evict, open_session_resolver,
}
use m365_copilot2api_dsm.Sessions.Resolve.{Outside, Request, tenant_from_request, resolve}
use m365_copilot2api_dsm.Sessions.Bind.{
  Bound, bind, write, bound_history, bind_target, update_binding, new_binding, delete_session,
  unbind_by_conversation, lookup_for_tenant, marked,
}
use m365_copilot2api_dsm.Sessions.Names.{Plain}
use m365_copilot2api_dsm.Sessions.Targets.{
  named_sole, Sole-Others, Sole, insert-Others, update-Sole, reindex-Inv, reuse-Inv,
  bind_target-held,
}
use m365_copilot2api_dsm.Sessions.Choice.{by_explicit_id-held, resolve-Answers}
use m365_copilot2api_dsm.Sessions.Stored.{Inv, drop_session-Inv, drop_where-Inv, evict-Inv}

marked-Inv : (r : SessionResolver) → Inv r → Inv (marked r)
marked-Inv r v = record { distinct = v.distinct; keyed = v.keyed; plain = v.plain; named = v.named }

write_over-Inv :
    (o : Outside) (r : SessionResolver) (b : Bound) (q : Request) (now : ℕ) (k : String)
    (s : SessionBinding)
    → Inv r
    → Plain (tenant_from_request o q)
    → bind_target r (tenant_from_request o q) q.explicit_id b.conversation_id ≡ some (k, s)
    → Inv (write o r b q now (some (k, s)))
unfolding write
write_over-Inv o r b q now k s v plain target =
    let history = bound_history o q b.assistant_text in
    let u = update_binding o q now b.conversation_id b.account_id history s in
    let (held, mine) =
      bind_target-held r (tenant_from_request o q) q.explicit_id b.conversation_id k s v target in
    let id : u.session_id ≡ k = unfold update_binding in v.keyed k s held in
    let others = Sole-Others r u v (update-Sole o r b q now k s history v plain held mine target) in
    marked-Inv _ (
      subst (λ j. Inv (reindex (record r { sessions = insert j u r.sessions }) u)) id
        (reindex-Inv (record r { sessions = insert u.session_id u r.sessions }) u
          (insert-Distinct u.session_id u r.sessions v.distinct) (unfold update_binding in plain)
          (insert-Others r u others)))

write_new-Inv :
    (o : Outside) (r : SessionResolver) (b : Bound) (q : Request) (now : ℕ)
    → Inv r
    → Plain (tenant_from_request o q)
    → bind_target r (tenant_from_request o q) q.explicit_id b.conversation_id ≡ none
    → Inv (write o r b q now none)
unfolding write
write_new-Inv o r b q now v plain target =
    let id = if str_eq b.session_id "" then b.fresh_id else b.session_id in
    let u =
      new_binding o q now id b.conversation_id b.account_id (bound_history o q b.assistant_text) in
    let sole : Sole r u =
      unfold new_binding in
      λ k t held nt ns same. absurd (
        cc (
          target,
          named_sole r (tenant_from_request o q) q.explicit_id b.conversation_id k t v plain ns held
              nt same,
        )) in
    marked-Inv _ (reindex-Inv r u v.distinct (unfold new_binding in plain) (Sole-Others r u v sole))

pub bind-Inv :
    (o : Outside) (r : SessionResolver) (b : Bound) (q : Request) (now : ℕ)
    → Plain (tenant_from_request o q)
    → Inv r
    → Inv (bind o r b q now)
unfolding bind
bind-Inv o r b q now plain v =
    let e = evict r now in
    let w = evict-Inv r now v in
    elim (Option-cases (bind_target e (tenant_from_request o q) q.explicit_id b.conversation_id)) [
      | inl h ↦ rw h (write_new-Inv o e b q now w plain h)
      | inr ((k, s), h) ↦ rw h (write_over-Inv o e b q now k s w plain h)
    ]

pub resolve-Inv :
    (o : Outside) (r : SessionResolver) (q : Request) (now : ℕ) → Inv r → Inv (resolve o r q now).0
resolve-Inv o r q now v =
    let w = evict-Inv r now v in
    elim (resolve-Answers o r q now w.distinct) [
      | inl e ↦ rw e w
      | inr u ↦ rw (u.answer) (reuse-Inv (evict r now) u.id u.session now u.n u.by u.held w)
    ]

pub lookup_for_tenant-held :
    (r : SessionResolver) (tenant id k : String) (s : SessionBinding)
    → lookup_for_tenant r tenant id ≡ some (k, s)
    → (lookup k r.sessions ≡ some s) × (s.tenant ≡ tenant)
unfolding lookup_for_tenant
lookup_for_tenant-held r tenant id k s h =
    ground (arith, h, by_explicit_id-held r tenant id k s, eq_iff s.tenant tenant)

delete_session-Inv :
    (r : SessionResolver) (tenant id : String) → Inv r → Inv (delete_session r tenant id).0
unfolding delete_session
delete_session-Inv r tenant id v = elim (Option-cases (lookup_for_tenant r tenant id)) [
  | inl h ↦ rw h v
  | inr ((k, s), h) ↦ rw h (
      let (held, mine) = lookup_for_tenant-held r tenant id k s h in
      marked-Inv _ (
        subst (λ j. Inv (drop_session r j s)) (sym (v.keyed k s held))
          (drop_session-Inv r k s held v)))
]

unbind-Inv :
    (r : SessionResolver) (conversation : String)
    → Inv r
    → Inv (unbind_by_conversation r conversation).0
unfolding unbind_by_conversation
unbind-Inv r conversation v =
    let w = drop_where-Inv (λ s. str_eq s.conversation_id conversation) r v in
    if_both Inv _ (marked-Inv _ w) w

-- What may happen to a store: its operations, in any order.
pub data Operation : Type 0 where
  resolves : Request → ℕ → Operation
  binds : Bound → Request → ℕ → Operation
  deletes : String → String → Operation
  unbinds : String → Operation

unfoldable pub after : Outside → SessionResolver → Operation → SessionResolver
after o r (resolves q now) = (resolve o r q now).0
after o r (binds b q now) = bind o r b q now
after o r (deletes tenant id) = (delete_session r tenant id).0
after o r (unbinds conversation) = (unbind_by_conversation r conversation).0

unfoldable pub run : Outside → SessionResolver → List Operation → SessionResolver
unfolding after
run o r [] = r
run o r (p ∷ ps) = run o (after o r p) ps

tenant-Plain :
    (o : Outside) (q : Request)
    → ((key : String) → Plain (o.key_hash key))
    → Plain (tenant_from_request o q)
unfolding tenant_from_request Plain
tenant-Plain o q hash = if_both Plain (str_eq q.raw_key "") tt (hash q.raw_key)

pub after-Inv :
    (o : Outside) (r : SessionResolver) (p : Operation)
    → ((key : String) → Plain (o.key_hash key))
    → Inv r
    → Inv (after o r p)
unfolding after
after-Inv o r (resolves q now) hash v = resolve-Inv o r q now v
after-Inv o r (binds b q now) hash v = bind-Inv o r b q now (tenant-Plain o q hash) v
after-Inv o r (deletes tenant id) hash v = delete_session-Inv r tenant id v
after-Inv o r (unbinds conversation) hash v = unbind-Inv r conversation v

-- Where no hash of a key has a NUL, every run of the operations keeps the invariant: no two entries of
-- the map have one id, each session stands under its own id, and a session that has a name is the one
-- to which the tenant and the name lead, so that no other session of any tenant has them.
pub run-Inv :
    (o : Outside) (r : SessionResolver) (ps : List Operation)
    → ((key : String) → Plain (o.key_hash key))
    → Inv r
    → Inv (run o r ps)
unfolding run
run-Inv o r [] hash v = v
run-Inv o r (p ∷ ps) hash v = run-Inv o (after o r p) ps hash (after-Inv o r p hash v)

pub open-Inv : (ttl context : ℕ) → Inv (open_session_resolver ttl context)
unfolding open_session_resolver
open-Inv ttl context = record {
  distinct = tt;
  keyed = λ k s h. cc (h, lookup-empty k);
  plain = λ k s h. absurd (cc (h, lookup-empty k));
  named = λ k s h ne. cc (h, lookup-empty k);
}
