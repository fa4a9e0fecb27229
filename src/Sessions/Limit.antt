-- ===== src/Sessions/Limit.antt =====
-- The limit of sessions of internal/web/session_resolver.go over runs of the operations.
use m365_copilot2api_dsm.Prelude.{
  ℕ, suc, ◌+◌, ◌≤◌, ◌≡◌, refl, subst, true, false, ◌++◌, Bool, Option, none, some, String, List, [],
  ◌∷◌, if◌then◌else◌, arith, inl, inr, length, str_eq, Dict, lookup, insert, length-delete-le,
  length-insert-le, length-insert_old, if_both, Option-cases,
}
use m365_copilot2api_dsm.Sessions.Store.{
  SessionBinding, SessionResolver, reindex, drop_session, drop_where, drop_all, evict,
  drop_least_used, is_older, load, open_session_resolver, default_max_sessions,
}
use m365_copilot2api_dsm.Sessions.Resolve.{
  Outside, Request, MatchedBy, reuse, resolve, tenant_from_request,
}
use m365_copilot2api_dsm.Sessions.Bind.{
  Bound, bind, write, bind_target, marked, delete_session, lookup_for_tenant,
  unbind_by_conversation, new_binding, update_binding, bound_history,
}
use m365_copilot2api_dsm.Sessions.Names.{Plain}
use m365_copilot2api_dsm.Sessions.Stored.{Inv, drop_where-Inv, evict-Inv}
use m365_copilot2api_dsm.Sessions.Choice.{resolve-Answers}
use m365_copilot2api_dsm.Sessions.Size.{drop_least_used-le}
use m365_copilot2api_dsm.Sessions.Kept.{
  Operation, resolves, binds, deletes, unbinds, after, run, after-Inv,
}
use m365_copilot2api_dsm.Sessions.Loaded.{Saved, loaded-Inv, loaded-limit}
use m365_copilot2api_dsm.Sessions.Targets.{bind_target-held}

-- A limit, and a number of sessions.
pub record Holds (m n : ℕ) (r : SessionResolver) : Type 0 where
  pub limit : r.max_sessions ≡ m
  pub size : length r.sessions ≤ n

drop_session-Holds :
    (m n : ℕ) (r : SessionResolver) (id : String) (s : SessionBinding)
    → Holds m n r
    → Holds m n (drop_session r id s)
unfolding drop_session
drop_session-Holds m n r id s h = record {
  limit = h.limit;
  size = omega (arith, h.size, length-delete-le id r.sessions);
}

pub drop_where-Holds :
    (m n : ℕ) (gone : SessionBinding → Bool) (es : Dict SessionBinding) (r : SessionResolver)
    → Holds m n r
    → Holds m n (drop_where gone es r)
unfolding drop_where
drop_where-Holds m n gone [] r h = h
drop_where-Holds m n gone ((id, s) ∷ es) r h =
    drop_where-Holds m n gone es _
      (if_both (Holds m n) (gone s) (drop_session-Holds m n r id s h) h)

drop_all-Holds :
    (m n : ℕ) (ids : List String) (r : SessionResolver) → Holds m n r → Holds m n (drop_all ids r)
unfolding drop_all
drop_all-Holds m n [] r h = h
drop_all-Holds m n (id ∷ ids) r h = drop_all-Holds m n ids _ (drop_session-Holds m n r id _ h)

drop_least_used-Holds :
    (m n : ℕ) (r : SessionResolver) → Holds m n r → Holds m n (drop_least_used r)
unfolding drop_least_used
drop_least_used-Holds m n r h = if_both (Holds m n) _ (drop_all-Holds m n _ r h) h

-- An eviction leaves at most as many sessions as the limit says.
pub evict-Holds :
    (m n : ℕ) (r : SessionResolver) (now : ℕ) → Inv r → Holds m n r → Holds m m (evict r now)
unfolding evict
evict-Holds m n r now v h =
    let kept = drop_where (is_older now r.ttl) r.sessions r in
    let held = drop_where-Holds m n (is_older now r.ttl) r.sessions r h in
    let w = drop_where-Inv (is_older now r.ttl) r v in
    record {
      limit = (drop_least_used-Holds m n kept held).limit;
      size = omega (arith, drop_least_used-le kept w.distinct, held.limit);
    }

reuse-Holds :
    (m n : ℕ) (r : SessionResolver) (id : String) (s : SessionBinding) (now k : ℕ) (by : MatchedBy)
    → lookup id r.sessions ≡ some s
    → Holds m n r
    → Holds m n (reuse r id s now by k).0
unfolding reuse
reuse-Holds m n r id s now k by held h = record {
  limit = h.limit;
  size = omega (
    arith,
    h.size,
    length-insert_old id (record s { last_used_at = now }) r.sessions (λ e. cc (e, held)),
  );
}

resolve-Holds :
    (m n : ℕ) (o : Outside) (r : SessionResolver) (q : Request) (now : ℕ)
    → Inv r
    → Holds m n r
    → Holds m m (resolve o r q now).0
resolve-Holds m n o r q now v h =
    let w = evict-Inv r now v in
    let e = evict-Holds m n r now v h in
    elim (resolve-Answers o r q now w.distinct) [
      | inl x ↦ rw x e
      | inr u ↦ rw (u.answer) (reuse-Holds m m (evict r now) u.id u.session now u.n u.by u.held e)
    ]

write-Holds :
    (m n : ℕ) (o : Outside) (r : SessionResolver) (b : Bound) (q : Request) (now : ℕ)
    (target : Option (String × SessionBinding))
    → ((k : String) (s : SessionBinding) → target ≡ some (k, s) → lookup k r.sessions ≡ some s)
    → Holds m n r
    → Holds m (suc n) (write o r b q now target)
unfolding write reindex
write-Holds m n o r b q now none held h =
    let id = if str_eq b.session_id "" then b.fresh_id else b.session_id in
    let s =
      new_binding o q now id b.conversation_id b.account_id (bound_history o q b.assistant_text) in
    record {
      limit = h.limit;
      size = omega (arith, h.size, length-insert-le s.session_id s r.sessions);
    }
write-Holds m n o r b q now (some (k, s)) held h =
    let u =
      update_binding o q now b.conversation_id b.account_id (bound_history o q b.assistant_text)
        s in
    record {
      limit = h.limit;
      size = omega (
        arith,
        h.size,
        length-insert-le u.session_id u (insert k u r.sessions),
        length-insert_old k u r.sessions (λ e. cc (e, held k s refl)),
      );
    }

bind-Holds :
    (m n : ℕ) (o : Outside) (r : SessionResolver) (b : Bound) (q : Request) (now : ℕ)
    → Inv r
    → Holds m n r
    → Holds m (suc m) (bind o r b q now)
unfolding bind
bind-Holds m n o r b q now v h =
    let e = evict r now in
    write-Holds m m o e b q now
      (bind_target e (tenant_from_request o q) q.explicit_id b.conversation_id)
      (λ k s found.
        (bind_target-held e (tenant_from_request o q) q.explicit_id b.conversation_id k s
          (evict-Inv r now v) found).0)
      (evict-Holds m n r now v h)

widen : (m n k : ℕ) (r : SessionResolver) → n ≤ k → Holds m n r → Holds m k r
widen m n k r le h = record { limit = h.limit; size = omega (arith, le, h.size) }

marked-Holds : (m n : ℕ) (r : SessionResolver) → Holds m n r → Holds m n (marked r)
marked-Holds m n r h = record { limit = h.limit; size = h.size }

delete_session-Holds :
    (m n : ℕ) (r : SessionResolver) (tenant id : String)
    → Holds m n r
    → Holds m n (delete_session r tenant id).0
unfolding delete_session
delete_session-Holds m n r tenant id h = elim (Option-cases (lookup_for_tenant r tenant id)) [
  | inl e ↦ rw e h
  | inr ((k, s), e) ↦
      rw e (
        marked-Holds m n (drop_session r s.session_id s)
          (drop_session-Holds m n r s.session_id s h))
]

-- A `Resolve` or a `Bind`, which evict first.
abbrev pub evicts : Operation → Bool
evicts (resolves q now) = true
evicts (binds b q now) = true
evicts _ = false

-- One operation: the limit stays, and 1001 sessions are enough if it evicts or they were before.
after-Holds :
    (m n : ℕ) (o : Outside) (r : SessionResolver) (p : Operation)
    → Inv r
    → Holds m n r
    → Holds m (if evicts p then suc m else n) (after o r p)
unfolding after unbind_by_conversation
after-Holds m n o r (resolves q now) v h =
    widen m m (suc m) _ (omega arith) (resolve-Holds m n o r q now v h)
after-Holds m n o r (binds b q now) v h = bind-Holds m n o r b q now v h
after-Holds m n o r (deletes tenant id) v h = delete_session-Holds m n r tenant id h
after-Holds m n o r (unbinds conversation) v h =
    let w = drop_where-Holds m n (λ s. str_eq s.conversation_id conversation) r.sessions r h in
    if_both (Holds m n) _ (marked-Holds m n _ w) w

run-Holds :
    (m : ℕ) (o : Outside) (r : SessionResolver) (ps : List Operation)
    → ((key : String) → Plain (o.key_hash key))
    → Inv r
    → Holds m (suc m) r
    → Holds m (suc m) (run o r ps)
unfolding run
run-Holds m o r [] hash v h = h
run-Holds m o r (p ∷ ps) hash v h =
    run-Holds m o (after o r p) ps hash (after-Inv o r p hash v)
      (widen m _ (suc m) _ (ground arith) (after-Holds m (suc m) o r p v h))

-- Operations that may evict nothing, then one that evicts, then any.
run_evicting-Holds :
    (m n : ℕ) (o : Outside) (r : SessionResolver) (before : List Operation) (p : Operation)
    (ps : List Operation)
    → ((key : String) → Plain (o.key_hash key))
    → evicts p ≡ true
    → Inv r
    → Holds m n r
    → Holds m (suc m) (run o r (before ++ p ∷ ps))
unfolding run
run_evicting-Holds m n o r [] p ps hash e v h =
    run-Holds m o (after o r p) ps hash (after-Inv o r p hash v)
      (subst (λ b. Holds m (if b then suc m else n) (after o r p)) e (after-Holds m n o r p v h))
run_evicting-Holds m n o r (b ∷ before) p ps hash e v h =
    run_evicting-Holds m _ o (after o r b) before p ps hash e (after-Inv o r b hash v)
      (after-Holds m n o r b v h)

-- However many sessions the file had when the store was opened, from the first `Resolve` or `Bind` on the
-- store never has more than 1001: the limit of 1000, which an eviction restores, and the one that `Bind`
-- adds after it. This is for any clock and settings, where no hash of a key has a NUL and the sessions
-- of the file are such as a store writes: with distinct ids and names and no NUL in a tenant.
pub sessions-bounded :
    (o : Outside) (held : List SessionBinding) (ttl context opened_at : ℕ) (before : List Operation)
    (p : Operation) (ps : List Operation)
    → ((key : String) → Plain (o.key_hash key))
    → Saved held
    → evicts p ≡ true
    → length
        (run o
          (load (open_session_resolver ttl context) opened_at held)
          (before ++ p ∷ ps)).sessions
      ≤ default_max_sessions + 1
sessions-bounded o held ttl context opened_at before p ps hash saved e =
    let r = load (open_session_resolver ttl context) opened_at held in
    let start : Holds 1000 (length r.sessions) r = record {
      limit = loaded-limit ttl context opened_at held;
      size = omega arith;
    } in
    omega (
      arith,
      (run_evicting-Holds 1000 (length r.sessions) o r before p ps hash e
          (loaded-Inv ttl context opened_at held saved) start).size,
    )
