-- ===== src/Sessions/Resume.antt =====
-- What `Bind` of internal/web/session_resolver.go stores, `Resolve` finds by its name.
use m365_copilot2api_dsm.Prelude.{
  ℕ, ◌+◌, ◌-◌, ◌≤◌, ◌≡◌, ◌≢◌, refl, sym, ap, ◌∙◌, Bool, false, Option, none, some, String,
  if◌then◌else◌, arith, inl, inr, length, str_eq, lookup, insert, lookup-insert, lookup-delete,
  Bool-cases, eq_refl, eq_iff, str_ne, le→ltb,
}
use m365_copilot2api_dsm.Sessions.Store.{
  SessionBinding, SessionResolver, explicit_key, reindex, drop_session, drop_where, evict,
  drop_least_used, is_older,
}
use m365_copilot2api_dsm.Sessions.Resolve.{
  Outside, Request, explicit, reuse, resolve, by_explicit_id, tenant_from_request,
}
use m365_copilot2api_dsm.Sessions.Bind.{
  Bound, bind, write, bound_history, new_binding, update_binding,
}
use m365_copilot2api_dsm.Sessions.Names.{Plain}
use m365_copilot2api_dsm.Sessions.Stored.{Inv, evict-Inv, drop_where-self}
use m365_copilot2api_dsm.Sessions.Kept.{bind-Inv}
use m365_copilot2api_dsm.Sessions.Limit.{drop_where-Holds}

-- A session that is not older than the limit, of a store that is not too large, outlives an eviction.
drop_where-lookup :
    (gone : SessionBinding → Bool) (r : SessionResolver) (k : String) (s : SessionBinding)
    → Inv r
    → gone s ≡ false
    → lookup k r.sessions ≡ some s
    → lookup k (drop_where gone r.sessions r).sessions ≡ some s
drop_where-lookup gone r k s v stays held =
    drop_where-self (λ d. lookup k d.sessions ≡ some s) gone
      (λ d id t there goes p.
        unfold drop_session in
        lookup-delete id k d.sessions ∙ elim (Bool-cases (str_eq id k)) [
          | inl q ↦ absurd (cc (there, goes, p, stays, (eq_iff id k).0 q))
          | inr q ↦ rw q p
        ])
      r v.distinct held

evict-lookup :
    (r : SessionResolver) (now : ℕ) (k : String) (s : SessionBinding)
    → Inv r
    → now - s.last_used_at ≤ r.ttl
    → length r.sessions ≤ r.max_sessions
    → lookup k r.sessions ≡ some s
    → lookup k (evict r now).sessions ≡ some s
unfolding evict drop_least_used
evict-lookup r now k s v young few held =
    let kept = drop_where-lookup (is_older now r.ttl) r k s v (ground arith) held in
    let fits =
      drop_where-Holds r.max_sessions r.max_sessions (is_older now r.ttl) r.sessions r
        (record { limit = refl; size = few }) in
    let left = drop_where (is_older now r.ttl) r.sessions r in
    let few_left : length left.sessions ≤ left.max_sessions =
      omega (arith, fits.size, fits.limit) in
    rw (le→ltb left.max_sessions (length left.sessions) few_left) kept

-- What is stored for a request.
pub record Stores (o : Outside) (r : SessionResolver) (b : Bound) (q : Request) (now : ℕ)
    : Type 0 where
  pub id : String
  pub session : SessionBinding
  pub held : lookup id r.sessions ≡ some session
  pub tenant : session.tenant ≡ tenant_from_request o q
  pub name : session.explicit_id ≡ q.explicit_id
  pub conversation : session.conversation_id ≡ b.conversation_id
  pub account : session.account_id ≡ b.account_id
  pub used : session.last_used_at ≡ now
  pub history : session.context_history ≡ bound_history o q b.assistant_text

write-Stores :
    (o : Outside) (r : SessionResolver) (b : Bound) (q : Request) (now : ℕ)
    (target : Option (String × SessionBinding))
    → q.explicit_id ≢ ""
    → Stores o (write o r b q now target) b q now
unfolding write reindex update_binding new_binding
write-Stores o r b q now none ne =
    let id = if str_eq b.session_id "" then b.fresh_id else b.session_id in
    let s =
      new_binding o q now id b.conversation_id b.account_id (bound_history o q b.assistant_text) in
    record {
      id = id;
      session = s;
      held = lookup-insert id id s r.sessions ∙ rw (eq_refl id) refl;
      tenant = refl;
      name = refl;
      conversation = refl;
      account = refl;
      used = refl;
      history = refl;
    }
write-Stores o r b q now (some (k, t)) ne =
    let s =
      update_binding o q now b.conversation_id b.account_id (bound_history o q b.assistant_text)
        t in
    record {
      id = t.session_id;
      session = s;
      held =
          lookup-insert t.session_id t.session_id s (insert k s r.sessions)
          ∙ rw (eq_refl t.session_id) refl;
      tenant = refl;
      name = rw (str_ne q.explicit_id "" ne) refl;
      conversation = refl;
      account = refl;
      used = refl;
      history = refl;
    }

bind-Stores :
    (o : Outside) (r : SessionResolver) (b : Bound) (q : Request) (now : ℕ)
    → q.explicit_id ≢ ""
    → Stores o (bind o r b q now) b q now
unfolding bind
bind-Stores o r b q now ne = write-Stores o (evict r now) b q now _ ne

-- A stored session is found by the tenant and its name.
by_explicit_id-named :
    (r : SessionResolver) (k tenant x : String) (s : SessionBinding)
    → Inv r
    → x ≢ ""
    → lookup k r.sessions ≡ some s
    → s.tenant ≡ tenant
    → s.explicit_id ≡ x
    → by_explicit_id r tenant x ≡ some (k, s)
unfolding by_explicit_id
by_explicit_id-named r k tenant x s v ne held mine named =
    let mapped : lookup (explicit_key tenant x) r.by_explicit ≡ some k =
      cc (v.named k s held (λ e. ne (sym named ∙ e)), mine, named) in
    rw (mapped, held, mine, eq_refl tenant) refl

-- A client that names a session when a request is bound, and asks with the same key and the same name
-- again, before the session has expired and while the store is not above its limit, goes on with the
-- bound conversation and account, and `HistoryLen` is the length of the stored history.
pub resolve-bind :
    (o : Outside) (r : SessionResolver) (b : Bound) (q again : Request) (now later : ℕ)
    → Inv r
    → Plain (tenant_from_request o q)
    → q.explicit_id ≢ ""
    → again.explicit_id ≡ q.explicit_id
    → again.raw_key ≡ q.raw_key
    → later ≤ now + (bind o r b q now).ttl
    → length (bind o r b q now).sessions ≤ (bind o r b q now).max_sessions
    → let x = (resolve o (bind o r b q now) again later).1 in
      (x.matched_by ≡ explicit)
      × (x.conversation_id ≡ b.conversation_id)
      × (x.account_id ≡ b.account_id)
      × (x.history_len ≡ length (bound_history o q b.assistant_text))
unfolding resolve reuse tenant_from_request
resolve-bind o r b q again now later v plain ne name key young few =
    let w = bind-Inv o r b q now plain v in
    let s = bind-Stores o r b q now ne in
    let kept =
      evict-lookup (bind o r b q now) later s.id s.session w (omega (arith, young, s.used)) few
        s.held in
    let found =
      by_explicit_id-named (evict (bind o r b q now) later) s.id (tenant_from_request o again)
        again.explicit_id s.session (evict-Inv (bind o r b q now) later w) (λ e. ne (sym name ∙ e))
        kept (s.tenant ∙ ap (λ raw. if str_eq raw "" then "" else o.key_hash raw) (sym key))
        (s.name ∙ sym name) in
    rw (str_ne again.explicit_id "" (λ e. ne (sym name ∙ e)), found)
      (refl, s.conversation, s.account, ap length s.history)
