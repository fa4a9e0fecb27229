-- ===== src/Sessions/Sound.antt =====
-- The sessions that `Resolve` of internal/web/session_resolver.go goes on with.
use mathlib.Core.List.{reverse}
use m365_copilot2api_dsm.Prelude.{
  ℕ, ◌≤◌, ◌≡◌, ◌≢◌, sym, ap, subst, ◌∙◌, Bool, true, some, String, List, [], ◌∷◌, Dict, lookup,
  arith, eq_iff, inl, inr, ◌⊎◌, if_both, length, take, lookup-delete,
}
use m365_copilot2api_dsm.Sessions.Store.{
  SessionBinding, SessionResolver, evict, drop_where, drop_all, drop_least_used, drop_session,
  is_older,
}
use m365_copilot2api_dsm.Sessions.Resolve.{
  Outside, Request, tenant_from_request, client_ip_fingerprint, eligible, MatchedBy, nothing,
  context_prefix, context_suffix, reuse, new_result, resolve,
}
use m365_copilot2api_dsm.Sessions.Stored.{Inv, evict-Inv}
use m365_copilot2api_dsm.Sessions.Choice.{Longest, Reason, Eligible, resolve-Answers}
use m365_copilot2api_dsm.Sessions.Fits.{Leads, context_prefix_len-Leads, suffix_match_len-same}

-- Every session of the second store is one of the first.
abbrev Within : SessionResolver → SessionResolver → Type 0
Within r e =
    (k : String) (s : SessionBinding) → lookup k e.sessions ≡ some s → lookup k r.sessions ≡ some s

drop_session-Within :
    (r e : SessionResolver) (id : String) (s : SessionBinding)
    → Within r e
    → Within r (drop_session e id s)
unfolding drop_session
drop_session-Within r e id s w k t h = w k t (ground (arith, h, lookup-delete id k e.sessions))

drop_where-Within :
    (gone : SessionBinding → Bool) (es : Dict SessionBinding) (r e : SessionResolver)
    → Within r e
    → Within r (drop_where gone es e)
unfolding drop_where
drop_where-Within gone [] r e w = w
drop_where-Within gone ((id, s) ∷ es) r e w =
    drop_where-Within gone es r _ (if_both (Within r) (gone s) (drop_session-Within r e id s w) w)

drop_all-Within :
    (ids : List String) (r e : SessionResolver) → Within r e → Within r (drop_all ids e)
unfolding drop_all
drop_all-Within [] r e w = w
drop_all-Within (id ∷ ids) r e w = drop_all-Within ids r _ (drop_session-Within r e id _ w)

pub evict-Within : (r : SessionResolver) (now : ℕ) → Within r (evict r now)
unfolding evict drop_least_used
evict-Within r now =
    let w = drop_where-Within (is_older now r.ttl) r.sessions r r (λ k s h. h) in
    if_both (Within r) _ (drop_all-Within _ r _ w) w

-- Where the answer is no new conversation, it is a session that was stored for the tenant of the
-- request: its id, its conversation and its account.
pub resolve-owned :
    (o : Outside) (r : SessionResolver) (q : Request) (now : ℕ)
    → Inv r
    → let x = (resolve o r q now).1 in
      (x.is_new ≡ true)
      ⊎ ((s : SessionBinding) × (lookup x.session_id r.sessions ≡ some s)
          × (s.tenant ≡ tenant_from_request o q)
          × (x.conversation_id ≡ s.conversation_id)
          × (x.account_id ≡ s.account_id))
unfolding reuse new_result
resolve-owned o r q now v =
    let w = evict-Inv r now v in
    elim (resolve-Answers o r q now w.distinct) [
      | inl e ↦ inl (ap (λ x. x.1.is_new) e)
      | inr u ↦ inr (
        u.session,
        subst (λ j. lookup j r.sessions ≡ some u.session)
            (sym (ap (λ x. x.1.session_id) u.answer ∙ w.keyed u.id u.session u.held))
            (evict-Within r now u.id u.session u.held),
        u.mine,
        ap (λ x. x.1.conversation_id) u.answer,
        ap (λ x. x.1.account_id) u.answer,
      )
    ]

Eligible-finger :
    (o : Outside) (r : SessionResolver) (q : Request) (now : ℕ) (s : SessionBinding)
    → Eligible o r q now s
    → s.ip_fingerprint ≡ client_ip_fingerprint o q
unfolding eligible
Eligible-finger o r q now s h =
    ground (arith, h, eq_iff s.ip_fingerprint (client_ip_fingerprint o q))

-- The answer by its reason: the session stands where its id says.
reused :
    (o : Outside) (r : SessionResolver) (q : Request) (now : ℕ) (by : MatchedBy)
    → Inv r
    → (resolve o r q now).1.matched_by ≡ by
    → by ≢ nothing
    → (s : SessionBinding) × (lookup (resolve o r q now).1.session_id r.sessions ≡ some s)
      × (s.tenant ≡ tenant_from_request o q)
      × Reason o (evict r now) q now s by (resolve o r q now).1.history_len
unfolding reuse new_result
reused o r q now by v matched ne =
    let w = evict-Inv r now v in
    elim (resolve-Answers o r q now w.distinct) [
      | inl e ↦ absurd (ne (sym matched ∙ ap (λ x. x.1.matched_by) e))
      | inr u ↦ (
        u.session,
        subst (λ j. lookup j r.sessions ≡ some u.session)
            (sym (ap (λ x. x.1.session_id) u.answer ∙ w.keyed u.id u.session u.held))
            (evict-Within r now u.id u.session u.held),
        u.mine,
        subst (λ b. Reason o (evict r now) q now u.session b (resolve o r q now).1.history_len)
            (sym (ap (λ x. x.1.matched_by) u.answer) ∙ matched)
            (subst (λ n. Reason o (evict r now) q now u.session u.by n)
              (sym (ap (λ x. x.1.history_len) u.answer)) u.reason),
      )
    ]

prefix-something : (n : ℕ) → context_prefix n ≢ nothing
prefix-something n e = cc

suffix-something : (n : ℕ) → context_suffix n ≢ nothing
suffix-something n e = cc

-- A match by prefix of `n` messages goes on with a session of the tenant and the address whose whole
-- history of `n` messages is the first `n` messages of the request, up to the end of one of their
-- groups; `HistoryLen` is `n`, and no session that the request may take has a longer such history.
pub resolve-prefix :
    (o : Outside) (r : SessionResolver) (q : Request) (now n : ℕ)
    → Inv r
    → (resolve o r q now).1.matched_by ≡ context_prefix n
    → (s : SessionBinding) × (lookup (resolve o r q now).1.session_id r.sessions ≡ some s)
      × (s.tenant ≡ tenant_from_request o q)
      × (s.ip_fingerprint ≡ client_ip_fingerprint o q)
      × Leads o.count_tokens s.context_history q.messages
      × (length s.context_history ≡ n)
      × ((resolve o r q now).1.history_len ≡ n)
      × Longest o (evict r now) q now n
resolve-prefix o r q now n v matched =
    let (s, held, mine, reason) =
      reused o r q now (context_prefix n) v matched (prefix-something n) in
    let (len, leads) =
      context_prefix_len-Leads o.count_tokens s.context_history q.messages
        (omega (arith, reason)) in
    (
      s,
      held,
      mine,
      Eligible-finger o (evict r now) q now s reason.1,
      leads,
      omega (arith, reason, len),
      reason.0,
      subst (Longest o (evict r now) q now) reason.0 reason.4,
    )

-- A match by suffix goes on with a session whose last `n` messages are the last `n` messages of the
-- request, at least two of them. `HistoryLen` is `n` as well.
pub resolve-suffix :
    (o : Outside) (r : SessionResolver) (q : Request) (now n : ℕ)
    → Inv r
    → (resolve o r q now).1.matched_by ≡ context_suffix n
    → (s : SessionBinding) × (lookup (resolve o r q now).1.session_id r.sessions ≡ some s)
      × (s.tenant ≡ tenant_from_request o q)
      × (take n (reverse s.context_history) ≡ take n (reverse q.messages))
      × (2 ≤ n)
      × ((resolve o r q now).1.history_len ≡ n)
resolve-suffix o r q now n v matched =
    let (s, held, mine, reason) =
      reused o r q now (context_suffix n) v matched (suffix-something n) in
    (
      s,
      held,
      mine,
      subst (λ m. take m (reverse s.context_history) ≡ take m (reverse q.messages))
          (sym reason.2 ∙ reason.0) (suffix_match_len-same s.context_history q.messages),
      omega (arith, reason),
      reason.0,
    )
