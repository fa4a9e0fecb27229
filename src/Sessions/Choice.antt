-- ===== src/Sessions/Choice.antt =====
-- What `Resolve` of internal/web/session_resolver.go may answer.
use m365_copilot2api_dsm.Prelude.{
  ℕ, ◌≤◌, ◌≡◌, refl, Bool, true, false, not, some, String, str_eq, if◌then◌else◌, lookup, Distinct,
  arith, eq_iff, eq_refl, inl, inr, ◌⊎◌, Bool-cases, Option-cases, if_both, is_empty, ltb, leb,
  ◌==◌, ◌&&◌, ◌||◌, length, value_or,
}
use m365_copilot2api_dsm.Sessions.Store.{SessionBinding, SessionResolver, evict, no_binding}
use m365_copilot2api_dsm.Sessions.Matching.{
  context_prefix_len, suffix_match_len, jaccard_similarity, messages_text,
}
use m365_copilot2api_dsm.Sessions.Resolve.{
  Outside, Request, Match, by_explicit_id, tenant_from_request, client_ip_fingerprint, eligible,
  MatchedBy, nothing, explicit, context_prefix, context_suffix, context_fuzzy, reuse, new_result,
  resolve, resolve_content, match_context, match_suffix, match_fuzzy, ResolveResult, FuzzyMatch,
  no_match, no_fuzzy,
}
use m365_copilot2api_dsm.Sessions.Search.{best_match-held, best_match-best, best_fuzzy-held}

-- What a search by name finds is stored, and of the tenant.
pub by_explicit_id-held :
    (r : SessionResolver) (tenant x k : String) (s : SessionBinding)
    → by_explicit_id r tenant x ≡ some (k, s)
    → (lookup k r.sessions ≡ some s) × (s.tenant ≡ tenant)
unfolding by_explicit_id
by_explicit_id-held r tenant x k s h = ground (arith, h, eq_iff s.tenant tenant)

-- The tests of the searches by content, for a request.
abbrev pub Eligible : Outside → SessionResolver → Request → ℕ → SessionBinding → Type 0
Eligible o r q now s = eligible r (tenant_from_request o q) (client_ip_fingerprint o q) now s ≡ true

-- No session that may be taken has a longer history that fits.
abbrev pub Longest : Outside → SessionResolver → Request → ℕ → ℕ → Type 0
Longest o r q now n =
    (j : String) (t : SessionBinding)
    → lookup j r.sessions ≡ some t
    → Eligible o r q now t
    → context_prefix_len o.count_tokens t.context_history q.messages ≤ n

-- Why a session is used again, and for how many messages.
abbrev pub Reason :
    Outside → SessionResolver → Request → ℕ → SessionBinding → MatchedBy → ℕ → Type 0
Reason o r q now s nothing n = 1 ≤ 0
Reason o r q now s explicit n = n ≡ length s.context_history
Reason o r q now s (context_prefix m) n =
    (n ≡ m)
    × Eligible o r q now s
    × (n ≡ context_prefix_len o.count_tokens s.context_history q.messages)
    × (1 ≤ n)
    × Longest o r q now n
Reason o r q now s (context_suffix m) n =
    (n ≡ m) × Eligible o r q now s × (n ≡ suffix_match_len s.context_history q.messages) × (2 ≤ n)
Reason o r q now s (context_fuzzy score) n = (n ≡ 0) × Eligible o r q now s

pub record Reuses (o : Outside) (r : SessionResolver) (q : Request) (now : ℕ)
    (x : SessionResolver × ResolveResult) : Type 0 where
  pub id : String
  pub session : SessionBinding
  pub by : MatchedBy
  pub n : ℕ
  pub held : lookup id r.sessions ≡ some session
  pub mine : session.tenant ≡ tenant_from_request o q
  pub reason : Reason o r q now session by n
  pub answer : x ≡ reuse r id session now by n

abbrev pub Answers :
    Outside → SessionResolver → Request → ℕ → SessionResolver × ResolveResult → Type 0
Answers o r q now x = (x ≡ (r, new_result)) ⊎ Reuses o r q now x

Eligible-tenant :
    (o : Outside) (r : SessionResolver) (q : Request) (now : ℕ) (s : SessionBinding)
    → Eligible o r q now s
    → s.tenant ≡ tenant_from_request o q
unfolding eligible
Eligible-tenant o r q now s h = ground (arith, h, eq_iff s.tenant (tenant_from_request o q))

-- An answer for a session that is found under its id.
reuse_found :
    (o : Outside) (r : SessionResolver) (q : Request) (now : ℕ) (id : String) (s : SessionBinding)
    (by : MatchedBy) (n : ℕ)
    → lookup id r.sessions ≡ some s
    → s.tenant ≡ tenant_from_request o q
    → Reason o r q now s by n
    → Reuses o r q now (reuse r id (value_or no_binding (lookup id r.sessions)) now by n)
reuse_found o r q now id s by n held mine reason = record {
  id = id;
  session = s;
  by = by;
  n = n;
  held = held;
  mine = mine;
  reason = reason;
  answer = rw held refl;
}

not_blank : (s : String) → s ≡ "" → str_eq s "" ≡ true
not_blank s e = (eq_iff s "").1 e

abbrev ByPrefix : Outside → SessionResolver → Request → ℕ → Match → Type 0
ByPrefix o r q now m =
    str_eq m.id "" ≡ false
    → Reuses o r q now
        (reuse r m.id (value_or no_binding (lookup m.id r.sessions)) now (context_prefix m.n) m.n)

prefix-Reuses :
    (o : Outside) (r : SessionResolver) (q : Request) (now : ℕ)
    → Distinct r.sessions
    → ByPrefix o r q now (
        match_context o.count_tokens r
          (tenant_from_request o q)
          (client_ip_fingerprint o q)
          now
          q.messages)
unfolding match_context
prefix-Reuses o r q now distinct =
    let may = eligible r (tenant_from_request o q) (client_ip_fingerprint o q) now in
    let fit =
      λ (t : SessionBinding). context_prefix_len o.count_tokens t.context_history q.messages in
    if_both (ByPrefix o r q now) (is_empty q.messages) (λ h. cc (h, eq_refl ""))
      (λ h. elim (best_match-held 1 may fit r.sessions no_match distinct refl) [
        | inl e ↦ cc (h, not_blank _ e)
        | inr (s, f) ↦
            reuse_found o r q now _ s (context_prefix _) _ f.held
              (Eligible-tenant o r q now s f.eligible)
              (
                refl,
                f.eligible,
                f.counted,
                f.enough,
                λ j t held ok. elim (Bool-cases (leb 1 (fit t))) [
                  | inl e ↦ best_match-best 1 may fit r.sessions no_match j t held ok (ground arith)
                  | inr e ↦ ground arith
                ],
              )
      ])

abbrev BySuffix : Outside → SessionResolver → Request → ℕ → Match → Type 0
BySuffix o r q now m =
    str_eq m.id "" ≡ false
    → Reuses o r q now
        (reuse r m.id (value_or no_binding (lookup m.id r.sessions)) now (context_suffix m.n) m.n)

long_enough : (b c : Bool) → b && c ≡ true → b ≡ true
long_enough true c h = refl
long_enough false c h = h

suffix-Reuses :
    (o : Outside) (r : SessionResolver) (q : Request) (now : ℕ)
    → Distinct r.sessions
    → BySuffix o r q now
        (match_suffix r (tenant_from_request o q) (client_ip_fingerprint o q) now q.messages)
unfolding match_suffix
suffix-Reuses o r q now distinct =
    let may = λ (s : SessionBinding).
      eligible r (tenant_from_request o q) (client_ip_fingerprint o q) now s
      && not (ltb (length s.context_history) 2) in
    let fit = λ (t : SessionBinding). suffix_match_len t.context_history q.messages in
    if_both (BySuffix o r q now) (ltb (length q.messages) 2) (λ h. cc (h, eq_refl ""))
      (λ h. elim (best_match-held 2 may fit r.sessions no_match distinct refl) [
        | inl e ↦ cc (h, not_blank _ e)
        | inr (s, f) ↦
            let ok = long_enough _ _ f.eligible in
            reuse_found o r q now _ s (context_suffix _) _ f.held (Eligible-tenant o r q now s ok)
              (refl, ok, f.counted, f.enough)
      ])

abbrev ByText : Outside → SessionResolver → Request → ℕ → FuzzyMatch → Type 0
ByText o r q now m =
    str_eq m.id "" ≡ false
    → Reuses o r q now
        (reuse r m.id (value_or no_binding (lookup m.id r.sessions)) now (context_fuzzy m.score) 0)

fuzzy-Reuses :
    (o : Outside) (r : SessionResolver) (q : Request) (now : ℕ)
    → Distinct r.sessions
    → ByText o r q now
        (match_fuzzy o r (tenant_from_request o q) (client_ip_fingerprint o q) now q.messages)
unfolding match_fuzzy
fuzzy-Reuses o r q now distinct =
    let may = eligible r (tenant_from_request o q) (client_ip_fingerprint o q) now in
    let needle = messages_text q.messages in
    if_both (ByText o r q now) (is_empty q.messages || o.threshold.part == 0 || str_eq needle "")
      (λ h. cc (h, eq_refl ""))
      (λ h.
        elim (best_fuzzy-held o.threshold may (jaccard_similarity o.lower needle) r.sessions
          no_fuzzy distinct refl) [
            | inl e ↦ cc (h, not_blank _ e)
            | inr (s, held, ok) ↦
                reuse_found o r q now _ s (context_fuzzy _) 0 held (Eligible-tenant o r q now s ok)
                  (refl, ok)
          ])

-- Two branches of a conditional, with what its test says.
if_cases {ℓ κ} :
    {A : Type ℓ} (P : A → Type κ) (b : Bool) {x y : A}
    → (b ≡ false → P x)
    → P y
    → P (if not b then x else y)
if_cases P true f p = p
if_cases P false f p = f refl

resolve_content-Answers :
    (o : Outside) (r : SessionResolver) (q : Request) (now : ℕ)
    → Distinct r.sessions
    → Answers o r q now (resolve_content o r q now)
unfolding resolve_content
resolve_content-Answers o r q now distinct =
    let P = Answers o r q now in
    if_cases P _ (λ h. inr (prefix-Reuses o r q now distinct h))
      (if_cases P _ (λ h. inr (suffix-Reuses o r q now distinct h))
        (if_cases P _ (λ h. inr (fuzzy-Reuses o r q now distinct h)) (inl refl)))

-- The answer of `Resolve` is a new conversation, or a session of the tenant for a reason.
pub resolve-Answers :
    (o : Outside) (r : SessionResolver) (q : Request) (now : ℕ)
    → Distinct (evict r now).sessions
    → Answers o (evict r now) q now (resolve o r q now)
unfolding resolve
resolve-Answers o r q now distinct = elim (Bool-cases (str_eq q.explicit_id "")) [
  | inl e ↦ rw e (resolve_content-Answers o (evict r now) q now distinct)
  | inr e ↦
      rw e
        (elim (Option-cases
          (by_explicit_id (evict r now) (tenant_from_request o q) q.explicit_id)) [
            | inl none_named ↦
                rw none_named (resolve_content-Answers o (evict r now) q now distinct)
            | inr ((k, s), named) ↦ rw named (
                inr (
                  let (held, mine) =
                    by_explicit_id-held (evict r now) (tenant_from_request o q) q.explicit_id k s
                      named in
                  record {
                    id = k;
                    session = s;
                    by = explicit;
                    n = length s.context_history;
                    held = held;
                    mine = mine;
                    reason = refl;
                    answer = refl;
                  }))
          ])
]
