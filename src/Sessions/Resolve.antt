-- ===== src/Sessions/Resolve.antt =====
-- internal/web/session_resolver.go: `Resolve`, the choice of a stored session for a request.
use m365_copilot2api_dsm.Prelude.{
  ℕ, Bool, true, false, ◌&&◌, ◌||◌, not, Option, none, some, String, List, [], ◌∷◌, ltb, leb, ◌==◌,
  str_eq, if◌then◌else◌, Dict, lookup, insert, value_or, length, is_empty,
}
use m365_copilot2api_dsm.Sessions.Store.{
  OaiMsg, SessionBinding, SessionResolver, no_binding, explicit_key, is_older, evict,
}
use m365_copilot2api_dsm.Sessions.Matching.{
  Ratio, no_ratio, ratio_lt, context_prefix_len, suffix_match_len, messages_text,
  jaccard_similarity,
}
use Prim.Native.String.{◌++◌ as join}

-- What the resolver uses of libraries and settings: the hash of a key, the fingerprint of an address,
-- the lower case of a text, the counter of tokens and the threshold of similarity.
pub record Outside : Type 0 where
  pub key_hash : String → String
  pub fingerprint : String → String
  pub lower : String → String
  pub count_tokens : String → ℕ
  pub threshold : Ratio

-- What the resolver reads of a request: its key as `rawAPIKey` gives it, the session header, the host of
-- the remote address, the user agent and the body.
pub record Request : Type 0 where
  pub raw_key : String
  pub explicit_id : String
  pub host : String
  pub user_agent : String
  pub user : String
  pub messages : List OaiMsg

unfoldable pub tenant_from_request : Outside → Request → String
tenant_from_request o q = if str_eq q.raw_key "" then "" else o.key_hash q.raw_key

unfoldable pub client_ip_fingerprint : Outside → Request → String
client_ip_fingerprint o q = o.fingerprint (join q.host (join "|" q.user_agent))

pub data MatchedBy : Type 0 where
  nothing explicit : MatchedBy
  context_prefix context_suffix : ℕ → MatchedBy
  context_fuzzy : Ratio → MatchedBy

pub record ResolveResult : Type 0 where
  pub session_id : String
  pub conversation_id : String
  pub account_id : String
  pub matched_by : MatchedBy
  pub is_new : Bool
  pub history_len : ℕ

unfoldable pub new_result : ResolveResult
new_result = record {
  session_id = "";
  conversation_id = "";
  account_id = "";
  matched_by = nothing;
  is_new = true;
  history_len = 0;
}

-- A session by the tenant's own name for it.
abbrev pub owned : String → String → Option SessionBinding → Option (String × SessionBinding)
owned tenant id none = none
owned tenant id (some s) = if str_eq s.tenant tenant then some (id, s) else none

abbrev pub follow : Dict SessionBinding → String → Option String → Option (String × SessionBinding)
follow sessions tenant none = none
follow sessions tenant (some id) = owned tenant id (lookup id sessions)

unfoldable pub by_explicit_id : SessionResolver → String → String → Option (String × SessionBinding)
by_explicit_id r tenant id =
    follow r.sessions tenant (lookup (explicit_key tenant id) r.by_explicit)

-- The tests at the head of each of the three loops.
unfoldable pub eligible : SessionResolver → String → String → ℕ → SessionBinding → Bool
eligible r tenant finger now s =
    not (is_older now r.context_ttl s) && str_eq s.tenant tenant && str_eq s.ip_fingerprint finger

pub record Match : Type 0 where
  pub id : String
  pub n : ℕ
  pub recent : ℕ

abbrev pub no_match : Match
no_match = record { id = ""; n = 0; recent = 0 }

-- The body of the loops of `matchContextLocked` and `matchSuffixLocked`: `n` messages of a session fit.
unfoldable pub better : ℕ → Match → String → SessionBinding → ℕ → Match
better least best id s n =
    if leb least n && (ltb best.n n || (n == best.n && ltb best.recent s.last_used_at))
    then record { id = id; n = n; recent = s.last_used_at }
    else best

-- The loop, over the sessions that may be taken; `fit` counts the messages that fit.
unfoldable pub best_match :
    ℕ → (SessionBinding → Bool) → (SessionBinding → ℕ) → Match → Dict SessionBinding → Match
best_match least may fit best [] = best
best_match least may fit best ((id, s) ∷ rest) =
    best_match least may fit (if may s then better least best id s (fit s) else best) rest

unfoldable pub match_context :
    (String → ℕ) → SessionResolver → String → String → ℕ → List OaiMsg → Match
match_context counter r tenant finger now ms =
    if is_empty ms
    then no_match
    else best_match 1 (eligible r tenant finger now)
        (λ s. context_prefix_len counter s.context_history ms) no_match r.sessions

abbrev pub min_suffix : ℕ
min_suffix = 2

unfoldable pub match_suffix : SessionResolver → String → String → ℕ → List OaiMsg → Match
match_suffix r tenant finger now ms =
    if ltb (length ms) 2
    then no_match
    else best_match min_suffix
        (λ s. eligible r tenant finger now s && not (ltb (length s.context_history) min_suffix))
        (λ s. suffix_match_len s.context_history ms) no_match r.sessions

pub record FuzzyMatch : Type 0 where
  pub id : String
  pub score : Ratio

abbrev pub no_fuzzy : FuzzyMatch
no_fuzzy = record { id = ""; score = no_ratio }

-- The loop of `matchFuzzyContextLocked`.
unfoldable pub best_fuzzy :
    Ratio
    → (SessionBinding → Bool)
    → (String → Ratio)
    → FuzzyMatch
    → Dict SessionBinding
    → FuzzyMatch
best_fuzzy threshold may score best [] = best
best_fuzzy threshold may score best ((id, s) ∷ rest) =
    let haystack = messages_text s.context_history in
    let found = score haystack in
    let closer =
      not (str_eq haystack "") && not (ratio_lt found threshold) && ratio_lt best.score found in
    best_fuzzy threshold may score
      (if may s && closer then record { id = id; score = found } else best) rest

unfoldable pub match_fuzzy :
    Outside → SessionResolver → String → String → ℕ → List OaiMsg → FuzzyMatch
match_fuzzy o r tenant finger now ms =
    let needle = messages_text ms in
    if is_empty ms || o.threshold.part == 0 || str_eq needle ""
    then no_fuzzy
    else best_fuzzy o.threshold (eligible r tenant finger now) (jaccard_similarity o.lower needle)
        no_fuzzy r.sessions

-- A session is used again: its time is set, and the answer names its conversation.
unfoldable pub reuse :
    SessionResolver → String → SessionBinding → ℕ → MatchedBy → ℕ → SessionResolver × ResolveResult
reuse r id s now by n = (
  record r { sessions = insert id (record s { last_used_at = now }) r.sessions; dirty = true },
  record {
    session_id = s.session_id;
    conversation_id = s.conversation_id;
    account_id = s.account_id;
    matched_by = by;
    is_new = false;
    history_len = n;
  },
)

-- The three searches by content, each where the one before it finds nothing.
unfoldable pub resolve_content :
    Outside → SessionResolver → Request → ℕ → SessionResolver × ResolveResult
resolve_content o r q now =
    let tenant = tenant_from_request o q in
    let finger = client_ip_fingerprint o q in
    let by_prefix = match_context o.count_tokens r tenant finger now q.messages in
    let by_suffix = match_suffix r tenant finger now q.messages in
    let by_text = match_fuzzy o r tenant finger now q.messages in
    let found = λ (id : String). value_or no_binding (lookup id r.sessions) in
    if not (str_eq by_prefix.id "")
    then reuse r by_prefix.id (found by_prefix.id) now (context_prefix by_prefix.n) by_prefix.n
    else if not (str_eq by_suffix.id "")
    then reuse r by_suffix.id (found by_suffix.id) now (context_suffix by_suffix.n) by_suffix.n
    else if not (str_eq by_text.id "")
    then reuse r by_text.id (found by_text.id) now (context_fuzzy by_text.score) 0
    else (r, new_result)

abbrev pub explicit_or_content :
    Outside
    → SessionResolver
    → Request
    → ℕ
    → Option (String × SessionBinding)
    → SessionResolver × ResolveResult
explicit_or_content o r q now none = resolve_content o r q now
explicit_or_content o r q now (some (id, s)) = reuse r id s now explicit (length s.context_history)

unfoldable pub resolve : Outside → SessionResolver → Request → ℕ → SessionResolver × ResolveResult
resolve o r q now =
    let e = evict r now in
    explicit_or_content o e q now (
      if str_eq q.explicit_id ""
      then none
      else by_explicit_id e (tenant_from_request o q) q.explicit_id)
