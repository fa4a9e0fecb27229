-- ===== src/Sessions/Bind.antt =====
-- internal/web/session_resolver.go: `Bind` and the other operations on the stored sessions.
use mathlib.Core.List.{reverse}
use mathlib.Core.Option.{map as option_map}
use m365_copilot2api_dsm.Prelude.{
  ℕ, ◌+◌, ◌-◌, Bool, true, false, ◌&&◌, ◌||◌, Option, none, some, String, List, [], ◌∷◌, ◌++◌, ltb,
  leb, ◌==◌, str_eq, if◌then◌else◌, Dict, lookup, insert, length, is_empty, drop, sort_by, map,
  codes,
}
use m365_copilot2api_dsm.Context.Messages.{trim_space}
use m365_copilot2api_dsm.Context.Atoms.{Atom}
use m365_copilot2api_dsm.Sessions.Store.{
  OaiMsg, SessionBinding, SessionResolver, reindex, drop_session, drop_where, evict,
}
use m365_copilot2api_dsm.Sessions.Matching.{atoms_of, message_text}
use m365_copilot2api_dsm.Sessions.Resolve.{
  Outside, Request, tenant_from_request, client_ip_fingerprint, by_explicit_id, owned,
}
use Prim.Native.String.{◌++◌ as join}

abbrev pub history_limit : ℕ
history_limit = 512

-- The loop of `cloneMessages` over the groups, the last one first: the messages counted, and the start.
unfoldable pub take_back : ℕ → ℕ → List Atom → ℕ × ℕ
take_back count start [] = (count, start)
take_back count start (a ∷ earlier) =
    let c = a.end - a.start in
    let more = take_back (count + c) a.start earlier in
    if ltb history_limit (count + c) then (count, start) else more

-- The start of the last group, of the groups in reverse.
abbrev pub last_start : List Atom → ℕ
last_start [] = 0
last_start (a ∷ earlier) = a.start

unfoldable pub clone_start : List OaiMsg → List Atom → ℕ
clone_start ms [] = length ms - history_limit
clone_start ms (a ∷ earlier) =
    let (count, start) = take_back 0 (length ms) (a ∷ earlier) in
    if count == 0 then last_start (a ∷ earlier) else start

unfoldable pub clone_messages : (String → ℕ) → List OaiMsg → List OaiMsg
clone_messages counter ms =
    if leb (length ms) history_limit
    then ms
    else drop (clone_start ms (reverse (atoms_of counter ms))) ms

-- The texts of messages, with "||" between them.
unfoldable pub joined : List OaiMsg → String
joined [] = ""
joined (m ∷ []) = message_text m
joined (m ∷ n ∷ ms) = join (message_text m) (join "||" (joined (n ∷ ms)))

unfoldable pub context_fingerprint : Outside → List OaiMsg → String
context_fingerprint o ms =
    if is_empty ms then "" else o.fingerprint (joined (drop (length ms - 3) ms))

unfoldable pub bound_history : Outside → Request → String → List OaiMsg
bound_history o q assistant_text =
    let history = clone_messages o.count_tokens q.messages in
    if is_empty (trim_space (codes assistant_text))
    then history
    else history
      ++ (record { role = "assistant"; content = assistant_text; tool_calls = none } ∷ [])

-- The first session of a tenant with a conversation.
unfoldable pub find_conversation :
    String → String → Dict SessionBinding → Option (String × SessionBinding)
find_conversation tenant conversation [] = none
find_conversation tenant conversation ((id, s) ∷ rest) =
    if str_eq s.tenant tenant && str_eq s.conversation_id conversation
    then some (id, s)
    else find_conversation tenant conversation rest

abbrev pub or_else {ℓ} : {A : Type ℓ} → Option A → Option A → Option A
or_else (some a) o = some a
or_else none o = o

-- The session that `Bind` writes over.
unfoldable pub bind_target :
    SessionResolver → String → String → String → Option (String × SessionBinding)
bind_target r tenant explicit_id conversation =
    let by_name = if str_eq explicit_id "" then none else by_explicit_id r tenant explicit_id in
    or_else by_name
      (if str_eq conversation "" then none else find_conversation tenant conversation r.sessions)

unfoldable pub update_binding :
    Outside → Request → ℕ → String → String → List OaiMsg → SessionBinding → SessionBinding
update_binding o q now conversation account history s = record s {
  conversation_id = conversation;
  account_id = account;
  last_used_at = now;
  user_field = q.user;
  ip_fingerprint = client_ip_fingerprint o q;
  context_finger = context_fingerprint o history;
  context_history = history;
  tenant = tenant_from_request o q;
  explicit_id = if str_eq q.explicit_id "" then s.explicit_id else q.explicit_id;
}

unfoldable pub new_binding :
    Outside → Request → ℕ → String → String → String → List OaiMsg → SessionBinding
new_binding o q now session conversation account history = record {
  session_id = session;
  conversation_id = conversation;
  account_id = account;
  created_at = now;
  last_used_at = now;
  ip_fingerprint = client_ip_fingerprint o q;
  user_field = q.user;
  context_finger = context_fingerprint o history;
  context_history = history;
  tenant = tenant_from_request o q;
  explicit_id = q.explicit_id;
}

abbrev pub marked : SessionResolver → SessionResolver
marked r = record r { dirty = true }

-- What `Bind` is told of a finished request; `fresh_id` is what `uuid.NewString` gives.
pub record Bound : Type 0 where
  pub session_id : String
  pub conversation_id : String
  pub account_id : String
  pub assistant_text : String
  pub fresh_id : String

-- The session is written over, in the map and then by the indexes, or a new one is stored.
unfoldable pub write :
    Outside
    → SessionResolver
    → Bound
    → Request
    → ℕ
    → Option (String × SessionBinding)
    → SessionResolver
write o r b q now (some (id, s)) =
    let history = bound_history o q b.assistant_text in
    let updated = update_binding o q now b.conversation_id b.account_id history s in
    marked (reindex (record r { sessions = insert id updated r.sessions }) updated)
write o r b q now none =
    let history = bound_history o q b.assistant_text in
    let id = if str_eq b.session_id "" then b.fresh_id else b.session_id in
    marked (reindex r (new_binding o q now id b.conversation_id b.account_id history))

unfoldable pub bind : Outside → SessionResolver → Bound → Request → ℕ → SessionResolver
bind o r b q now =
    let e = evict r now in
    write o e b q now (bind_target e (tenant_from_request o q) q.explicit_id b.conversation_id)

unfoldable pub lookup_for_tenant :
    SessionResolver → String → String → Option (String × SessionBinding)
lookup_for_tenant r tenant id =
    if str_eq tenant "" || str_eq id ""
    then none
    else or_else (owned tenant id (lookup id r.sessions)) (by_explicit_id r tenant id)

-- `GetSession`.
unfoldable pub get_session : SessionResolver → String → String → Option SessionBinding
get_session r tenant id =
    option_map (λ (e : String × SessionBinding). e.1) (lookup_for_tenant r tenant id)

unfoldable pub get_conversation :
    (String → ℕ) → String → Dict SessionBinding → Option SessionBinding
get_conversation counter conversation [] = none
get_conversation counter conversation ((id, s) ∷ rest) =
    if str_eq s.conversation_id conversation
    then some (record s { context_history = clone_messages counter s.context_history })
    else get_conversation counter conversation rest

-- The values of a map, the most recently used first.
unfoldable pub list_sessions : SessionResolver → List SessionBinding
list_sessions r =
    reverse (sort_by (λ s. s.last_used_at) (map (λ (e : String × SessionBinding). e.1) r.sessions))

unfoldable pub of_tenant : String → Dict SessionBinding → List SessionBinding
of_tenant tenant [] = []
of_tenant tenant ((id, s) ∷ rest) =
    let others = of_tenant tenant rest in if str_eq s.tenant tenant then s ∷ others else others

unfoldable pub list_sessions_for_tenant : SessionResolver → String → List SessionBinding
list_sessions_for_tenant r tenant =
    if str_eq tenant ""
    then []
    else reverse (sort_by (λ s. s.last_used_at) (of_tenant tenant r.sessions))

abbrev pub delete_found :
    SessionResolver → Option (String × SessionBinding) → SessionResolver × Bool
delete_found r none = (r, false)
delete_found r (some (id, s)) = (marked (drop_session r s.session_id s), true)

unfoldable pub delete_session : SessionResolver → String → String → SessionResolver × Bool
delete_session r tenant id = delete_found r (lookup_for_tenant r tenant id)

unfoldable pub count_conversation : String → Dict SessionBinding → ℕ
count_conversation conversation [] = 0
count_conversation conversation ((id, s) ∷ rest) =
    (if str_eq s.conversation_id conversation then 1 else 0) + count_conversation conversation rest

unfoldable pub unbind_by_conversation : SessionResolver → String → SessionResolver × ℕ
unbind_by_conversation r conversation =
    let removed = count_conversation conversation r.sessions in
    let left = drop_where (λ s. str_eq s.conversation_id conversation) r.sessions r in
    (if ltb 0 removed then marked left else left, removed)
