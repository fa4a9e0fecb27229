-- ===== src/Tests/Resumed.antt =====
-- Runs of the model of internal/web/session_resolver.go.
use mathlib.Core.List.{reverse}
use m365_copilot2api_dsm.Prelude.{
  ℕ, zero, suc, ◌+◌, ◌*◌, ◌≤◌, ◌≡◌, ◌⊎◌, refl, true, none, some, String, List, [], ◌∷◌, length,
  second, differs, arith, str_eq, if◌then◌else◌, if_both, lookup, insert, sort_by, take, to_lower,
}
use m365_copilot2api_dsm.Context.Atoms.{span, build, mark_anchor, build_atoms_with_counter}
use m365_copilot2api_dsm.Context.Messages.{role_of}
use m365_copilot2api_dsm.Sessions.Store.{
  OaiMsg, SessionBinding, SessionResolver, open_session_resolver, load, no_binding, explicit_key,
  reindex, drop_where, drop_least_used, evict, default_max_sessions,
}
use m365_copilot2api_dsm.Sessions.Matching.{
  calls_equal, messages_equal, prefix_equal, ends_at, context_prefix_len, common_len,
  suffix_match_len,
}
use m365_copilot2api_dsm.Sessions.Resolve.{
  Outside, Request, MatchedBy, context_prefix, context_suffix, explicit, tenant_from_request,
  client_ip_fingerprint, by_explicit_id, eligible, better, best_match, match_context, match_suffix,
  reuse, resolve_content, resolve,
}
use m365_copilot2api_dsm.Sessions.Bind.{
  Bound, bind, bound_history, clone_messages, find_conversation, bind_target, new_binding, write,
  context_fingerprint, joined, get_session, delete_session,
}
use m365_copilot2api_dsm.Sessions.Names.{Plain}
use m365_copilot2api_dsm.Sessions.Stored.{Inv}
use m365_copilot2api_dsm.Sessions.Kept.{Operation, binds, deletes, after, run, run-Inv, open-Inv}
use m365_copilot2api_dsm.Sessions.Choice.{Longest}
use m365_copilot2api_dsm.Sessions.Fits.{Leads}
use m365_copilot2api_dsm.Sessions.Sound.{resolve-owned, resolve-prefix, resolve-suffix}
use m365_copilot2api_dsm.Sessions.Loaded.{Saved}
use m365_copilot2api_dsm.Sessions.Limit.{sessions-bounded}
use m365_copilot2api_dsm.Sessions.Resume.{resolve-bind}
use m365_copilot2api_dsm.Sessions.Isolation.{delete_session-isolated}

abbrev outside : Outside
outside = record {
  key_hash = λ key. if str_eq key "alice" then "a1" else "b2";
  fingerprint = λ s. s;
  lower = λ s. s;
  count_tokens = λ s. 1;
  threshold = record { part = 9; whole = 10 };
}

hash-Plain : (key : String) → Plain (outside.key_hash key)
unfolding Plain
hash-Plain key =
    if_both Plain (str_eq key "alice") (omega arith, (omega arith, tt))
      (omega arith, (omega arith, tt))

abbrev says : String → String → OaiMsg
says role content = record { role = role; content = content; tool_calls = none }

abbrev asks : String → String → List OaiMsg → Request
asks key name messages = record {
  raw_key = key;
  explicit_id = name;
  host = "10.0.0.1";
  user_agent = "curl";
  user = "";
  messages = messages;
}

abbrev first_turn : List OaiMsg
first_turn = says "user" "hello" ∷ []

abbrev second_turn : List OaiMsg
second_turn = says "user" "hello" ∷ says "assistant" "hi" ∷ says "user" "more" ∷ []

abbrev answered : Bound
answered = record {
  session_id = "s1";
  conversation_id = "c1";
  account_id = "acc";
  assistant_text = "hi";
  fresh_id = "uuid";
}

abbrev opened : SessionResolver
opened = open_session_resolver 120 120

abbrev turns : List Operation
turns = binds answered (asks "alice" "" first_turn) (1 * second) ∷ []

abbrev stored : SessionResolver
stored = run outside opened turns

stored-Inv : Inv stored
stored-Inv = run-Inv outside opened turns hash-Plain (open-Inv 120 120)

abbrev goes_on : Request
goes_on = asks "alice" "" second_turn

-- The end of the stored conversation, behind messages that the client has changed.
abbrev rewritten : Request
rewritten =
    asks "alice" "" (says "user" "summary" ∷ says "user" "hello" ∷ says "assistant" "hi" ∷ [])

matched : Request → MatchedBy
matched q = (resolve outside stored q (2 * second)).1.matched_by

two_matches : (matched goes_on ≡ context_prefix 2) × (matched rewritten ≡ context_suffix 2)
unfolding matched resolve run after open_session_resolver reindex drop_where drop_least_used evict
    calls_equal messages_equal prefix_equal ends_at context_prefix_len common_len suffix_match_len
    by_explicit_id tenant_from_request client_ip_fingerprint eligible better best_match
    match_context match_suffix reuse resolve_content bind bound_history clone_messages
    find_conversation bind_target new_binding write context_fingerprint joined span build
    mark_anchor build_atoms_with_counter role_of lookup insert sort_by to_lower
two_matches = (refl, refl)

run-Inv_example : Inv (run outside opened turns)
run-Inv_example = run-Inv outside opened turns hash-Plain (open-Inv 120 120)

-- A store that was opened on a file with a session, where a deletion comes before the first `Resolve`.
abbrev left_over : SessionBinding
left_over = record no_binding {
  session_id = "s0";
  tenant = "a1";
  explicit_id = "old";
  last_used_at = 1;
}

left_over-Saved : Saved (left_over ∷ [])
unfolding Plain
left_over-Saved = ((omega arith, (omega arith, tt)), tt, tt)

sessions-bounded_example :
    length
      (run outside (load (open_session_resolver 120 120) 2 (left_over ∷ [])) (
        deletes "b2" "old"
        ∷ binds answered (asks "alice" "" first_turn) (1 * second)
        ∷ [])).sessions
    ≤ default_max_sessions + 1
sessions-bounded_example =
    sessions-bounded outside (left_over ∷ []) 120 120 2 (deletes "b2" "old" ∷ [])
      (binds answered (asks "alice" "" first_turn) (1 * second)) [] hash-Plain left_over-Saved refl

resolve-owned_example :
    let x = (resolve outside stored goes_on (2 * second)).1 in
    (x.is_new ≡ true)
    ⊎ ((s : SessionBinding) × (lookup x.session_id stored.sessions ≡ some s)
        × (s.tenant ≡ tenant_from_request outside goes_on)
        × (x.conversation_id ≡ s.conversation_id)
        × (x.account_id ≡ s.account_id))
resolve-owned_example = resolve-owned outside stored goes_on (2 * second) stored-Inv

resolve-prefix_example :
    (s : SessionBinding) × (lookup
        (resolve outside stored goes_on (2 * second)).1.session_id
        stored.sessions
      ≡ some s)
    × (s.tenant ≡ tenant_from_request outside goes_on)
    × (s.ip_fingerprint ≡ client_ip_fingerprint outside goes_on)
    × Leads outside.count_tokens s.context_history second_turn
    × (length s.context_history ≡ 2)
    × ((resolve outside stored goes_on (2 * second)).1.history_len ≡ 2)
    × Longest outside (evict stored (2 * second)) goes_on (2 * second) 2
resolve-prefix_example =
    resolve-prefix outside stored goes_on (2 * second) 2 stored-Inv
      (unfold matched in two_matches.0)

resolve-suffix_example :
    (s : SessionBinding) × (lookup
        (resolve outside stored rewritten (2 * second)).1.session_id
        stored.sessions
      ≡ some s)
    × (s.tenant ≡ tenant_from_request outside rewritten)
    × (take 2 (reverse s.context_history) ≡ take 2 (reverse rewritten.messages))
    × (2 ≤ 2)
    × ((resolve outside stored rewritten (2 * second)).1.history_len ≡ 2)
resolve-suffix_example =
    resolve-suffix outside stored rewritten (2 * second) 2 stored-Inv
      (unfold matched in two_matches.1)

chat : ℕ → List OaiMsg
chat zero = []
chat (suc n) = says "user" "hello" ∷ says "assistant" "hi" ∷ chat n

delete_session-isolated_example :
    get_session (delete_session stored "a1" "s1").0 "b2" "s1" ≡ get_session stored "b2" "s1"
delete_session-isolated_example =
    delete_session-isolated stored "a1" "b2" "s1" "s1" stored-Inv
      (unfold Plain in (omega arith, (omega arith, tt))) (differs "a1" "b2" refl)

abbrev named : Request
named = asks "alice" "mine" first_turn

abbrev named_again : Request
named_again = asks "alice" "mine" second_turn

abbrev bound_named : SessionResolver
bound_named = bind outside opened answered named (1 * second)

bound_fits :
    (2 * second ≤ 1 * second + bound_named.ttl)
    × (length bound_named.sessions ≤ bound_named.max_sessions)
    × Plain (tenant_from_request outside named)
unfolding bind open_session_resolver reindex drop_where drop_least_used evict by_explicit_id
    tenant_from_request client_ip_fingerprint bound_history clone_messages find_conversation
    bind_target new_binding write context_fingerprint joined lookup insert Plain explicit_key
bound_fits = (omega arith, omega arith, (omega arith, (omega arith, tt)))

resolve-bind_example :
    let x = (resolve outside bound_named named_again (2 * second)).1 in
    (x.matched_by ≡ explicit)
    × (x.conversation_id ≡ "c1")
    × (x.account_id ≡ "acc")
    × (x.history_len ≡ length (bound_history outside named "hi"))
resolve-bind_example =
    resolve-bind outside opened answered named named_again (1 * second) (2 * second)
      (open-Inv 120 120) bound_fits.2 (differs "mine" "" refl) refl refl bound_fits.0 bound_fits.1
