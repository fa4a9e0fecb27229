-- ===== src/Ledger.antt =====
-- internal/web/agent_ledger.go: the evidence of the tool calls of a conversation, and whether the tool
-- loop may go on. A Go text is its bytes here, but for the ids, which are only compared. Two functions of
-- Go's library are arguments: `failure_signal`, the match of a regular expression, and `lower`, the
-- lower case of a text.
pub mod Texts
pub mod Scan
pub mod Continue
use m365_copilot2api_dsm.Prelude.{
  ℕ, zero, suc, ◌+◌, Bool, true, false, ◌&&◌, ◌||◌, not, Option, none, some, String, List, [], ◌∷◌,
  ◌++◌, ltb, leb, ◌==◌, str_eq, if◌then◌else◌, is_empty, length, Dict, lookup, insert,
}
use m365_copilot2api_dsm.Ledger.Texts.{Text, same_text, compact_tool_result, normalize_failure}

-- A tool call of an assistant message, with the printed arguments, and a message.
pub record Call : Type 0 where
  pub id : String
  pub name : Text
  pub arguments : Text

pub record Turn : Type 0 where
  pub role : String
  pub calls : List Call
  pub tool_call_id : String
  pub content : Text

pub record ToolEvidence : Type 0 where
  pub id : String
  pub name : Text
  pub arguments : Text
  pub result : Text
  pub failed : Bool

pub record AgentLedger : Type 0 where
  pub completed : List ToolEvidence
  pub pending : List ToolEvidence
  pub tool_rounds : ℕ
  pub repeated_call : Bool
  pub repeated_failure : Bool
  pub repetition_signature : Text
  pub stuck_loop : Bool

-- The first loop: the calls by their ids, and the ids in order.
pub record Calls : Type 0 where
  pub evidence : Dict ToolEvidence
  pub order : List String

unfoldable pub note_calls : Calls → List Call → Calls
note_calls k [] = k
note_calls k (c ∷ cs) =
    note_calls
      (if str_eq c.id "" then k else record {
        evidence =
            insert c.id
              (record {
                id = c.id;
                name = c.name;
                arguments = compact_tool_result c.arguments 600;
                result = [];
                failed = false;
              })
              k.evidence;
        order = k.order ++ c.id ∷ [];
      })
      cs

unfoldable pub note_result : (Text → Bool) → Calls → Turn → Calls
note_result failure_signal k t = elim (lookup t.tool_call_id k.evidence) [
  | none ↦ k
  | some e ↦
      let result = compact_tool_result t.content 4000 in
      record k {
        evidence =
            insert t.tool_call_id (record e { result = result; failed = failure_signal result })
              k.evidence;
      }
]

unfoldable pub note_turns : (Text → Bool) → Calls → List Turn → Calls
unfolding note_calls note_result
note_turns failure_signal k [] = k
note_turns failure_signal k (t ∷ ts) =
    let called = if str_eq t.role "assistant" then note_calls k t.calls else k in
    note_turns failure_signal
      (if str_eq t.role "tool" then note_result failure_signal called t else called) ts

abbrev no_evidence : ToolEvidence
no_evidence = record { id = ""; name = []; arguments = []; result = []; failed = false }

unfoldable pub in_order : Dict ToolEvidence → List String → List ToolEvidence
in_order d [] = []
in_order d (id ∷ ids) = (elim (lookup id d) [ none ↦ no_evidence | some e ↦ e ]) ∷ in_order d ids

-- `Name + "\x00" + Arguments`, and with the normalized result.
abbrev pub signature_of : ToolEvidence → Text
signature_of e = e.name ++ 0 ∷ e.arguments

abbrev pub failure_signature_of : (Text → Text) → ToolEvidence → Text
failure_signature_of lower e = signature_of e ++ 0 ∷ normalize_failure lower e.result

-- The variables of the second loop. `last_result` has the latest result of a signature first.
pub record Scanned : Type 0 where
  pub ledger : AgentLedger
  pub prev_sig : Text
  pub consec_same : ℕ
  pub last_result : List (Text × Text)
  pub prev_fail : Text
  pub consec_fail : ℕ

abbrev pub empty_ledger : AgentLedger
empty_ledger = record {
  completed = [];
  pending = [];
  tool_rounds = 0;
  repeated_call = false;
  repeated_failure = false;
  repetition_signature = [];
  stuck_loop = false;
}

abbrev pub start : Scanned
start = record {
  ledger = empty_ledger;
  prev_sig = [];
  consec_same = 0;
  last_result = [];
  prev_fail = [];
  consec_fail = 0;
}

-- The last result of a signature; "" for none.
unfoldable pub last_of : Text → List (Text × Text) → Text
last_of sig [] = []
last_of sig ((s, r) ∷ rest) = if same_text s sig then r else last_of sig rest

-- The length of the run of equal calls with equal results that a call ends.
abbrev pub next_same : Scanned → ToolEvidence → ℕ
next_same s e =
    if same_text (signature_of e) s.prev_sig
    then (if not (is_empty e.result) && same_text e.result (last_of (signature_of e) s.last_result)
        then s.consec_same + 1
        else 1)
    else 1

-- The first part of a round: the repetition of calls.
unfoldable pub scan_call : ℕ → Scanned → ToolEvidence → Scanned
unfolding last_of
scan_call same_limit s e =
    let n = next_same s e in
    let l = s.ledger in
    record s {
      prev_sig = signature_of e;
      consec_same = n;
      last_result = (signature_of e, e.result) ∷ s.last_result;
      ledger = record l {
        tool_rounds = l.tool_rounds + 1;
        repeated_call = if leb 2 n then true else l.repeated_call;
        repetition_signature = if leb 2 n then signature_of e else l.repetition_signature;
        stuck_loop = if leb same_limit n then true else l.stuck_loop;
      };
    }

-- The second part: the result, and the repetition of failures.
abbrev pub next_fail : (Text → Text) → Scanned → ToolEvidence → ℕ
next_fail lower s e =
    if same_text (failure_signature_of lower e) s.prev_fail then s.consec_fail + 1 else 1

unfoldable pub scan_failure : (Text → Text) → ℕ → Scanned → ToolEvidence → Scanned
scan_failure lower repeat_limit s e =
    let n = next_fail lower s e in
    let l = s.ledger in
    record s {
      prev_fail = failure_signature_of lower e;
      consec_fail = n;
      ledger = record l {
        repeated_failure = if leb 2 n then true else l.repeated_failure;
        repetition_signature =
            if leb 2 n then failure_signature_of lower e else l.repetition_signature;
        stuck_loop = if leb repeat_limit n then true else l.stuck_loop;
      };
    }

unfoldable pub scan_result : (Text → Text) → ℕ → Scanned → ToolEvidence → Scanned
unfolding scan_failure
scan_result lower repeat_limit s e =
    let l = s.ledger in
    let waiting = record s { ledger = record l { pending = l.pending ++ e ∷ [] } } in
    let done = record s { ledger = record l { completed = l.completed ++ e ∷ [] } } in
    if is_empty e.result
    then waiting
    else if e.failed
    then scan_failure lower repeat_limit done e
    else record done { consec_fail = 0; prev_fail = [] }

unfoldable pub scan : (Text → Text) → ℕ → ℕ → Scanned → List ToolEvidence → Scanned
unfolding scan_call scan_result
scan lower same_limit repeat_limit s [] = s
scan lower same_limit repeat_limit s (e ∷ es) =
    scan lower same_limit repeat_limit (scan_result lower repeat_limit (scan_call same_limit s e) e)
      es

-- `buildAgentLedger`, with the limits that the settings give.
unfoldable pub evidence_of : (Text → Bool) → List Turn → List ToolEvidence
unfolding note_turns in_order
evidence_of failure_signal turns =
    let k = note_turns failure_signal (record { evidence = []; order = [] }) turns in
    in_order k.evidence k.order

unfoldable pub build_agent_ledger : (Text → Bool) → (Text → Text) → ℕ → ℕ → List Turn → AgentLedger
unfolding evidence_of scan
build_agent_ledger failure_signal lower same_limit repeat_limit turns =
    (scan lower same_limit repeat_limit start (evidence_of failure_signal turns)).ledger

-- The errors of `CanContinue`; `none` is none.
pub data Refusal : Type 0 where
  round_limit : ℕ → Refusal
  stuck_tool_loop : Refusal
  failure_repeated : Text → Refusal
  results_pending : Refusal

unfoldable pub can_continue : AgentLedger → ℕ → Option Refusal
can_continue l max_rounds =
    let limit = if max_rounds == 0 then 32 else max_rounds in
    if leb limit l.tool_rounds
    then some (round_limit limit)
    else if l.stuck_loop
    then some stuck_tool_loop
    else if l.repeated_failure
    then some (failure_repeated l.repetition_signature)
    else if not (is_empty l.pending)
    then some results_pending
    else none
