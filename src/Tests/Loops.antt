-- ===== src/Tests/Loops.antt =====
-- Runs of the model of internal/web/agent_ledger.go: two reads that fail alike.
use m365_copilot2api_dsm.Prelude.{
  ◌<◌, ◌≡◌, refl, Bool, true, false, List, [], ◌∷◌, String, is_empty, length, filter, arith, codes,
  to_lower, contains, starts_with, lookup, insert,
}
use m365_copilot2api_dsm.Ledger.Texts.{
  Text, compact_tool_result, trim_bytes, trim_after, same_text, normalize_failure, squash_digits,
}
use m365_copilot2api_dsm.Ledger.{
  Turn, evidence_of, build_agent_ledger, can_continue, note_turns, note_calls, note_result,
  in_order, scan, scan_call, scan_result, scan_failure, last_of,
}
use m365_copilot2api_dsm.Ledger.Scan.{
  has_pair, is_repeat, is_same_failure, is_pending, is_completed,
}
use m365_copilot2api_dsm.Ledger.Continue.{build_agent_ledger_lem, can_continue_sound}

abbrev asks : String → Turn
asks id = record {
  role = "assistant";
  calls = record { id = id; name = codes "read"; arguments = codes "a.txt" } ∷ [];
  tool_call_id = "";
  content = [];
}

abbrev answers : String → Text → Turn
answers id text = record { role = "tool"; calls = []; tool_call_id = id; content = text }

abbrev says_error : Text → Bool
says_error t = contains t (codes "error")

abbrev failing : List Turn
failing =
    asks "1" ∷ answers "1" (codes "error 17") ∷ asks "2" ∷ answers "2" (codes "Error 18 error") ∷ []

abbrev failing_alike : List Turn
failing_alike =
    asks "1" ∷ answers "1" (codes "error 17") ∷ asks "2" ∷ answers "2" (codes "error 18") ∷ []

build_agent_ledger_lem_example :
    let es = evidence_of says_error failing in
    let l = build_agent_ledger says_error to_lower 3 5 failing in
    (l.tool_rounds ≡ length es)
    × (l.pending ≡ filter is_pending es)
    × (l.completed ≡ filter is_completed es)
    × (l.repeated_call ≡ has_pair is_repeat es)
    × (l.repeated_failure ≡ has_pair (is_same_failure to_lower) (filter is_completed es))
build_agent_ledger_lem_example = build_agent_ledger_lem says_error to_lower 3 5 failing

abbrev working : List Turn
working = asks "1" ∷ answers "1" (codes "done") ∷ []

can_continue_sound_example :
    let es = evidence_of says_error working in
    (length es < 32)
    × (is_empty (filter is_pending es) ≡ true)
    × (has_pair (is_same_failure to_lower) (filter is_completed es) ≡ false)
unfolding build_agent_ledger can_continue scan scan_call scan_result scan_failure last_of
    evidence_of note_turns note_calls note_result in_order same_text normalize_failure squash_digits
    compact_tool_result trim_bytes trim_after lookup insert to_lower contains starts_with
can_continue_sound_example =
    can_continue_sound says_error to_lower 3 5 32 working (omega arith) refl

trims : compact_tool_result (codes "  a result ") 100 ≡ codes "a result"
unfolding compact_tool_result trim_bytes trim_after
trims = refl
