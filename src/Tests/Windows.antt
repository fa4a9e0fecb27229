-- ===== src/Tests/Windows.antt =====
-- Runs of the model of internal/web/context_budget.go: a conversation that does not fit.
use m365_copilot2api_dsm.Prelude.{◌≡◌, refl, true, String, List, [], ◌∷◌, to_lower, Option, some}
use m365_copilot2api_dsm.Context.Messages.{
  Message, heuristic_token_count, role_of, estimate_message_tokens,
}
use m365_copilot2api_dsm.Context.Atoms.{
  build_atoms_fast, build_atoms_with_counter, build, mark_anchor, span,
}
use m365_copilot2api_dsm.Context.Atoms.Kinds.{system_of}
use m365_copilot2api_dsm.Context.Window.{
  Window, Marked, fits, window, sliding_window_detailed, fill, pin, selected_msgs, count_selected,
  last_msgs, total_tokens, marked_tokens, all_tools,
}
use m365_copilot2api_dsm.Context.Window.Fit.{Fitting, window_fits}
use m365_copilot2api_dsm.Context.Window.Choice.{Chosen, window_chooses}
use m365_copilot2api_dsm.Context.Window.{CompactSettings, maybe_compact}
use m365_copilot2api_dsm.Context.Window.Pinned.{window_keeps_system}

abbrev says : String → String → Message
says role content = record {
  role = role;
  content = content;
  name = "";
  tool_call_id = "";
  tool_calls = [];
}

abbrev talk : List Message
talk =
    says "system" "be brief"
    ∷ says "user" "first question"
    ∷ says "assistant" "one long answer to it"
    ∷ says "user" "more"
    ∷ []

abbrev cut : Window
cut = record {
  kept = says "system" "be brief" ∷ says "user" "first question" ∷ says "user" "more" ∷ [];
  dropped = says "assistant" "one long answer to it" ∷ [];
  dropped_tokens = 12;
  truncated = true;
}

talk-cut : sliding_window_detailed talk 35 ≡ fits cut
unfolding sliding_window_detailed window build_atoms_fast build_atoms_with_counter build mark_anchor
    span role_of heuristic_token_count estimate_message_tokens fill pin selected_msgs count_selected
    last_msgs total_tokens marked_tokens all_tools to_lower
talk-cut = refl

window_fits_example : Fitting heuristic_token_count talk (build_atoms_fast talk) 35 cut
window_fits_example = window_fits talk 35 refl talk-cut

window_chooses_example : (ps : List Marked) × Chosen (build_atoms_fast talk) 35 cut ps
window_chooses_example = window_chooses talk 35 refl talk-cut

window_keeps_system_example : system_of cut.kept ≡ system_of talk
window_keeps_system_example = window_keeps_system talk 35 talk-cut

abbrev settings : CompactSettings
settings = record { enabled = true; min_tokens = 5 }

abbrev summary : List Message → Option String
summary ms = some "a long answer"

compacted :
    maybe_compact settings summary (says "system") talk 35
    ≡ some (says "system" "a long answer" ∷ cut.kept, true)
unfolding maybe_compact sliding_window_detailed window build_atoms_fast build_atoms_with_counter
    build mark_anchor span role_of heuristic_token_count estimate_message_tokens fill pin
    selected_msgs count_selected last_msgs total_tokens marked_tokens all_tools to_lower
compacted = refl
