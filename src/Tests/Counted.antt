-- ===== src/Tests/Counted.antt =====
-- Runs of the model of internal/web/usage.go.
use m365_copilot2api_dsm.Prelude.{
  some, none, ℕ, ◌≡◌, refl, true, false, String, List, [], ◌∷◌, ◌++◌, starts_with, sort_by,
}
use m365_copilot2api_dsm.Usage.{
  LogFile, ended, no_byte, some_bytes, write_part, write_lines, add_piece, add_line, read_records,
  load, flush, flush_pending, end_flush, unwritten, UsageRecord, UsageLog, load, snapshot,
  unwritten, written, count_for_key, recent_stats, logs,
}
use m365_copilot2api_dsm.Usage.Totals.{Accounts, snapshot-Accounts}
use m365_copilot2api_dsm.Usage.History.{Event, comes, flushes, add_all, run}

abbrev request : ℕ → String → ℕ → UsageRecord
request time model status = record {
  time = time;
  api_key_prefix = "sk-12345...";
  account_email = "a@x";
  model = model;
  endpoint = "/v1/chat/completions";
  stream = false;
  input_tokens = 3;
  output_tokens = 4;
  cache_tokens = 0;
  duration_ms = 10;
  status = status;
}

abbrev three_requests : List UsageRecord
three_requests = request 1 "m" 200 ∷ request 2 "n" 500 ∷ request 3 "m" 200 ∷ []

counted : count_for_key "sk-12345" 2 three_requests ≡ (2, 3)
unfolding count_for_key starts_with
counted = refl

failed : recent_stats 2 three_requests ≡ (2, 1)
unfolding recent_stats
failed = refl

paged : logs 2 1 three_requests ≡ request 2 "n" 500 ∷ request 1 "m" 200 ∷ []
unfolding logs sort_by
paged = refl

snapshot-Accounts_example :
    let s = snapshot (λ t. "day") 2 1 0 three_requests in
    Accounts s.summary s.models
    × Accounts s.summary s.endpoints
    × Accounts s.summary s.keys
    × Accounts s.summary s.trend
snapshot-Accounts_example = snapshot-Accounts (λ t. "day") 2 1 0 three_requests

abbrev stored_requests : LogFile
stored_requests = record {
  lines = some (request 1 "m" 200) ∷ none ∷ some (request 2 "n" 500) ∷ [];
  tail = ended;
}

abbrev failing_writes : List Event
failing_writes =
    comes (request 1 "m" 200)
    ∷ flushes (unwritten 0 no_byte) (request 2 "n" 500 ∷ [])
    ∷ flushes written []
    ∷ []

abbrev one_dirty : UsageLog
one_dirty = record {
  records = three_requests;
  pending = three_requests;
  file = stored_requests;
  dirty = true;
}

-- A write that ends within a line: that line and the first one of the next write are no records.
torn :
    read_records
      (run one_dirty (flushes (unwritten 0 some_bytes) [] ∷ flushes written [] ∷ [])).file
    ≡ read_records stored_requests ++ request 2 "n" 500 ∷ request 3 "m" 200 ∷ []
unfolding run flush_pending flush end_flush add_all write_part write_lines add_piece add_line
    read_records
torn = refl
