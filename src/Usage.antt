-- ===== src/Usage.antt =====
-- internal/web/usage.go: `usageLog`, the records of requests in memory and in a file. A write that fails
-- may have written a part of its text. The limits of the days are arguments, and so is the text of a
-- date.
pub mod Lines
pub mod History
pub mod Repeats
pub mod Totals
use mathlib.Core.List.{reverse}
use m365_copilot2api_dsm.Prelude.{
  ℕ, zero, suc, ◌+◌, ◌-◌, ◌/◌, Bool, true, false, ◌&&◌, not, none, some, Option, String, List, [],
  ◌∷◌, ◌++◌, ltb, leb, ◌==◌, if◌then◌else◌, length, is_empty, drop, take, filter, sort_by, Dict,
  lookup, insert, value_or, codes, starts_with,
}

pub record UsageRecord : Type 0 where
  pub time : ℕ
  pub api_key_prefix : String
  pub account_email : String
  pub model : String
  pub endpoint : String
  pub stream : Bool
  pub input_tokens : ℕ
  pub output_tokens : ℕ
  pub cache_tokens : ℕ
  pub duration_ms : ℕ
  pub status : ℕ

abbrev pub max_usage_records : ℕ
max_usage_records = 50_000

-- What a file has after its last newline: nothing, a text that is no record, or all of a record's line but
-- its newline.
pub data Tail : Type 0 where
  ended cut : Tail
  unended : UsageRecord → Tail

-- The lines of a file, where `none` is one that is no record.
pub record LogFile : Type 0 where
  pub lines : List (Option UsageRecord)
  pub tail : Tail

pub record UsageLog : Type 0 where
  pub records : List UsageRecord
  pub pending : List UsageRecord
  pub file : LogFile
  pub dirty : Bool

unfoldable pub trim : List UsageRecord → List UsageRecord
trim records =
    if ltb max_usage_records (length records)
    then drop (length records - max_usage_records) records
    else records

abbrev pub tail_records : Tail → List UsageRecord
tail_records (unended r) = r ∷ []
tail_records _ = []

abbrev pub line_records : List (Option UsageRecord) → List UsageRecord
line_records [] = []
line_records (none ∷ lines) = line_records lines
line_records (some r ∷ lines) = r ∷ line_records lines

-- What the scanner of `load` reads: the lines that are no records are left out.
unfoldable pub read_records : LogFile → List UsageRecord
read_records f = line_records f.lines ++ tail_records f.tail

-- `openUsageLog`, with `load`.
unfoldable pub load : LogFile → UsageLog
load f = record { records = trim (read_records f); pending = []; file = f; dirty = false }

-- A line is appended; after a text with no newline it is no record, nor is the text any more.
abbrev pub line_after : Tail → UsageRecord → Option UsageRecord
line_after ended r = some r
line_after _ r = none

unfoldable pub add_line : UsageRecord → LogFile → LogFile
add_line r f = record { lines = f.lines ++ (line_after f.tail r ∷ []); tail = ended }

-- How much of a line was written: nothing, some of it, or all but its newline.
pub data Piece : Type 0 where
  no_byte some_bytes all_bytes : Piece

unfoldable pub add_piece : Piece → UsageRecord → LogFile → LogFile
add_piece no_byte r f = f
add_piece some_bytes r f = record f { tail = cut }
add_piece all_bytes r f = record f {
  tail = elim f.tail [ ended ↦ unended r | cut ↦ cut | unended s ↦ cut ];
}

-- The text of a flush, and as much of it as `n` lines and a piece of the next one.
unfoldable pub write_lines : List UsageRecord → LogFile → LogFile
write_lines [] f = f
write_lines (r ∷ rs) f = write_lines rs (add_line r f)

unfoldable pub write_part : List UsageRecord → ℕ → Piece → LogFile → LogFile
write_part [] n piece f = f
write_part (r ∷ rs) zero piece f = add_piece piece r f
write_part (r ∷ rs) (suc n) piece f = write_part rs n piece (add_line r f)

-- `record`, without the counter of the analytics.
unfoldable pub add_record : UsageRecord → UsageLog → UsageLog
add_record r s = record s {
  records = trim (s.records ++ (r ∷ []));
  pending = s.pending ++ (r ∷ []);
  dirty = true;
}

-- How the file was written: it could not be opened; the write failed after some lines and a piece of
-- the next one; it could not be synced; or all went well.
pub data WriteEnd : Type 0 where
  unopened unsynced written : WriteEnd
  unwritten : ℕ → Piece → WriteEnd

-- The end of `flush`, with the records that it took; the state may hold newer ones by then.
unfoldable pub end_flush : WriteEnd → List UsageRecord → UsageLog → UsageLog × Bool
end_flush unopened taken s = (s, false)
end_flush (unwritten n piece) taken s =
    (record s { pending = taken ++ s.pending; file = write_part taken n piece s.file }, false)
end_flush unsynced taken s = (record s { file = write_lines taken s.file }, false)
end_flush written taken s = (record s { file = write_lines taken s.file }, true)

-- `flush`: `others` is what comes in while the file is written.
unfoldable pub flush : WriteEnd → (UsageLog → UsageLog) → UsageLog → UsageLog × Bool
flush how others s =
    if is_empty s.pending
    then (others s, true)
    else end_flush how s.pending (others (record s { pending = [] }))

-- `flushPending` of the `persistStore`.
unfoldable pub flush_pending : WriteEnd → (UsageLog → UsageLog) → UsageLog → UsageLog
flush_pending how others s =
    let (t, ok) = flush how others (record s { dirty = false }) in
    if s.dirty then (if ok then t else record t { dirty = true }) else others s

-- `countForKey`: the records of a key since midnight, and all of them.
unfoldable pub count_for_key : String → ℕ → List UsageRecord → ℕ × ℕ
count_for_key prefix midnight [] = (0, 0)
count_for_key prefix midnight (r ∷ records) =
    let (today, total) = count_for_key prefix midnight records in
    if starts_with (codes r.api_key_prefix) (codes prefix)
    then (if ltb r.time midnight then today else today + 1, total + 1)
    else (today, total)

-- `recentStats`, but for the percentage: the records from the cutoff on, and the failed ones.
unfoldable pub recent_stats : ℕ → List UsageRecord → ℕ × ℕ
recent_stats cutoff [] = (0, 0)
recent_stats cutoff (r ∷ records) =
    let (total, bad) = recent_stats cutoff records in
    if ltb r.time cutoff
    then (total, bad)
    else (total + 1, if leb 400 r.status then bad + 1 else bad)

-- `logs`: a page, counted from the newest record on, the newest first.
unfoldable pub logs : ℕ → ℕ → List UsageRecord → List UsageRecord
logs limit offset records =
    let total = length records in
    let skipped = if ltb total offset then total else offset in
    let start = total - skipped - limit in
    let end = total - skipped in
    if leb end start
    then []
    else reverse (sort_by (λ r. r.time) (take (end - start) (drop start records)))

pub record UsageCountStat : Type 0 where
  pub requests : ℕ
  pub tokens : ℕ

abbrev pub no_count : UsageCountStat
no_count = record { requests = 0; tokens = 0 }

abbrev pub req_tokens : UsageRecord → ℕ
req_tokens r = r.input_tokens + r.output_tokens + r.cache_tokens

abbrev pub one_more : UsageRecord → UsageCountStat → UsageCountStat
one_more r c = record { requests = c.requests + 1; tokens = c.tokens + req_tokens r }

-- The counts of the records by a text of theirs: the key, the model, the endpoint or the date.
unfoldable pub tally :
    (UsageRecord → String) → Dict UsageCountStat → List UsageRecord → Dict UsageCountStat
tally by counts [] = counts
tally by counts (r ∷ records) =
    tally by (insert (by r) (one_more r (value_or no_count (lookup (by r) counts))) counts) records

pub record Summary : Type 0 where
  pub requests : ℕ
  pub input : ℕ
  pub output : ℕ
  pub cache : ℕ
  pub duration_ms : ℕ
  pub today_requests : ℕ
  pub today_tokens : ℕ
  pub h24_requests : ℕ
  pub h24_tokens : ℕ

abbrev pub no_summary : Summary
no_summary = record {
  requests = 0;
  input = 0;
  output = 0;
  cache = 0;
  duration_ms = 0;
  today_requests = 0;
  today_tokens = 0;
  h24_requests = 0;
  h24_tokens = 0;
}

abbrev pub add_if : Bool → ℕ → ℕ → ℕ
add_if true n m = m + n
add_if false n m = m

-- A turn of the loop, with the start of today and the instant a day ago.
abbrev pub count_in : ℕ → ℕ → Summary → UsageRecord → Summary
count_in today day_ago s r = record {
  requests = s.requests + 1;
  input = s.input + r.input_tokens;
  output = s.output + r.output_tokens;
  cache = s.cache + r.cache_tokens;
  duration_ms = s.duration_ms + r.duration_ms;
  today_requests = add_if (ltb today r.time) 1 s.today_requests;
  today_tokens = add_if (ltb today r.time) (req_tokens r) s.today_tokens;
  h24_requests = add_if (ltb day_ago r.time) 1 s.h24_requests;
  h24_tokens = add_if (ltb day_ago r.time) (req_tokens r) s.h24_tokens;
}

unfoldable pub sum_up : ℕ → ℕ → Summary → List UsageRecord → Summary
sum_up today day_ago s [] = s
sum_up today day_ago s (r ∷ records) = sum_up today day_ago (count_in today day_ago s r) records

abbrev pub avg_ms : Summary → ℕ
avg_ms s = if ltb 0 s.requests then s.duration_ms / s.requests else 0

-- `snapshot`, before its lists are sorted.
pub record Snapshot : Type 0 where
  pub summary : Summary
  pub models : Dict UsageCountStat
  pub endpoints : Dict UsageCountStat
  pub keys : Dict UsageCountStat
  pub trend : Dict UsageCountStat

unfoldable pub snapshot : (ℕ → String) → ℕ → ℕ → ℕ → List UsageRecord → Snapshot
snapshot date cutoff today day_ago records =
    let recent = filter (λ r. not (ltb r.time cutoff)) records in
    record {
      summary = sum_up today day_ago no_summary recent;
      models = tally (λ r. r.model) [] recent;
      endpoints = tally (λ r. r.endpoint) [] recent;
      keys = tally (λ r. r.api_key_prefix) [] recent;
      trend = tally (λ r. date r.time) [] recent;
    }
