-- ===== src/Usage/Totals.antt =====
-- The sums and the counts of internal/web/usage.go.
use m365_copilot2api_dsm.Prelude.{
  ℕ, ◌+◌, ◌≡◌, not, String, List, [], ◌∷◌, length, filter, Dict, lookup, insert, value_or, arith,
  eq_iff, ltb,
}
use m365_copilot2api_dsm.Usage.{
  UsageRecord, UsageCountStat, no_count, req_tokens, one_more, tally, Summary, no_summary, count_in,
  sum_up, snapshot,
}

-- The counts of a map, together.
unfoldable pub all_requests : Dict UsageCountStat → ℕ
all_requests [] = 0
all_requests ((k, c) ∷ counts) = c.requests + all_requests counts

unfoldable pub all_tokens : Dict UsageCountStat → ℕ
all_tokens [] = 0
all_tokens ((k, c) ∷ counts) = c.tokens + all_tokens counts

requests-insert :
    (key : String) (r : UsageRecord) (counts : Dict UsageCountStat)
    → all_requests (insert key (one_more r (value_or no_count (lookup key counts))) counts)
      ≡ all_requests counts + 1
unfolding all_requests insert lookup
requests-insert key r [] = omega arith
requests-insert key r ((k, c) ∷ counts) = ground (arith, requests-insert key r counts, eq_iff k key)

tokens-insert :
    (key : String) (r : UsageRecord) (counts : Dict UsageCountStat)
    → all_tokens (insert key (one_more r (value_or no_count (lookup key counts))) counts)
      ≡ all_tokens counts + req_tokens r
unfolding all_tokens insert lookup
tokens-insert key r [] = omega arith
tokens-insert key r ((k, c) ∷ counts) = ground (arith, tokens-insert key r counts, eq_iff k key)

abbrev sum_tokens : List UsageRecord → ℕ
sum_tokens [] = 0
sum_tokens (r ∷ records) = req_tokens r + sum_tokens records

tally-all :
    (by : UsageRecord → String) (counts : Dict UsageCountStat) (records : List UsageRecord)
    → (all_requests (tally by counts records) ≡ all_requests counts + length records)
      × (all_tokens (tally by counts records) ≡ all_tokens counts + sum_tokens records)
unfolding tally
tally-all by counts [] = (omega arith, omega arith)
tally-all by counts (r ∷ records) =
    let next = insert (by r) (one_more r (value_or no_count (lookup (by r) counts))) counts in
    let (n, t) = tally-all by next records in
    (
      omega (arith, n, requests-insert (by r) r counts),
      omega (arith, t, tokens-insert (by r) r counts),
    )

sum_up-all :
    (today day_ago : ℕ) (s : Summary) (records : List UsageRecord)
    → let t = sum_up today day_ago s records in
      (t.requests ≡ s.requests + length records)
      × (t.input + t.output + t.cache ≡ s.input + s.output + s.cache + sum_tokens records)
unfolding sum_up
sum_up-all today day_ago s [] = (omega arith, omega arith)
sum_up-all today day_ago s (r ∷ records) =
    let (n, t) = sum_up-all today day_ago (count_in today day_ago s r) records in
    (omega (arith, n), omega (arith, t))

-- Counts that account for each request and each token of a summary.
abbrev pub Accounts : Summary → Dict UsageCountStat → Type 0
Accounts s counts =
    (all_requests counts ≡ s.requests) × (all_tokens counts ≡ s.input + s.output + s.cache)

tally-Accounts :
    (by : UsageRecord → String) (today day_ago : ℕ) (records : List UsageRecord)
    → Accounts (sum_up today day_ago no_summary records) (tally by [] records)
unfolding all_requests all_tokens
tally-Accounts by today day_ago records =
    let (n, t) = tally-all by [] records in
    let (m, u) = sum_up-all today day_ago no_summary records in
    (omega (arith, n, m), omega (arith, t, u))

-- In every snapshot the counts by model, by endpoint, by key and by date each add up to the requests and
-- the tokens of the summary.
pub snapshot-Accounts :
    (date : ℕ → String) (cutoff today day_ago : ℕ) (records : List UsageRecord)
    → let s = snapshot date cutoff today day_ago records in
      Accounts s.summary s.models
      × Accounts s.summary s.endpoints
      × Accounts s.summary s.keys
      × Accounts s.summary s.trend
unfolding snapshot
snapshot-Accounts date cutoff today day_ago records =
    let recent = filter (λ r. not (ltb r.time cutoff)) records in
    (
      tally-Accounts (λ r. r.model) today day_ago recent,
      tally-Accounts (λ r. r.endpoint) today day_ago recent,
      tally-Accounts (λ r. r.api_key_prefix) today day_ago recent,
      tally-Accounts (λ r. date r.time) today day_ago recent,
    )
