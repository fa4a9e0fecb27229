-- ===== src/Lib.antt =====
-- Verification of the gateway that serves the OpenAI, Anthropic and Responses protocols from Microsoft
-- 365 Copilot accounts: the parts that decide which key, which conversation, which account, which slot
-- and which proxy a request takes, for how long a failure keeps them out, which messages are sent, and
-- what is kept of keys, sessions, account tokens and usage.
--
-- How the parts interact. A request shows an API key (`apiKeyStore.valid`, `keyRateWindow.allow`,
-- `modelAllowed`). The session resolver looks for the conversation that it goes on with
-- (`sessionResolver.Resolve`), and stores the conversation under its account when the answer is there
-- (`sessionResolver.Bind`); the next turn is resolved against that store. The token store gives the
-- next account (`TokenStore.Next`, `EnsureValid`). A request asks for a healthy account
-- (`accountHealth.Available`, which also asks the global circuit and is combined with
-- `accountConcurrency.Available`), takes a slot of it (`accountConcurrency.Acquire`), cuts its
-- messages to the context budget (`maybeCompactContext`), goes out through the proxy that the pool
-- picks (`Pool.pick`), and reports what came back (`MarkSuccess`, `MarkFailure`, `Pool.mark`).
-- `ClassifyError` turns the error into a category. The websocket comes from the connections dialed in
-- advance (`ConnPool.Take`). Before, a request with tools is refused if the ledger of its tool calls
-- says so (`buildAgentLedger`, `CanContinue`).
--
-- Which file models what.
--   Prelude: tests, lists, maps (a Go map is an association list with distinct keys), times and texts.
--   Health/Errors: internal/web/account_health.go, `ErrorCategory`, `ClassifyError` (the typed half as
--     `typed_category`, the half that searches the text as `text_category`), `IsRateLimited`,
--     `IsAuthFailure`, `RetryAfterSeconds`.
--   Health/Circuit: `globalCircuitState`, `is_open` for `IsOpen`, `record_result` for `Record`.
--   Health/Cooldown: `CooldownForCategory`.
--   Health/Accounts: `accountHealth`, with a record field for each of its maps. Accounts.antt has the
--     state, the clean-up and the image and metering methods, Failures.antt `MarkFailure` and
--     `MarkSuccess`, Recovery.antt `Available`, `CooldownUntil` and `EarliestRecovery`. Account.antt
--     is an abstract machine for one account, with an event for each method that changes what is kept
--     for it and one for the clean-up that the others begin with.
--   Slots: internal/web/account_concurrency.go, `accountConcurrency`.
--   Outbound: internal/outbound/pool.go and health.go, `Pool`; Outbound/Replay.antt has
--     `poolRoundTripper.RoundTrip`, with the network as an argument. Outbound/Addresses.antt is
--     ssrf.go, `IsUnsafeIP` and `DialControl`, and Reserved.antt about its blocks.
--   Lockout: internal/web/admin_security.go, `loginAllowed` and `recordLoginFailure`.
--   Context: internal/web/context_budget.go, codex_usage.go (`heuristicTokenCount`) and
--     auto_compact.go (`maybeCompactContext`).
--   Connections: internal/chathub/connpool.go, `ConnPool`, with a step for each of its locked parts.
--   Ledger: internal/web/agent_ledger.go, `buildAgentLedger`, `compactToolResult`, `CanContinue`.
--   Sessions: internal/web/session_resolver.go. Store has the sessions and their four indexes with
--     `reindexLocked`, `dropLocked` and `evictLocked`, Matching the comparisons of messages, Resolve
--     `Resolve` with its searches, Bind `Bind`, the lookups and the deletions. Names, Stored, Kept,
--     Loaded, Limit and Size are about the indexes, a loaded file and the bound, Search, Choice, Targets and Sound about what
--     `Resolve` answers, Fits and Resume about `Bind` and then `Resolve`, Clone about `cloneMessages`,
--     Isolation about the lookups of other tenants.
--   Keys: internal/web/keys.go, `apiKeyStore` in Store, Update and Lookup, `keyRateWindow`,
--     `ipAllowed` and `modelAllowed` in Access. Rollback and Atomic are about writes that fail,
--     Lifecycle about runs of the operations, Minutes about the limits of a minute.
--   Tokens: internal/auth/cache.go, `TokenStore` in Store, the encryption in Sealing, `EnsureValid`
--     and `refreshInflight` in Refresh. Secrets is about the encrypted tokens, Rotation about `Next`,
--     Clients about the client ids that are stored.
--   Usage: internal/web/usage.go, `usageLog`, with `flushPending` of persist.go. Its file is a
--     list of lines and what follows the last newline. Lines, History and Repeats are about the file,
--     Totals about `snapshot`.
--   Queue: internal/mcp/queue.go, `ToolCallQueue` and the end of `CallTool`. Fifo is about the order
--     of the calls, Polling about the blocking `Dequeue`, Results about `Resolve`.
--   Tests: runs at concrete inputs.
--
-- How state and time are modelled. A method is a function from the state before to the state after and
-- the result. The mutexes make each method one step, so an interleaving of calls is a list of steps.
-- A method reads the clock once, as the argument `now`: nanoseconds since the zero time, which is 0.
-- An int64 duration is its bit pattern, with the wrap-around of a product written out. Counts of
-- calls, failures and tokens are natural numbers, since no run reaches the bounds of their machine
-- integers.
--
-- A method that unlocks its mutex while a file is written takes what other calls do meanwhile as an
-- argument, a function on the state, and whether the write goes well as another. The hash of a key, the
-- cipher of a token, the token counter and the parsing of addresses are arguments. A similarity of texts
-- is an exact fraction in place of a float64.
--
-- Fuel. `build`, the outer loop of `buildAtomsWithCounter`, takes the number of messages as fuel; each
-- round takes at least one message, so it is enough. The blocking `dequeue` takes the number of its
-- rounds. `first_ready` takes the number of entries, as the loop of `pick` does, and `replay` the
-- number of replays. `decimal` writes at most 20 digits, enough for a 64-bit number. No other loop
-- needs fuel.
--
-- What is not modelled: rendering for the administrator (`Snapshot`, `List`), logging and webhooks,
-- the network clients, JSON and the paths of files, the OAuth exchange, how concurrent requests share
-- one refresh that is under way, the tokenizer of a library, and the upstream call that summarises
-- dropped messages, which is an argument of `maybe_compact`. The texts that a program searches are
-- lowered in ASCII and in the two other letters that lower to ASCII.
pub mod Connections
pub mod Context
pub mod Health
pub mod Keys
pub mod Ledger
pub mod Lockout
pub mod Outbound
pub mod Prelude
pub mod Queue
pub mod Sessions
pub mod Slots
pub mod Tests
pub mod Tokens
pub mod Usage
