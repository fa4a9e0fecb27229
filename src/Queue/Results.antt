-- ===== src/Queue/Results.antt =====
-- What internal/mcp/queue.go answers to the server that waits for a tool call.
use m365_copilot2api_dsm.Prelude.{
  ℕ, ◌≤◌, ◌≡◌, ap, subst, Bool-cases, inl, inr, ◌∙◌, Option, none, some, String, List, [], ◌∷◌,
  ◌==◌, arith,
}
use m365_copilot2api_dsm.Queue.{
  PendingToolCall, ToolCallQueue, Channels, by_result, call_end, enqueue, take_first,
  dequeue_non_blocking, resolve_call, send, set_channels,
}
use m365_copilot2api_dsm.Queue.Fifo.{Step, enqueues, dequeues, resolves, step, run}

-- A result stays in its channel, since numbers are not given out twice.
abbrev pub Holds : ℕ → List String → ToolCallQueue → Type 0
Holds n x q = (n ≤ q.next_id) × ((q.channels n).result_ch ≡ some x)

take_first-Holds :
    (n : ℕ) (x : List String) (q : ToolCallQueue) (l : List PendingToolCall)
    → Holds n x q
    → Holds n x (take_first q l).0
take_first-Holds n x q [] h = h
take_first-Holds n x q (c ∷ l) h = h

set_channels-result :
    (m n : ℕ) (c : Channels) (channels : ℕ → Channels) {x : Option (List String)}
    → ((channels m).result_ch ≡ x → c.result_ch ≡ x)
    → (channels n).result_ch ≡ x
    → (set_channels m c channels n).result_ch ≡ x
set_channels-result m n c channels {x} kept e = elim (Bool-cases (n == m)) [
  | inl p ↦
      let same : n ≡ m = ground (arith, p) in
      rw p (kept (subst (λ k. (channels k).result_ch ≡ x) same e))
  | inr p ↦ rw p e
]

set_channels-same :
    (n : ℕ) (c : Channels) (channels : ℕ → Channels) → set_channels n c channels n ≡ c
set_channels-same n c channels = ground arith

step-Holds :
    (s : Step) (n : ℕ) (x : List String) (q : ToolCallQueue) → Holds n x q → Holds n x (step s q).0
unfolding step enqueue resolve_call dequeue_non_blocking
step-Holds (enqueues name arguments now) n x q (le, e) = (omega arith, ground (arith, le, e))
step-Holds dequeues n x q h = take_first-Holds n x q q.pending h
step-Holds (resolves m result none) n x q (le, e) =
    (le, set_channels-result m n _ q.channels (λ f. ap (send result) f) e)
step-Holds (resolves m result (some err)) n x q (le, e) =
    (le, set_channels-result m n _ q.channels (λ f. f) e)

run-Holds :
    (steps : List Step) (n : ℕ) (x : List String) (q : ToolCallQueue)
    → Holds n x q
    → Holds n x (run steps q).0
unfolding run
run-Holds [] n x q h = h
run-Holds (s ∷ steps) n x q h = run-Holds steps n x (step s q).0 (step-Holds s n x q h)

-- The first result that a call is resolved with is the one that `CallTool` answers with when it takes
-- the channel of results, whatever is enqueued, handed out or resolved between, the same call included.
pub first_result_stays :
    (n : ℕ) (x : List String) (steps : List Step) (q : ToolCallQueue) (name cancelled : String)
    → n ≤ q.next_id
    → (q.channels n).result_ch ≡ none
    → call_end by_result name cancelled ((run (resolves n x none ∷ steps) q).0.channels n)
      ≡ some (some x, none)
unfolding call_end run step resolve_call
first_result_stays n x steps q name cancelled le e =
    let (_, held) =
      run-Holds steps n x (resolve_call n x none q)
        (le, ap (λ c. c.result_ch) (set_channels-same n _ q.channels) ∙ ap (send x) e) in
    cc held
