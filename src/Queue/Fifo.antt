-- ===== src/Queue/Fifo.antt =====
-- The order in which internal/mcp/queue.go hands out tool calls.
use mathlib.Core.List.{append_assoc, append-nil}
use m365_copilot2api_dsm.Prelude.{
  ℕ, zero, suc, ◌+◌, ◌≡◌, refl, sym, ap, subst, ◌∙◌, Option, none, some, String, List, [], ◌∷◌,
  ◌++◌, map,
}
use m365_copilot2api_dsm.Queue.{
  PendingToolCall, ToolCallQueue, enqueue, take_first, dequeue_non_blocking, resolve_call,
}

-- A locked part of the queue: `Enqueue`, a turn of either `Dequeue`, or `Resolve`.
pub data Step : Type 0 where
  enqueues : String → String → ℕ → Step
  dequeues : Step
  resolves : ℕ → List String → Option String → Step

abbrev pub hand : Option PendingToolCall → List PendingToolCall → List PendingToolCall
hand none handed = handed
hand (some call) handed = call ∷ handed

unfoldable pub step : Step → ToolCallQueue → ToolCallQueue × Option PendingToolCall
step (enqueues name arguments now) q = ((enqueue name arguments now q).0, none)
step dequeues q = dequeue_non_blocking q
step (resolves n result err) q = (resolve_call n result err q, none)

-- The queue after a run, and the calls that were handed out, in order.
unfoldable pub run : List Step → ToolCallQueue → ToolCallQueue × List PendingToolCall
run [] q = (q, [])
run (s ∷ steps) q =
    let (next, call) = step s q in let (end, handed) = run steps next in (end, hand call handed)

-- `n + 1`, `n + 2` and so on, `k` numbers.
unfoldable pub count_from : ℕ → ℕ → List ℕ
count_from n zero = []
count_from n (suc k) = (n + 1) ∷ count_from (n + 1) k

abbrev pub numbers : List PendingToolCall → List ℕ
numbers = map (λ c. c.number)

-- How many calls a run enqueues.
unfoldable pub enqueued : List Step → ℕ
enqueued [] = 0
enqueued (enqueues name arguments now ∷ steps) = suc (enqueued steps)
enqueued (dequeues ∷ steps) = enqueued steps
enqueued (resolves n result err ∷ steps) = enqueued steps

numbers-append : (cs ds : List PendingToolCall) → numbers (cs ++ ds) ≡ numbers cs ++ numbers ds
numbers-append [] ds = refl
numbers-append (c ∷ cs) ds = ap (λ l. c.number ∷ l) (numbers-append cs ds)

-- What one turn hands out stood in front of the rest.
hand-take_first :
    (q : ToolCallQueue) (l handed after : List PendingToolCall) (more : List ℕ)
    → q.pending ≡ l
    → let (t, call) = take_first q l in
      (t.next_id ≡ q.next_id)
      × (numbers (handed ++ after) ≡ numbers t.pending ++ more
          → numbers (hand call handed ++ after) ≡ numbers l ++ more)
hand-take_first q [] handed after more e = (refl, λ h. h ∙ ap (λ l. numbers l ++ more) e)
hand-take_first q (c ∷ l) handed after more e = (refl, λ h. ap (λ l. c.number ∷ l) h)

-- The calls that a run hands out and the ones that are pending after it, in this order, are the ones that
-- were pending before and then the ones that it enqueues, numbered one after the other: each is handed
-- to one client at most, and in the order in which they came, whatever is resolved meanwhile.
pub run_fifo :
    (steps : List Step) (q : ToolCallQueue)
    → let (end, handed) = run steps q in
      numbers (handed ++ end.pending) ≡ numbers q.pending ++ count_from q.next_id (enqueued steps)
unfolding run step enqueued count_from enqueue dequeue_non_blocking resolve_call
run_fifo [] q = sym (append-nil (numbers q.pending))
run_fifo (enqueues name arguments now ∷ steps) q =
    let (next, call) = enqueue name arguments now q in
    cc (
      run_fifo steps next,
      numbers-append q.pending (call ∷ []),
      append_assoc (numbers q.pending) (numbers (call ∷ []))
          (count_from (q.next_id + 1) (enqueued steps)),
    )
run_fifo (dequeues ∷ steps) q =
    let (next, call) = dequeue_non_blocking q in
    let (end, handed) = run steps next in
    let (same, front) =
      hand-take_first q q.pending handed end.pending (count_from q.next_id (enqueued steps)) refl in
    front (
      subst
        (λ n.
          numbers (handed ++ end.pending) ≡ numbers next.pending ++ count_from n (enqueued steps))
        same (run_fifo steps next))
run_fifo (resolves n result err ∷ steps) q = run_fifo steps (resolve_call n result err q)
