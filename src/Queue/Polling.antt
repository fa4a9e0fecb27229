-- ===== src/Queue/Polling.antt =====
-- The blocking `Dequeue` of internal/mcp/queue.go.
use m365_copilot2api_dsm.Prelude.{ℕ, zero, suc, ◌+◌, ◌*◌, ◌≤◌, ◌≡◌, true, some, arith, is_some}
use m365_copilot2api_dsm.Queue.{ToolCallQueue, World, poll, dequeue}

-- A `Dequeue` whose context has a deadline comes to an end: as many rounds as there are 50 ms until the
-- deadline, and one more, are enough.
pub dequeue_ends :
    (w : World) (k i now deadline : ℕ) (q : ToolCallQueue)
    → w.done_at ≡ some deadline
    → deadline ≤ now + k * poll
    → is_some (dequeue (suc k) w i now q) ≡ true
unfolding dequeue
dequeue_ends w zero i now deadline q d enough = ground (arith, d)
dequeue_ends w (suc k) i now deadline q d enough =
    let later =
      dequeue_ends w k (suc i) (now + poll + w.late i) deadline (w.others i q) d (omega arith) in
    ground (arith, d, later)
