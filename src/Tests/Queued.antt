-- ===== src/Tests/Queued.antt =====
-- Runs of the model of internal/mcp/queue.go.
use m365_copilot2api_dsm.Prelude.{◌≡◌, refl, true, none, some, List, [], ◌∷◌, ◌++◌, arith, is_some}
use m365_copilot2api_dsm.Queue.{
  ToolCallQueue, World, new_queue, enqueue, dequeue_non_blocking, resolve_call, dequeue, by_result,
  call_end,
}
use m365_copilot2api_dsm.Queue.Fifo.{
  Step, enqueues, dequeues, resolves, run, step, count_from, enqueued, numbers, run_fifo,
}
use m365_copilot2api_dsm.Queue.Polling.{dequeue_ends}
use m365_copilot2api_dsm.Queue.Results.{first_result_stays}

abbrev two_calls : List Step
two_calls =
    enqueues "read" "a" 1 ∷ enqueues "write" "b" 2 ∷ dequeues ∷ resolves 1 ("late" ∷ []) none ∷ []

second_waits : numbers (run two_calls new_queue).1 ≡ 1 ∷ []
unfolding run step enqueue dequeue_non_blocking resolve_call new_queue
second_waits = refl

run_fifo_example :
    let (end, handed) = run two_calls new_queue in
    numbers (handed ++ end.pending)
    ≡ numbers new_queue.pending ++ count_from new_queue.next_id (enqueued two_calls)
run_fifo_example = run_fifo two_calls new_queue

-- A call comes in the second round.
abbrev busy : World
busy = record {
  done_at = some 100_000_000;
  late = λ i. i;
  takes_timer = λ i. true;
  others = λ i q. (enqueue "read" "a" i q).0;
}

dequeue_ends_example : is_some (dequeue 3 busy 0 0 new_queue) ≡ true
dequeue_ends_example = dequeue_ends busy 2 0 0 100_000_000 new_queue refl (omega arith)

abbrev one_call : ToolCallQueue
one_call = record {
  pending = [];
  next_id = 1;
  channels = λ n. record { result_ch = none; err_ch = none };
}

first_result_stays_example :
    call_end by_result "read" "cancelled"
      ((run (resolves 1 ("first" ∷ []) none ∷ two_calls) one_call).0.channels 1)
    ≡ some (some ("first" ∷ []), none)
first_result_stays_example =
    first_result_stays 1 ("first" ∷ []) two_calls one_call "read" "cancelled" (omega arith) refl
