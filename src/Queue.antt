-- ===== src/Queue.antt =====
-- internal/mcp/queue.go: `ToolCallQueue` and `MCPToolProvider.CallTool`. The channels of a call hold one
-- value each; they are a map from the number of a call, since a call is shared by pointer. The number of
-- a call is the one in its name, `mcp-tool-%d`.
pub mod Fifo
pub mod Polling
pub mod Results
use m365_copilot2api_dsm.Prelude.{
  ℕ, zero, suc, ◌+◌, ◌*◌, Bool, true, false, ◌&&◌, not, Option, none, some, String, List, [], ◌∷◌,
  ◌++◌, leb, ◌==◌, if◌then◌else◌, length, second,
}
use Prim.Native.String.{◌++◌ as join}

-- `Arguments`, as JSON has them, and `CallResult`, by its texts.
pub record PendingToolCall : Type 0 where
  pub number : ℕ
  pub name : String
  pub arguments : String
  pub created_at : ℕ

pub record Channels : Type 0 where
  pub result_ch : Option (List String)
  pub err_ch : Option String

abbrev pub open_channels : Channels
open_channels = record { result_ch = none; err_ch = none }

pub record ToolCallQueue : Type 0 where
  pub pending : List PendingToolCall
  pub next_id : ℕ
  pub channels : ℕ → Channels

unfoldable pub new_queue : ToolCallQueue
new_queue = record { pending = []; next_id = 0; channels = λ n. open_channels }

abbrev pub set_channels : ℕ → Channels → (ℕ → Channels) → ℕ → Channels
set_channels n c channels m = if m == n then c else channels m

unfoldable pub enqueue : String → String → ℕ → ToolCallQueue → ToolCallQueue × PendingToolCall
enqueue name arguments now q =
    let call : PendingToolCall = record {
      number = q.next_id + 1;
      name = name;
      arguments = arguments;
      created_at = now;
    } in
    (
      record {
        pending = q.pending ++ (call ∷ []);
        next_id = q.next_id + 1;
        channels = set_channels (q.next_id + 1) open_channels q.channels;
      },
      call,
    )

abbrev pub take_first :
    ToolCallQueue → List PendingToolCall → ToolCallQueue × Option PendingToolCall
take_first q [] = (q, none)
take_first q (call ∷ rest) = (record q { pending = rest }, some call)

unfoldable pub dequeue_non_blocking : ToolCallQueue → ToolCallQueue × Option PendingToolCall
dequeue_non_blocking q = take_first q q.pending

abbrev pub send {ℓ} : {A : Type ℓ} → A → Option A → Option A
send x none = some x
send x (some y) = some y

abbrev pub send_either : List String → Option String → Channels → Channels
send_either result none c = record c { result_ch = send result c.result_ch }
send_either result (some err) c = record c { err_ch = send err c.err_ch }

-- `Resolve`: a channel that is full keeps what it has.
unfoldable pub resolve_call : ℕ → List String → Option String → ToolCallQueue → ToolCallQueue
resolve_call n result err q = record q {
  channels = set_channels n (send_either result err (q.channels n)) q.channels;
}

unfoldable pub pending_count : ToolCallQueue → ℕ
pending_count q = length q.pending

-- What the rounds of a blocking `Dequeue` meet: when the context is done, how much later than 50 ms a
-- round wakes up, which channel the `select` of a round takes when both are ready, and what other calls
-- do to the queue in a round.
pub record World : Type 0 where
  pub done_at : Option ℕ
  pub late : ℕ → ℕ
  pub takes_timer : ℕ → Bool
  pub others : ℕ → ToolCallQueue → ToolCallQueue

abbrev pub is_done : Option ℕ → ℕ → Bool
is_done none now = false
is_done (some d) now = leb d now

abbrev pub poll : ℕ
poll = 50_000_000

-- `Dequeue`, from round `i` at a time on; `none` if the fuel ends.
unfoldable pub dequeue :
    ℕ → World → ℕ → ℕ → ToolCallQueue → Option (ToolCallQueue × Option PendingToolCall)
dequeue zero w i now q = none
dequeue (suc fuel) w i now q =
    let wake = now + poll + w.late i in
    let rest = dequeue fuel w (suc i) wake (w.others i q) in
    elim q.pending [
      | call ∷ calls ↦ some (record q { pending = calls }, some call)
      | [] ↦
          if is_done w.done_at now
          then some (q, none)
          else if is_done w.done_at wake && not (w.takes_timer i)
          then some (w.others i q, none)
          else rest
    ]

-- Which case the `select` of `CallTool` takes.
pub data Wake : Type 0 where
  by_result by_error by_timer by_context : Wake

abbrev pub forwarded : String → List String
forwarded name =
    join "Tool call " (
      join name
        " has been forwarded to the client for execution. The result will be provided in a subsequent turn.")
    ∷ []

-- The end of `CallTool`, with the text of the context's error: `none` if that case is not ready.
unfoldable pub call_end :
    Wake → String → String → Channels → Option (Option (List String) × Option String)
call_end by_result name cancelled c = elim c.result_ch [
  | none ↦ none
  | some result ↦ some (some result, none)
]
call_end by_error name cancelled c = elim c.err_ch [
  | none ↦ none
  | some err ↦ some (none, some err)
]
call_end by_timer name cancelled c = some (some (forwarded name), none)
call_end by_context name cancelled c = some (none, some cancelled)
