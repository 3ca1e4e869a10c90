-- ===== src/Control/Commands.antt =====
-- control/commands.py: the commands and their queue, and the cancellation of a run.
use satay_runtime.Prelude.{
  ℕ, String, Bool, true, false, Option, none, some, List, [], ◌∷◌, ◌++◌, if◌then◌else◌,
}
use satay_runtime.Value.{Value, end}
use satay_runtime.Journal.Events.{is_terminal, workflow_cancelled, cancelled}
use satay_runtime.Journal.Store
use satay_runtime.Executor.{record_event}
use satay_runtime.Replay.Machine.{Exec, pure, ◌>>◌, with_store}

-- `INHERIT`, or an input to run the fork under.
pub data Override : Type 0 where
  inherit : Override
  override : Value → Override

pub data Command : Type 0 where
  -- workflow_name, workflow_input, run_id, idempotency_key
  start_run : String → Value → String → Option String → Command
  cancel_run : String → Command
  -- event_type, key, payload, run_id
  send_event : String → Option String → Value → Option String → Command
  -- source_run_id, fork_point_seq, run_id, workflow_input
  fork_run : String → ℕ → String → Override → Command

-- A CommandQueue: its `_items`.
abbrev pub CommandQueue : Type 0
CommandQueue = List Command

unfoldable pub submit : CommandQueue → Command → CommandQueue
submit queue command = queue ++ command ∷ []

unfoldable pub drain : CommandQueue → List Command × CommandQueue
drain queue = (queue, [])

-- `append_cancellation` for a run that may be cancelled.
unfoldable pub cancel_now : String → Exec Bool
cancel_now run_id = do
  record_event run_id workflow_cancelled end
  with_store (λ s. Store.set_status s run_id cancelled)
  pure true

unfoldable pub append_cancellation : String → Exec Bool
unfolding cancel_now
append_cancellation run_id m =
    elim (Store.get_run m.store run_id) as (λ _. Exec Bool) [
      | none ↦ pure false
      | some r ↦ if is_terminal r.status then pure false else cancel_now run_id
    ]
      m
