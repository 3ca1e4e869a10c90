-- ===== src/Control/Apply.antt =====
-- control/commands.py: the drive of a fork, and how the worker applies a command.
use satay_runtime.Prelude.{ℕ, String, false, if◌then◌else◌, none, some, List, [], ◌∷◌}
use satay_runtime.Value.{Value, null, get}
use satay_runtime.Errors.{Result, ok, unknown_workflow_error}
use satay_runtime.Journal.Events.{Event}
use satay_runtime.Journal.Store
use satay_runtime.Journal.Store.{Store}
use satay_runtime.Replay.Machine.{Env, Exec, pure, throw, lift, ◌>>=◌, ◌>>◌, with_store}
use satay_runtime.Api.Runner.{
  Process, WorkflowDefinition, read_run, get_now, drive_run, build_run_handle, result,
}
use satay_runtime.Control.Commands.{
  Command, start_run, cancel_run, send_event, fork_run, Override, append_cancellation,
}
use satay_runtime.Control.Forks.{create_fork, is_workflow_created}

-- The input that the first WorkflowCreated of a journal records; None where there is none.
unfoldable pub recorded_input : Env → String → List Event → Result Value
recorded_input env annotation [] = ok null
recorded_input env annotation (e ∷ es) =
    let rest = recorded_input env annotation es in
    if is_workflow_created e.type
    then env.rehydrate (elim (get e.payload "input_ref") [ none ↦ null | some v ↦ v ]) annotation
    else rest

-- An operation of the store that may fail.
abbrev pub on_store : {A : Type 0} → (Store → Result A × Store) → Exec A
on_store f m = let (r, s) = f m.store in lift r (record m { store = s })

module _ (p : Process) where
  -- The workflow's own recorded input, then a drive by a new engine.
  unfoldable pub drive_recorded : String → WorkflowDefinition → Exec (Unit {0})
  unfolding recorded_input
  drive_recorded run_id workflow = do
    events ← read_run run_id
    input ← lift (recorded_input p.env workflow.takes events)
    drive_run p run_id workflow input

  -- `drive_forked_run`
  unfoldable pub drive_forked_run : String → String → Exec (Unit {0})
  unfolding drive_recorded
  drive_forked_run run_id workflow_name = elim (p.get_workflow workflow_name) [
    | none ↦ throw (unknown_workflow_error workflow_name)
    | some workflow ↦ drive_recorded run_id workflow
  ]

  -- `apply_fork`
  unfoldable pub apply_fork : String → ℕ → String → Override → Exec (Unit {0})
  unfolding drive_forked_run
  apply_fork source point new input = do
    now ← get_now
    workflow_name ← on_store (λ s. create_fork s source point new now p.code_version input)
    drive_forked_run new workflow_name

  -- `apply_command`
  unfoldable pub apply_command : Command → Exec (Unit {0})
  unfolding apply_fork
  apply_command (cancel_run run_id) = append_cancellation run_id >> pure tt
  apply_command (send_event event_type key payload run_id) = do
    now ← get_now
    with_store (λ s.
        (Store.add_inbox_event s (record {
          event_type = event_type;
          key = key;
          payload_ref = payload;
          received_at = now;
          run_id = run_id;
          consumed = false;
          row_id = 0;
        })).1)
  apply_command (fork_run source point new input) = apply_fork source point new input
  apply_command (start_run workflow_name input run_id idempotency_key) =
      elim (p.get_workflow workflow_name) [
        | none ↦ throw (unknown_workflow_error workflow_name)
        | some workflow ↦
            result p (build_run_handle workflow input (some run_id) idempotency_key run_id)
            >> pure tt
      ]

  -- `_apply_commands` behind the drain: an exception ends the loop.
  unfoldable pub apply_commands : List Command → Exec (Unit {0})
  unfolding apply_command
  apply_commands [] = pure tt
  apply_commands (c ∷ cs) = apply_command c >> apply_commands cs
