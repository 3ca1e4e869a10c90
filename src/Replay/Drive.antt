-- ===== src/Replay/Drive.antt =====
-- `drive` of replay/engine.py: a workflow is run from the top against its journal.
use satay_runtime.Prelude.{ℕ, String, Option, none, some, List, [], ◌∷◌, if◌then◌else◌}
use satay_runtime.Value.{Value, Items, Fields, str, dict, end, field}
use satay_runtime.Errors.{Exn, Result, ok, raise, propagates}
use satay_runtime.Journal.Codec.{encode}
use satay_runtime.Journal.Events.{
  EventType, Event, RunStatus, workflow_completed, workflow_failed, workflow_cancelled, waiting,
  completed, failed, cancelled,
}
use satay_runtime.Journal.Store
use satay_runtime.Executor.{record_event}
use satay_runtime.Replay.Load.{load_journal}
use satay_runtime.Replay.Machine.{
  Env, TaskDefinition, Exec, Outcome, returned, raised, parked, pure, throw, lift, ◌>>=◌, ◌>>◌,
  get_engine, set_engine, with_store,
}
use satay_runtime.Replay.Engine.{durable_call}
use satay_runtime.Replay.Waits.{durable_sleep, durable_wait_for_event}

-- A workflow body at the point that it has reached.
pub data Workflow : Type 0 where
  returns : Value → Workflow
  raises : Exn → Workflow
  -- await task(*args, **kwargs)
  calls : TaskDefinition → Items → Fields → (Result Value → Workflow) → Workflow
  -- await satay.sleep(duration)
  sleeps : ℕ → (Result Value → Workflow) → Workflow
  -- await satay.wait_for_event(event_type, key, timeout) at an annotation
  waits : String → Option String → Option ℕ → String → (Result Value → Workflow) → Workflow

-- What the body of the workflow sees of an operation: a park is no exception that it can catch.
abbrev pub attempt : {A : Type 0} → Exec A → Exec (Result A)
attempt a m =
    let (r, m') = a m in
    elim r [
      | returned v ↦ (returned (ok v), m')
      | raised e ↦ (returned (raise e), m')
      | parked ↦ (parked, m')
    ]

module _ (env : Env) where
  -- await workflow_def.fn(workflow_input)
  unfoldable pub run : Workflow → Exec Value
  run (returns v) = pure v
  run (raises e) = throw e
  run (calls d args kwargs k) = attempt (durable_call env d args kwargs) >>= λ r. run (k r)
  run (sleeps duration k) = attempt (durable_sleep env duration) >>= λ r. run (k r)
  run (waits event_type key timeout annotation k) =
      attempt (durable_wait_for_event env event_type key timeout annotation) >>= λ r. run (k r)

-- _TERMINAL_EVENT_STATUS
abbrev pub terminal_status : EventType → Option RunStatus
terminal_status workflow_completed = some completed
terminal_status workflow_failed = some failed
terminal_status workflow_cancelled = some cancelled
terminal_status _ = none

-- `_recorded_terminal_status`: the last one in the journal.
unfoldable pub recorded_terminal_status : List Event → Option RunStatus
recorded_terminal_status [] = none
recorded_terminal_status (e ∷ es) = elim (recorded_terminal_status es) [
  | some status ↦ some status
  | none ↦ terminal_status e.type
]

abbrev pub read_journal : Exec (List Event)
read_journal m =
    let (r, s) = Store.read_events m.store m.engine.run_id in lift r (record m { store = s })

abbrev pub mark : RunStatus → Exec (Unit {0})
mark status = do g ← get_engine; with_store (λ s. Store.set_status s g.run_id status)

-- How the run ends: what `drive` records of the outcome of the body.
unfoldable pub finish : Env → Outcome Value → Exec (Unit {0})
finish env parked = mark waiting
finish env (raised e) = if propagates e then throw e else (do
  g ← get_engine
  let text = env.describe e
  record_event g.run_id workflow_failed (
      field "error"
        (dict (
          field "type" (str text.type)
            (field "message" (str text.message) (field "traceback" (str text.traceback) end))))
        end)
  mark failed)
finish env (returned v) = do
  g ← get_engine
  output ← lift (encode "$" v)
  record_event g.run_id workflow_completed (field "output_ref" output end)
  mark completed

-- `drive` behind its read of the journal. A recorded end only has its status repaired.
unfoldable pub resume : Env → Workflow → List Event → Exec (Unit {0})
unfolding run finish
resume env workflow events = elim (recorded_terminal_status events) [
  | some status ↦ mark status
  | none ↦ do
    g ← get_engine
    loaded ← lift (load_journal events g)
    set_engine loaded
    (λ m. let (r, m') = run env workflow m in finish env r m')
]

-- `drive`
unfoldable pub drive : Env → Workflow → Exec (Unit {0})
unfolding resume
drive env workflow = read_journal >>= λ events. resume env workflow events
