-- ===== src/Api/Outcome.antt =====
-- `_outcome_from_events` of api/runner.py: what the journal of a run says of its outcome.
use satay_runtime.Prelude.{Option, none, some, List, [], ◌∷◌}
use satay_runtime.Value.{Value, Fields, dict}
use satay_runtime.Errors.{Result, raise, ◌>>=◌, runtime_error, type_error, workflow_failed_error}
use satay_runtime.Journal.Events.{EventType, Event, workflow_completed, workflow_failed}
use satay_runtime.Replay.Identity.{text_at}
use satay_runtime.Replay.Load.{value_at}

-- error["type"], error["message"], error["traceback"] of the payload of a WorkflowFailed
abbrev pub failure_in : Fields → Result Value
failure_in d = do
  error ← value_at d "error"
  elim error [
    | dict f ↦ do
      type ← text_at f "type"
      message ← text_at f "message"
      traceback ← text_at f "traceback"
      raise (workflow_failed_error type message traceback)
    | _ ↦ raise (type_error "the error is no object")
  ]

-- What an event says of the outcome.
abbrev pub outcome_in : (Value → Result Value) → EventType → Fields → Option (Result Value)
outcome_in rehydrate workflow_completed d = some (value_at d "output_ref" >>= rehydrate)
outcome_in rehydrate workflow_failed d = some (failure_in d)
outcome_in rehydrate _ d = none

-- `for event in reversed(events)`
unfoldable pub last_outcome : (Value → Result Value) → List Event → Option (Result Value)
last_outcome rehydrate [] = none
last_outcome rehydrate (e ∷ es) = elim (last_outcome rehydrate es) [
  | some r ↦ some r
  | none ↦ outcome_in rehydrate e.type e.payload
]

unfoldable pub outcome_from_events : (Value → Result Value) → List Event → Result Value
unfolding last_outcome
outcome_from_events rehydrate events = elim (last_outcome rehydrate events) [
  | some r ↦ r
  | none ↦ raise (runtime_error "run did not reach a terminal state")
]
