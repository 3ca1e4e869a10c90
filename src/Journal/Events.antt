-- ===== src/Journal/Events.antt =====
-- journal/events.py: event types, run and timer statuses, and the records of the store's tables.
-- An event's id is left out: it is a fresh uuid4 that nothing in the runtime reads. A datetime is its
-- instant in microseconds.
use satay_runtime.Prelude.{ℕ, String, Bool, true, false, Option}
use satay_runtime.Value.{Value, Fields}

pub data EventType : Type 0 where
  workflow_created workflow_resumed : EventType
  task_scheduled task_attempt_started task_attempt_failed task_completed : EventType
  workflow_completed workflow_failed : EventType
  timer_created timer_fired event_wait_started external_event_received workflow_waiting : EventType
  child_workflow_scheduled workflow_cancelled task_failed run_forked : EventType

-- `EventType.X.value`
unfoldable pub type_value : EventType → String
type_value workflow_created = "WorkflowCreated"
type_value workflow_resumed = "WorkflowResumed"
type_value task_scheduled = "TaskScheduled"
type_value task_attempt_started = "TaskAttemptStarted"
type_value task_attempt_failed = "TaskAttemptFailed"
type_value task_completed = "TaskCompleted"
type_value workflow_completed = "WorkflowCompleted"
type_value workflow_failed = "WorkflowFailed"
type_value timer_created = "TimerCreated"
type_value timer_fired = "TimerFired"
type_value event_wait_started = "EventWaitStarted"
type_value external_event_received = "ExternalEventReceived"
type_value workflow_waiting = "WorkflowWaiting"
type_value child_workflow_scheduled = "ChildWorkflowScheduled"
type_value workflow_cancelled = "WorkflowCancelled"
type_value task_failed = "TaskFailed"
type_value run_forked = "RunForked"

pub data RunStatus : Type 0 where
  running waiting completed failed cancelled : RunStatus

-- `RunStatus.X.value`
unfoldable pub status_value : RunStatus → String
status_value running = "running"
status_value waiting = "waiting"
status_value completed = "completed"
status_value failed = "failed"
status_value cancelled = "cancelled"

-- `status in TERMINAL_STATUSES`
abbrev pub is_terminal : RunStatus → Bool
is_terminal completed = true
is_terminal failed = true
is_terminal cancelled = true
is_terminal _ = false

pub record Event : Type 0 where
  pub run_id : String
  pub type : EventType
  pub payload : Fields
  pub ts : ℕ
  pub seq : ℕ

-- An event not yet appended: `seq` is 0.
abbrev pub new_event : String → EventType → Fields → ℕ → Event
new_event run_id type payload ts = record {
  run_id = run_id;
  type = type;
  payload = payload;
  ts = ts;
  seq = 0;
}

unfoldable pub with_seq : Event → ℕ → Event
with_seq e seq = record e { seq = seq }

pub record RunRecord : Type 0 where
  pub run_id : String
  pub workflow_name : String
  pub status : RunStatus
  pub code_version : String
  pub created_at : ℕ
  pub idempotency_key : Option String

pub data TimerKind : Type 0 where
  sleep event_timeout : TimerKind

abbrev pub kind_value : TimerKind → String
kind_value sleep = "sleep"
kind_value event_timeout = "event_timeout"

pub data TimerStatus : Type 0 where
  pending fired discarded : TimerStatus

abbrev pub is_pending : TimerStatus → Bool
is_pending pending = true
is_pending _ = false

pub record TimerRecord : Type 0 where
  pub timer_id : String
  pub run_id : String
  pub kind : TimerKind
  pub identity : String
  pub fire_at : ℕ
  pub status : TimerStatus
  pub created_at : ℕ

pub record InboxEventRecord : Type 0 where
  pub event_type : String
  pub key : Option String
  pub payload_ref : Value
  pub received_at : ℕ
  pub run_id : Option String
  pub consumed : Bool
  pub row_id : ℕ
