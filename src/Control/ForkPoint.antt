-- ===== src/Control/ForkPoint.antt =====
-- control/commands.py: where a fork is cut.
use satay_runtime.Prelude.{
  ℕ, ◌+◌, ◌-◌, ◌*◌, String, Bool, true, false, ◌&&◌, Option, none, some, List, [], ◌∷◌, any, filter,
  ltb, nat_eq, string_eq, if◌then◌else◌,
}
use satay_runtime.Prelude.Text.{◌<>◌, str_nat}
use satay_runtime.Prelude.Int.{ℤ, pos, negsuc, int_beq}
use satay_runtime.Value.{bool, int, float, get}
use satay_runtime.Errors.{Result, ok, raise, ◌>>=◌, fork_validation_error}
use satay_runtime.Journal.Events.{EventType, Event, is_terminal, status_value, task_scheduled}
use satay_runtime.Journal.Store
use satay_runtime.Journal.Store.{Store, text_leb}
use satay_runtime.Timers.{is_text}

-- `_validate_source_run`
unfoldable pub validate_source_run : Store → String → Result (Unit {0})
validate_source_run s source = elim (Store.get_run s source) [
  | none ↦ raise (fork_validation_error ("source run '" <> source <> "' not found"))
  | some r ↦
      if is_terminal r.status
      then ok tt
      else raise (
          fork_validation_error (
            "cannot fork run '"
            <> source
            <> "': its status is '"
            <> status_value r.status
            <> "'; the MVP "
            <> "forks only terminal runs (completed/failed/cancelled). Forking an "
            <> "actively-executing run is not supported (ADR-0004/Q53)."))
]

abbrev pub is_task_scheduled : EventType → Bool
is_task_scheduled task_scheduled = true
is_task_scheduled _ = false

-- Is the event the TaskScheduled of a task with this name?
abbrev pub schedules : String → Event → Bool
schedules task e = is_task_scheduled e.type && is_text e.payload "task_name" task

-- A whole number in millionths, as floats are held.
abbrev millionths : ℤ → ℤ
millionths (pos n) = pos (n * 1000000)
millionths (negsuc n) = negsuc ((n + 1) * 1000000 - 1)

-- e.payload.get("ordinal") == n
abbrev pub has_ordinal : ℤ → Event → Bool
has_ordinal n e = elim (get e.payload "ordinal") [
  | none ↦ false
  | some v ↦ elim v [
    | int m ↦ int_beq m n
    | bool b ↦ int_beq (if b then pos 1 else pos 0) n
    | float x ↦ int_beq x (millionths n)
    | _ ↦ false
  ]
]

-- min(events, key=lambda e: e.seq): the first of the smallest
unfoldable pub earliest : Event → List Event → Event
earliest best [] = best
earliest best (e ∷ es) = earliest (if ltb e.seq best.seq then e else best) es

unfoldable pub greatest_seq : ℕ → List Event → ℕ
greatest_seq n [] = n
greatest_seq n (e ∷ es) = greatest_seq (if ltb n e.seq then e.seq else n) es

-- The events before another.
abbrev pub before : ℕ → List Event → List Event
before seq events = filter (λ e. ltb e.seq seq) events

-- The end of the prefix before the chosen event.
unfoldable pub step_back : String → List Event → Event → Result ℕ
unfolding greatest_seq
step_back source events chosen = elim (before chosen.seq events) [
  | [] ↦ raise (
      fork_validation_error
        ("the task is the first event of run '" <> source <> "'; there is no prefix to fork from"))
  | e ∷ es ↦ ok (greatest_seq e.seq es)
]

-- The events of a task, and of them those with the ordinal that is asked for.
unfoldable pub candidates : List Event → String → Option ℤ → List Event
candidates events task none = filter (schedules task) events
candidates events task (some n) = filter (has_ordinal n) (filter (schedules task) events)

-- The message of a refusal names the tasks that ran, or the ordinals: its details are left out.
unfoldable pub resolve_task : String → List Event → String → Option ℤ → Result ℕ
unfolding candidates earliest step_back
resolve_task source events task ordinal = elim (candidates events task ordinal) [
  | [] ↦ raise (
      fork_validation_error (elim (filter (schedules task) events) [
        | [] ↦ "run '" <> source <> "' never scheduled a task named '" <> task <> "'"
        | e ∷ es ↦ "task '" <> task <> "' has no such ordinal in run '" <> source <> "'"
      ]))
  | e ∷ es ↦ step_back source events (earliest e es)
]

-- `resolve_fork_point` behind the checks of its arguments.
unfoldable pub resolve_in : String → List Event → Option ℕ → Option String → Option ℤ → Result ℕ
unfolding resolve_task
resolve_in source events (some seq) none none =
    if any (λ e. nat_eq e.seq seq) events
    then ok seq
    else raise (
        fork_validation_error
          ("fork-point seq " <> str_nat seq <> " is not an event of run '" <> source <> "'"))
resolve_in source events none (some task) ordinal = resolve_task source events task ordinal
resolve_in source events (some seq) none (some n) =
    raise (fork_validation_error "before_ordinal= selects an occurrence of before_task=")
resolve_in source events _ _ _ = raise (
    fork_validation_error
      "pass exactly one of fork_point_seq= or before_task= to choose a fork point")

-- The checks of the arguments come before the read of the journal.
abbrev pub are_refused : Option ℕ → Option String → Option ℤ → Bool
are_refused (some seq) none none = false
are_refused none (some task) ordinal = false
are_refused _ _ _ = true

-- `resolve_fork_point`
unfoldable pub resolve_fork_point :
    Store → String → Option ℕ → Option String → Option ℤ → Result ℕ × Store
unfolding validate_source_run resolve_in
resolve_fork_point s source seq task ordinal = elim (validate_source_run s source) [
  | raise e ↦ (raise e, s)
  | ok u ↦
      if are_refused seq task ordinal
      then (resolve_in source [] seq task ordinal, s)
      else (let (r, s') = Store.read_events s source in
          (r >>= λ events. resolve_in source events seq task ordinal, s'))
]
