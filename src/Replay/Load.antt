-- ===== src/Replay/Load.antt =====
-- `_load_journal` of replay/engine.py: the engine's view of the recorded events.
use Prim.Native.Nat.{max}
use satay_runtime.Prelude.{
  ℕ, ◌+◌, String, Bool, true, false, ◌||◌, Option, none, some, List, [], ◌∷◌, ◌++◌, ◌==◌, string_eq,
  if◌then◌else◌,
}
use satay_runtime.Prelude.Dict
use satay_runtime.Prelude.Dict.{Dict}
use satay_runtime.Prelude.Int.{pos, negsuc}
use satay_runtime.Value.{Value, Fields, null, int, str, get}
use satay_runtime.Errors.{Result, ok, raise, ◌>>=◌, key_error, type_error, value_error}
use satay_runtime.Journal.Events.{
  EventType, Event, TimerKind, workflow_created, task_scheduled, task_attempt_started,
  task_attempt_failed, task_completed, timer_created, timer_fired, event_wait_started,
  external_event_received, workflow_waiting, child_workflow_scheduled, task_failed, sleep,
  event_timeout,
}
use satay_runtime.Replay.Identity.{CallIdentity, identity_eq, is_keyed, from_payload, text_at}
use satay_runtime.Replay.Machine.{Engine}

-- payload.get(k) is not None
abbrev pub is_given : Fields → String → Bool
is_given d k = elim (get d k) [ none ↦ false | some v ↦ elim v [ null ↦ false | _ ↦ true ] ]

-- payload[k]
abbrev pub value_at : Fields → String → Result Value
value_at d k = elim (get d k) [ none ↦ raise (key_error k) | some v ↦ ok v ]

-- int(payload.get("attempt", 1)): an attempt number is an int that is not negative.
abbrev pub attempt_of : Fields → Result ℕ
attempt_of d = elim (get d "attempt") [
  | none ↦ ok 1
  | some v ↦ elim v [
    | int n ↦ elim n [ pos k ↦ ok k | negsuc k ↦ raise (type_error "attempt") ]
    | _ ↦ raise (type_error "attempt")
  ]
]

-- d.get(i, 0)
abbrev pub number_at : Dict CallIdentity ℕ → CallIdentity → ℕ
number_at d i = elim (Dict.get d i) [ none ↦ 0 | some n ↦ n ]

-- TimerKind(text)
abbrev pub timer_kind : String → Result TimerKind
timer_kind t =
    if t == "sleep"
    then ok sleep
    else if t == "event_timeout"
    then ok event_timeout
    else raise (value_error t)

-- isinstance(payload.get("identity"), str)
abbrev pub parked_identity : Fields → Option String
parked_identity d = elim (get d "identity") [
  | none ↦ none
  | some v ↦ elim v [ str s ↦ some s | _ ↦ none ]
]

-- The branches of the loop's body.
unfoldable pub load_payload : EventType → Fields → Engine → Result Engine
load_payload workflow_created d g =
    ok (record g { run_is_nameable = g.run_is_nameable || is_given d "idempotency_key" })
load_payload task_scheduled d g = do
  i ← from_payload d
  let scheduled = Dict.add g.scheduled i
  ok (
      if is_keyed i then record g { scheduled = scheduled } else record g {
        scheduled = scheduled;
        schedule_order = g.schedule_order ++ i.task_name ∷ [];
      })
load_payload task_attempt_started d g = do
  i ← from_payload d
  n ← attempt_of d
  ok (record g { max_attempt = Dict.put g.max_attempt i (max (number_at g.max_attempt i) n) })
load_payload task_attempt_failed d g = do
  i ← from_payload d
  n ← attempt_of d
  ok (record g {
    max_attempt = Dict.put g.max_attempt i (max (number_at g.max_attempt i) n);
    failures = Dict.put g.failures i (number_at g.failures i + 1);
  })
load_payload task_completed d g = do
  i ← from_payload d
  v ← value_at d "output_ref"
  ok (record g { completed = Dict.put g.completed i v })
load_payload task_failed d g = do
  i ← from_payload d
  ok (record g { failed = Dict.put g.failed i d })
load_payload child_workflow_scheduled d g = do
  i ← from_payload d
  child ← text_at d "child_run_id"
  ok (record g { children_scheduled = Dict.put g.children_scheduled i child })
load_payload timer_created d g = do
  i ← text_at d "identity"
  ok (record g { timers_created = Dict.put g.timers_created i d })
load_payload timer_fired d g = do
  i ← text_at d "identity"
  t ← text_at d "kind"
  k ← timer_kind t
  ok (record g { timers_fired = Dict.put g.timers_fired i k })
load_payload event_wait_started d g = do
  i ← text_at d "identity"
  ok (record g { waits_started = Dict.add g.waits_started i })
load_payload workflow_waiting d g = ok (elim (parked_identity d) [
  | none ↦ g
  | some i ↦ record g { waiting_recorded = Dict.add g.waiting_recorded i }
])
load_payload external_event_received d g = do
  i ← text_at d "identity"
  v ← value_at d "event_ref"
  ok (record g { events_received = Dict.put g.events_received i v })
load_payload _ d g = ok g

abbrev pub load_event : Event → Engine → Result Engine
load_event e g = load_payload e.type e.payload g

unfoldable pub load_journal : List Event → Engine → Result Engine
unfolding load_payload
load_journal [] g = ok g
load_journal (e ∷ es) g = do g' ← load_event e g; load_journal es g'
