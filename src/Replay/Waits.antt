-- ===== src/Replay/Waits.antt =====
-- `durable_sleep` and `durable_wait_for_event` of replay/engine.py.
use satay_runtime.Prelude.{
  ℕ, ◌+◌, String, Bool, true, false, Option, none, some, string_eq, if◌then◌else◌,
}
use satay_runtime.Prelude.Dict
use satay_runtime.Prelude.Dict.{member}
use satay_runtime.Prelude.Text.{◌<>◌, str_nat}
use satay_runtime.Prelude.Int.{pos}
use satay_runtime.Value.{Value, Fields, null, float, str, iso, end, field, get}
use satay_runtime.Errors.{Result, ok, raise, key_error, type_error, value_error}
use satay_runtime.Journal.Events.{
  TimerKind, kind_value, timer_created, event_wait_started, external_event_received,
  workflow_waiting, sleep, event_timeout, pending,
}
use satay_runtime.Journal.Store
use satay_runtime.Executor.{record_event}
use satay_runtime.Replay.Identity.{counter, text_at}
use satay_runtime.Replay.Load.{timer_kind}
use satay_runtime.Replay.Machine.{
  Env, Exec, returned, pure, park, lift, ◌>>=◌, ◌>>◌, get_engine, set_engine, with_store, query,
}

-- `self._primitive_resolver.next(name).ordinal`
abbrev pub next_ordinal : String → Exec ℕ
next_ordinal name = do
  g ← get_engine
  let n = counter g.primitive_resolver name
  set_engine (record g { primitive_resolver = Dict.put g.primitive_resolver name (n + 1) })
  pure n

-- uuid.uuid4().hex
abbrev fresh_uuid : Env → Exec String
fresh_uuid env m = (returned (env.uuid m.uuids), record m { uuids = m.uuids + 1 })

abbrev pub clock : Exec ℕ
clock m = (returned m.now, m)

-- datetime.fromisoformat(payload["fire_at"])
abbrev instant_at : Fields → String → Result ℕ
instant_at d k = elim (get d k) [
  | none ↦ raise (key_error k)
  | some v ↦ elim v [ iso t ↦ ok t | str s ↦ raise (value_error s) | _ ↦ raise (type_error k) ]
]

-- `_ensure_timer_row`
unfoldable pub ensure_timer_row : Fields → Exec (Unit {0})
ensure_timer_row d = do
  g ← get_engine
  id ← lift (text_at d "timer_id")
  text ← lift (text_at d "kind")
  kind ← lift (timer_kind text)
  identity ← lift (text_at d "identity")
  fire_at ← lift (instant_at d "fire_at")
  now ← clock
  with_store (λ s. Store.add_timer s (record {
    timer_id = id;
    run_id = g.run_id;
    kind = kind;
    identity = identity;
    fire_at = fire_at;
    status = pending;
    created_at = now;
  }))

-- The payload of a TimerCreated.
abbrev timer_payload : String → TimerKind → String → ℕ → ℕ → Fields
timer_payload id kind identity fire_at duration = field "timer_id" (str id) (
    field "kind" (str (kind_value kind)) (
      field "identity" (str identity)
        (field "fire_at" (iso fire_at) (field "duration_seconds" (float (pos duration)) end))))

-- `_create_timer`
unfoldable pub create_timer : Env → TimerKind → String → ℕ → Exec Fields
unfolding ensure_timer_row
create_timer env kind identity duration = do
  g ← get_engine
  id ← fresh_uuid env
  now ← clock
  let payload = timer_payload id kind identity (now + duration) duration
  record_event g.run_id timer_created payload
  g' ← get_engine
  set_engine (record g' { timers_created = Dict.put g'.timers_created identity payload })
  ensure_timer_row payload
  pure payload

-- The timer of an identity: created, or its row repaired. Returns the recorded payload.
abbrev pub timer_for : Env → TimerKind → String → ℕ → Exec Fields
timer_for env kind identity duration = do
  g ← get_engine
  elim (Dict.get g.timers_created identity) [
    | none ↦ create_timer env kind identity duration
    | some recorded ↦ do ensure_timer_row recorded; pure recorded
  ]

-- Append the WorkflowWaiting of an identity, unless it is recorded.
unfoldable pub record_waiting : String → Fields → Exec (Unit {0})
record_waiting identity payload = do
  g ← get_engine
  if member g.waiting_recorded identity then pure tt else (do
    record_event g.run_id workflow_waiting payload
    g' ← get_engine
    set_engine (record g' { waiting_recorded = Dict.add g'.waiting_recorded identity }))

abbrev pub sleep_identity : ℕ → String
sleep_identity n = "sleep#" <> str_nat n

-- `durable_sleep`
unfoldable pub durable_sleep : Env → ℕ → Exec Value
unfolding create_timer record_waiting
durable_sleep env duration = do
  n ← next_ordinal "sleep"
  let identity = sleep_identity n
  g ← get_engine
  elim (Dict.get g.timers_fired identity) [
    | some kind ↦ pure null
    | none ↦ do
      timer_for env sleep identity duration
      record_waiting identity (field "reason" (str "sleep") (field "identity" (str identity) end))
      park
  ]

abbrev pub event_identity : ℕ → String
event_identity n = "event#" <> str_nat n

-- str | None
abbrev pub optional : Option String → Value
optional none = null
optional (some s) = str s

-- Append the EventWaitStarted of an identity, unless it is recorded.
unfoldable pub start_wait : String → String → Option String → Value → Exec (Unit {0})
start_wait identity event_type key timer_id = do
  g ← get_engine
  if member g.waits_started identity then pure tt else (do
    record_event g.run_id event_wait_started (
        field "identity" (str identity) (
          field "event_type" (str event_type)
            (field "key" (optional key) (field "timeout_timer_id" timer_id end))))
    g' ← get_engine
    set_engine (record g' { waits_started = Dict.add g'.waits_started identity }))

-- No matching event yet: the timeout's timer, the wait and the park are recorded, each once.
unfoldable pub wait_and_park : Env → String → String → Option String → Option ℕ → Exec Value
unfolding create_timer start_wait record_waiting
wait_and_park env identity event_type key timeout = do
  timer_id ← (elim timeout [
    | none ↦ pure null
    | some duration ↦ do
      recorded ← timer_for env event_timeout identity duration
      id ← lift (text_at recorded "timer_id")
      pure (str id)
  ])
  start_wait identity event_type key timer_id
  record_waiting identity (
      field "reason" (str "event") (
        field "identity" (str identity)
          (field "event_type" (str event_type) (field "key" (optional key) end))))
  park

-- A buffered event is consumed, recorded and returned.
unfoldable pub take_event : Env → String → String → Option String → String → Exec Value → Exec Value
take_event env identity event_type key annotation otherwise = do
  found ← query (λ s. Store.match_inbox_event s event_type key)
  elim found [
    | none ↦ otherwise
    | some match ↦ do
      g ← get_engine
      with_store (λ s. Store.consume_inbox_event s match.row_id)
      record_event g.run_id external_event_received (
          field "identity" (str identity) (
            field "event_type" (str event_type)
              (field "key" (optional key) (field "event_ref" match.payload_ref end))))
      lift (env.rehydrate match.payload_ref annotation)
  ]

-- `self._timers_fired.get(identity) is TimerKind.EVENT_TIMEOUT`
abbrev pub has_timed_out : Option TimerKind → Bool
has_timed_out (some event_timeout) = true
has_timed_out _ = false

-- `durable_wait_for_event`
unfoldable pub durable_wait_for_event :
    Env → String → Option String → Option ℕ → String → Exec Value
unfolding take_event wait_and_park
durable_wait_for_event env event_type key timeout annotation = do
  n ← next_ordinal ("event:" <> event_type)
  let identity = event_identity n
  g ← get_engine
  elim (Dict.get g.events_received identity) [
    | some recorded ↦ lift (env.rehydrate recorded annotation)
    | none ↦
        if has_timed_out (Dict.get g.timers_fired identity)
        then pure null
        else take_event env identity event_type key annotation
            (wait_and_park env identity event_type key timeout)
  ]
