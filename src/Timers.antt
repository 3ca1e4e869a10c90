-- ===== src/Timers.antt =====
-- timers/__init__.py: the worker that fires due timers and finds the waits that an event can resolve.
pub mod Firing
pub mod Waits
pub mod Worker
pub mod Growth
pub mod Aborts
mod Examples
use satay_runtime.Prelude.{
  ℕ, String, Bool, true, false, ◌&&◌, ◌||◌, not, Option, none, some, List, [], ◌∷◌, any, filter,
  ◌==◌, string_eq, if◌then◌else◌,
}
use satay_runtime.Prelude.Dict
use satay_runtime.Prelude.Dict.{Dict, member}
use satay_runtime.Value.{Value, Fields, null, str, iso, end, field, get}
use satay_runtime.Errors.{Result, ok, raise, ◌>>=◌, key_error, type_error}
use satay_runtime.Journal.Events.{
  EventType, Event, TimerKind, TimerRecord, kind_value, new_event, timer_fired,
  external_event_received, event_wait_started, event_timeout, sleep, fired, discarded,
}
use satay_runtime.Journal.Store
use satay_runtime.Replay.Identity.{text_at}
use satay_runtime.Journal.Store.{Store}

-- payload.get(k) == text
abbrev pub is_text : Fields → String → String → Bool
is_text d k text = elim (get d k) [
  | none ↦ false
  | some v ↦ elim v [ str s ↦ s == text | _ ↦ false ]
]

abbrev pub is_timer_fired : EventType → Bool
is_timer_fired timer_fired = true
is_timer_fired _ = false

abbrev pub is_external_event_received : EventType → Bool
is_external_event_received external_event_received = true
is_external_event_received _ = false

abbrev pub is_event_timeout : TimerKind → Bool
is_event_timeout event_timeout = true
is_event_timeout sleep = false

-- `_has_timer_fired`
unfoldable pub has_timer_fired : List Event → String → TimerKind → Bool
has_timer_fired events identity kind =
    any
      (λ e.
        is_timer_fired e.type
        && (is_text e.payload "identity" identity && is_text e.payload "kind" (kind_value kind)))
      events

-- `_has_external_event_received`
unfoldable pub has_external_event_received : List Event → String → Bool
has_external_event_received events identity =
    any (λ e. is_external_event_received e.type && is_text e.payload "identity" identity) events

-- The TimerFired of a timer.
abbrev pub fired_event : TimerRecord → ℕ → Event
fired_event t now =
    new_event t.run_id timer_fired
      (field "timer_id" (str t.timer_id) (
        field "kind" (str (kind_value t.kind))
          (field "identity" (str t.identity) (field "fire_at" (iso t.fire_at) end))))
      now

abbrev settle : TimerRecord → Result Event × Store → Result Bool × Store
settle t (raise e, s) = (raise e, s)
settle t (ok stored, s) = (ok true, Store.set_timer_status s t.timer_id fired)

-- `_fire_one` behind its read: should the run be driven again?
unfoldable pub fire_read : TimerRecord → ℕ → List Event → Store → Result Bool × Store
fire_read t now events s =
    if is_event_timeout t.kind && has_external_event_received events t.identity
    then (ok false, Store.set_timer_status s t.timer_id discarded)
    else if has_timer_fired events t.identity t.kind
    then (ok false, Store.set_timer_status s t.timer_id fired)
    else settle t (Store.append s (fired_event t now))

-- `_fire_one`
unfoldable pub fire_one : TimerRecord → ℕ → Store → Result Bool × Store
unfolding fire_read
fire_one t now s =
    let (r, read) = Store.read_events s t.run_id in
    elim r [ raise e ↦ (raise e, read) | ok events ↦ fire_read t now events read ]

-- payload["event_type"] and payload.get("key")
abbrev pub wait_of : Fields → Result (String × Option String)
wait_of d = do
  event_type ← text_at d "event_type"
  ok (
    event_type,
    elim (get d "key") [ none ↦ none | some v ↦ elim v [ str k ↦ some k | _ ↦ none ] ],
  )

-- event.payload.get("identity"), if it is a text
abbrev pub identity_of : Fields → Option String
identity_of d = elim (get d "identity") [
  | none ↦ none
  | some v ↦ elim v [ str i ↦ some i | _ ↦ none ]
]

-- Does an event with an identity resolve the wait of that identity?
abbrev pub resolves : EventType → Fields → Bool
resolves external_event_received d = true
resolves timer_fired d = is_text d "kind" (kind_value event_timeout)
resolves _ d = false

abbrev pub is_wait_started : EventType → Bool
is_wait_started event_wait_started = true
is_wait_started _ = false

-- `started` and `resolved`
abbrev pub Scan : Type 0
Scan = Dict String (String × Option String) × List String

abbrev pub scan_event : EventType → Fields → Scan → Result Scan
scan_event type d (started, resolved) = elim (identity_of d) [
  | none ↦ ok (started, resolved)
  | some i ↦
      if is_wait_started type
      then (do w ← wait_of d; ok (Dict.put started i w, resolved))
      else if resolves type d
      then ok (started, Dict.add resolved i)
      else ok (started, resolved)
]

unfoldable pub scan : List Event → Scan → Result Scan
scan [] s = ok s
scan (e ∷ es) s = do s' ← scan_event e.type e.payload s; scan es s'

-- `_outstanding_event_waits`
unfoldable pub outstanding_event_waits : List Event → Result (Dict String (String × Option String))
unfolding scan
outstanding_event_waits events = do
  s ← scan events ([], [])
  ok (filter (λ w. not (member s.1 w.0)) s.0)
