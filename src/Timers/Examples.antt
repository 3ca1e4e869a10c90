-- ===== src/Timers/Examples.antt =====
-- Timers and waits on small journals.
use satay_runtime.Prelude.{
  ◌≡◌, refl, String, Option, none, List, [], ◌∷◌, false, if◌then◌else◌, string_eq,
}
use satay_runtime.Prelude.Dict
use satay_runtime.Prelude.Dict.{Dict}
use satay_runtime.Value.{null, str, end, field, get}
use satay_runtime.Errors.{ok}
use satay_runtime.Journal.Events.{
  Event, TimerRecord, new_event, event_wait_started, external_event_received, event_timeout,
  pending,
}
use satay_runtime.Journal.Store.{empty, rows_to_events}
use satay_runtime.Journal.Store.Reach.{empty-IsSound}
use satay_runtime.Replay.Identity.{text_at}
use satay_runtime.Timers.{fire_one, outstanding_event_waits, scan}
use satay_runtime.Timers.Firing.{fire_one-twice}
use satay_runtime.Timers.Waits.{outstanding_event_waits_lem, is_resolved, last_wait}

abbrev timeout : TimerRecord
timeout = record {
  timer_id = "t";
  run_id = "r";
  kind = event_timeout;
  identity = "event#0";
  fire_at = 5;
  status = pending;
  created_at = 0;
}

fire_one-twice_example :
    ((fire_one timeout 7 (fire_one timeout 6 empty).1).0 ≡ ok false)
    × ((fire_one timeout 7 (fire_one timeout 6 empty).1).1.events
        ≡ (fire_one timeout 6 empty).1.events)
unfolding rows_to_events
fire_one-twice_example = fire_one-twice timeout 6 7 empty [] empty-IsSound refl

abbrev wait : String → String → Event
wait identity event_type =
    new_event "r" event_wait_started
      (field "identity" (str identity) (field "event_type" (str event_type) (field "key" null end)))
      0

abbrev history : List Event
history =
    wait "event#0" "paid"
    ∷ wait "event#1" "paid"
    ∷ new_event "r" external_event_received (field "identity" (str "event#0") end) 1
    ∷ []

abbrev found : Dict String (String × Option String)
found = ("event#1", ("paid", none)) ∷ []

history-found : outstanding_event_waits history ≡ ok found
unfolding outstanding_event_waits scan get text_at Dict.put Dict.member Dict.add
history-found = refl

outstanding_event_waits_lem_example :
    Dict.get found "event#1"
    ≡ (if is_resolved history "event#1" then none else last_wait history "event#1")
outstanding_event_waits_lem_example =
    outstanding_event_waits_lem history found "event#1" history-found
