-- ===== src/Replay/Examples.antt =====
-- The replay engine on small journals.
use satay_runtime.Prelude.{none, ◌≡◌, ◌≢◌, refl, String, some, List, [], ◌∷◌, ◌++◌, map, string_eq}
use satay_runtime.Prelude.Dict
use satay_runtime.Prelude.Text.{str_nat}
use satay_runtime.Prelude.Dict.{member}
use satay_runtime.Prelude.Int.{pos}
use satay_runtime.Value.{Fields, dict, datetime, null, int, str, end, field, nil, get, merge}
use satay_runtime.Errors.{ok}
use satay_runtime.Config.{EffectSafety, NondeterminismPolicy}
use satay_runtime.Journal.Codec.{encode}
use satay_runtime.Journal.Events.{
  Event, EventType, task_attempt_started, task_attempt_failed, new_event, task_scheduled,
  task_completed, workflow_completed,
}
use satay_runtime.Journal.Store
use satay_runtime.Journal.Store.{
  Store, Row, journal, rows_of, rows_to_events, row_to_event, append, read_events, create_run,
}
use satay_runtime.Journal.Store.Reach.{IsSound, empty-IsSound}
use satay_runtime.Replay.Identity.{
  CallIdentity, identity_eq, ordinal_identity, payload_fields, from_payload, text_at, int_at, next,
}
use satay_runtime.Replay.Machine.{Attempt, Engine, Machine, new_engine, lift, ◌>>=◌, commit}
use satay_runtime.Replay.Load.{load_payload, load_journal, number_at}
use satay_runtime.Replay.Engine.{durable_call}
use satay_runtime.Replay.Drive.{Workflow, returns, calls, drive, recorded_terminal_status}
use satay_runtime.Replay.Growth.Runs.{Final, drive-Final}
use satay_runtime.Replay.Hits.{waited, called}
use satay_runtime.Replay.Answers.{
  fails, journal_answer, last_received, last_failure, respond, durable_call-answer,
  durable_wait_for_event-first,
}
use satay_runtime.Journal.Events.{external_event_received, task_failed}
use satay_runtime.Replay.View.{
  load_journal-view, last_output, count_failures, last_attempt, is_scheduled, call_order,
}
use satay_runtime.Executor
use satay_runtime.Journal.Codec.Plain.{plain}
use satay_runtime.Replay.Waits.{durable_wait_for_event}
use satay_runtime.Replay.Recovery.{completed-recovered}
use satay_runtime.Executor.{execute}
use satay_runtime.Executor.Examples.{world, flaky, fresh}

-- The journal of a run with one call that has completed.
abbrev one_call : List Event
one_call =
    new_event "r" task_scheduled
      (field "task_name" (str "flaky") (field "ordinal" (int (pos 0)) (field "input_ref" null end)))
      0
    ∷ new_event "r" task_completed
        (field "task_name" (str "flaky")
          (field "ordinal" (int (pos 0)) (field "output_ref" (int (pos 5)) end)))
        0
    ∷ []

-- The engine that has loaded it.
abbrev loaded : Engine
loaded = record (new_engine "r" EffectSafety.warn NondeterminismPolicy.strict) {
  completed = (ordinal_identity "flaky" 0, int (pos 5)) ∷ [];
  scheduled = ordinal_identity "flaky" 0 ∷ [];
  schedule_order = "flaky" ∷ [];
}

one_call-loaded :
    load_journal one_call (new_engine "r" EffectSafety.warn NondeterminismPolicy.strict) ≡ ok loaded
unfolding load_journal load_payload from_payload text_at int_at get Dict.put Dict.add member
one_call-loaded = refl

load_journal-view_example :
    ((i : CallIdentity)
      → (Dict.get loaded.completed i ≡ last_output one_call i)
        × (number_at loaded.failures i ≡ count_failures one_call i)
        × (number_at loaded.max_attempt i ≡ last_attempt one_call i)
        × (member loaded.scheduled i ≡ is_scheduled one_call i))
    × (loaded.schedule_order ≡ call_order one_call)
load_journal-view_example =
    load_journal-view "r" EffectSafety.warn NondeterminismPolicy.strict one_call loaded
      one_call-loaded

-- The journal of a run with a second call, which has failed.
abbrev failed_payload : Fields
failed_payload =
    field "task_name" (str "flaky")
      (field "ordinal" (int (pos 1)) (field "error" (dict (field "type" (str "OSError") end)) end))

abbrev two_calls : List Event
two_calls =
    one_call
    ++ new_event "r" task_scheduled
        (field "task_name" (str "flaky")
          (field "ordinal" (int (pos 1)) (field "input_ref" null end)))
        0
      ∷ new_event "r" task_failed failed_payload 0
      ∷ []

abbrev both_loaded : Engine
both_loaded = record loaded {
  scheduled = ordinal_identity "flaky" 0 ∷ ordinal_identity "flaky" 1 ∷ [];
  schedule_order = "flaky" ∷ "flaky" ∷ [];
  failed = (ordinal_identity "flaky" 1, failed_payload) ∷ [];
}

two_calls-loaded :
    load_journal two_calls (new_engine "r" EffectSafety.warn NondeterminismPolicy.strict)
    ≡ ok both_loaded
unfolding load_journal load_payload from_payload text_at int_at get Dict.put Dict.add member
two_calls-loaded = refl

-- The engine stands at the second call.
abbrev second_call : Machine
second_call = record fresh {
  engine = record both_loaded { resolver = ("flaky", 1) ∷ []; call_index = 1 };
}

second_call-answer :
    journal_answer two_calls (ordinal_identity "flaky" 1) 1 "flaky" ≡ some (fails failed_payload)
unfolding journal_answer call_order from_payload get last_output last_failure
second_call-answer = refl

durable_call-answer_example :
    durable_call world flaky nil end second_call
    ≡ respond world flaky 1
        (fails failed_payload)
        (record second_call { engine = called second_call.engine "flaky" })
unfolding Dict.get
durable_call-answer_example =
    durable_call-answer world flaky nil end second_call two_calls "r" EffectSafety.warn both_loaded
      (("flaky", 1) ∷ []) 1 two_calls-loaded refl (fails failed_payload) second_call-answer

-- An event that was recorded for a wait of the type "paid" answers a wait for the type "shipped".
abbrev paid : List Event
paid =
    new_event "r" external_event_received
      (field "identity" (str "event#0")
        (field "event_type" (str "paid") (field "event_ref" (str "yes") end)))
      0
    ∷ []

abbrev crossed : Machine
crossed = record fresh {
  engine = record (new_engine "r" EffectSafety.warn NondeterminismPolicy.strict) {
    events_received = ("event#0", str "yes") ∷ [];
  };
}

paid-loaded :
    load_journal paid (new_engine "r" EffectSafety.warn NondeterminismPolicy.strict)
    ≡ ok crossed.engine
unfolding load_journal load_payload text_at get Dict.put
paid-loaded = refl

paid-received : last_received paid "event#0" ≡ some (str "yes")
unfolding last_received text_at get str_nat
paid-received = refl

durable_wait_for_event-first_example :
    durable_wait_for_event world "shipped" none none "str" crossed
    ≡ lift
        (world.rehydrate (str "yes") "str")
        (record crossed { engine = waited crossed.engine "shipped" })
durable_wait_for_event-first_example =
    durable_wait_for_event-first world "shipped" none none "str" crossed paid "r" EffectSafety.warn
      NondeterminismPolicy.strict (str "yes") paid-loaded paid-received

abbrev changed : Workflow
changed = calls flaky nil end (λ r. returns null)

abbrev types : List Row → List EventType
types rows = map (λ r. r.type) rows

-- The whole of a drive: the call fails twice, is retried, returns, and the run completes.
driven :
    types (drive world changed fresh).1.store.events
    ≡ task_scheduled ∷ task_attempt_started ∷ task_attempt_failed ∷ task_attempt_started
      ∷ task_attempt_failed ∷ task_attempt_started ∷ task_completed ∷ workflow_completed ∷ []
unfolding drive ◌>>=◌ read_events recorded_terminal_status Dict.get load_journal durable_call member
    encode commit append execute merge payload_fields next Store.set_status
driven = refl

drive-Final_example :
    IsSound (drive world changed fresh).1.store
    × Final (rows_of (drive world changed fresh).1.store.events "r")
    × ((rows : List Row) × (rows_of (drive world changed fresh).1.store.events "r"
          ≡ rows_of fresh.store.events "r" ++ rows))
    × ((j : String)
        → j ≢ "r"
        → rows_of (drive world changed fresh).1.store.events j ≡ rows_of fresh.store.events j)
drive-Final_example = drive-Final world changed fresh empty-IsSound tt

abbrev attempted : Attempt
attempted = record { result = ok (int (pos 5)); usage = none; duration = 10 }

abbrev worker : Machine
worker = record fresh { injector = some (("TaskCompleted", 1) ∷ []) }

-- The result of a call is 5, and the worker dies behind its commit.
completed-recovered_example :
    (es' : List Event) × (g' : Engine) × (journal
        (Executor.completed world "r" flaky
          (ordinal_identity "flaky" 0)
          nil
          end
          "k"
          attempted
          (datetime 7)
          worker).1.store
        "r"
      ≡ ok es')
    × (load_journal es' (new_engine "r" EffectSafety.warn NondeterminismPolicy.strict) ≡ ok g')
    × (Dict.get g'.completed (ordinal_identity "flaky" 0) ≡ some (plain (datetime 7)))
unfolding rows_to_events load_journal
completed-recovered_example =
    completed-recovered world "r" flaky (ordinal_identity "flaky" 0) nil end "k" attempted
      (datetime 7) worker EffectSafety.warn NondeterminismPolicy.strict []
      (new_engine "r" EffectSafety.warn NondeterminismPolicy.strict) tt tt tt tt refl refl
