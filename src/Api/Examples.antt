-- ===== src/Api/Examples.antt =====
-- Runs of small workflows (api/runner.py, timers/__init__.py and replay/engine.py).
use satay_runtime.Prelude.{
  String, ◌≡◌, refl, none, some, List, [], ◌∷◌, ◌++◌, false, str_eq_iff, ap, any, string_eq, ◌==◌,
  if◌then◌else◌,
}
use satay_runtime.Prelude.Dict
use satay_runtime.Prelude.Int.{pos}
use satay_runtime.Value.{null, int, end, get, literal, merge}
use satay_runtime.Errors.{ok, user_error, runtime_error, workflow_failed_error, propagates}
use satay_runtime.Config.{EffectSafety, NondeterminismPolicy, VersionMismatchPolicy}
use satay_runtime.Journal.Codec.{encode, decode}
use satay_runtime.Journal.Events.{
  Event, RunRecord, new_event, with_seq, workflow_cancelled, cancelled, type_value,
}
use satay_runtime.Journal.Store.{
  Store, Row, empty, create_run, append, set_status, journal, rows_of, get_run, rows_to_events,
  row_to_event, get_run_by_idempotency_key, read_events,
}
use satay_runtime.Journal.Store.Reach.{
  Call, creates, appends, sets_status, perform, after, IsSound, after-IsSound, empty-IsSound,
}
use satay_runtime.Journal.Store.Examples.{database, record_of}
use satay_runtime.Executor.Examples.{world, fresh}
use satay_runtime.Replay.Machine.{Machine, Outcome, new_engine, returned, raised, ◌>>=◌, commit}
use satay_runtime.Replay.Drive.{returns, raises, drive, recorded_terminal_status}
use satay_runtime.Replay.Identity.{text_at}
use satay_runtime.Replay.Load.{load_journal, load_payload}
use satay_runtime.Api.Outcome.{outcome_from_events}
use satay_runtime.Replay.Settled.{Settled, drive-Settled}
use satay_runtime.Control.Commands.{start_run, cancel_run}
use satay_runtime.Control.Apply.{apply_command, apply_commands}
use satay_runtime.Api.Runner.{
  Process, WorkflowDefinition, Start, outcome, build_run_handle, result, resolve_keyed_run,
  await_unpark,
}
use satay_runtime.Api.Ends.{has_outcome, ended_answer, result-ended, result-cancelled}
use satay_runtime.Api.Keys.{create_run-build_run_handle}
use satay_runtime.Timers.Worker.{Worker, tick}
use satay_runtime.Timers.Growth.{tick-append_only}
use satay_runtime.Timers.Aborts.{tick-aborted}

-- A workflow that returns its input, and one that raises.
abbrev echo : WorkflowDefinition
echo = record { name = "w"; fn = λ v. returns v; takes = ""; returns = "" }

abbrev failing : WorkflowDefinition
failing = record { name = "bad"; fn = λ v. raises (user_error "E" "m"); takes = ""; returns = "" }

abbrev process : Process
process = record {
  env = world;
  get_workflow = λ name. some (if name == "bad" then failing else echo);
  code_version = "2";
  effect_safety = EffectSafety.warn;
  nondeterminism = NondeterminismPolicy.strict;
  version_mismatch = VersionMismatchPolicy.strict;
}

abbrev start : String → Start
start run_id = build_run_handle echo (int (pos 7)) (some run_id) none "fresh"

-- A first start creates the run, drives it and returns its output.
first_start : (result process (start "n") fresh).0 ≡ returned (outcome (int (pos 7)))
unfolding await_unpark result build_run_handle resolve_keyed_run ◌>>=◌ commit merge literal drive
    recorded_terminal_status load_journal load_payload propagates type_value outcome_from_events
    after perform create_run append set_status encode decode rows_to_events row_to_event with_seq
    get get_run read_events Dict.get Dict.put
first_start = refl

-- A run without events.
abbrev small_calls : List Call
small_calls = creates (record_of "b") ∷ []

abbrev small : Store
small = after empty small_calls

get_run_b : get_run small "b" ≡ some (record_of "b")
unfolding after perform create_run append set_status encode decode rows_to_events row_to_event
    with_seq get get_run read_events Dict.get Dict.put
get_run_b = refl

abbrev driven : Machine
driven = record fresh {
  store = small;
  engine = new_engine "b" EffectSafety.warn NondeterminismPolicy.strict;
}

driven_returns : (drive world (returns null) driven).0 ≡ returned tt
unfolding ◌>>=◌ commit merge literal drive recorded_terminal_status load_journal load_payload
    propagates type_value outcome_from_events after perform create_run append set_status encode
    decode rows_to_events row_to_event with_seq get get_run read_events Dict.get Dict.put
driven_returns = refl

drive-Settled_example : Settled "b" (drive world (returns null) driven).1
drive-Settled_example =
    drive-Settled world (returns null) driven (refl, (record_of "b", get_run_b)) driven_returns

-- A run that was cancelled.
abbrev cancelled_calls : List Call
cancelled_calls =
    creates (record_of "c")
    ∷ appends (new_event "c" workflow_cancelled end 3)
    ∷ sets_status "c" cancelled
    ∷ []

abbrev stopped : Machine
stopped = record fresh { store = after empty cancelled_calls }

abbrev stopped_events : List Event
stopped_events = with_seq (new_event "c" workflow_cancelled end 3) 1 ∷ []

start_c : resolve_keyed_run (start "c") stopped.store ≡ "c"
unfolding resolve_keyed_run build_run_handle
start_c = refl

get_run_c :
    get_run stopped.store (resolve_keyed_run (start "c") stopped.store)
    ≡ some (record (record_of "c") { status = cancelled })
unfolding resolve_keyed_run build_run_handle after perform create_run append set_status encode
    decode rows_to_events row_to_event with_seq get get_run read_events Dict.get Dict.put
get_run_c = refl

journal_c : journal stopped.store (resolve_keyed_run (start "c") stopped.store) ≡ ok stopped_events
unfolding resolve_keyed_run build_run_handle after perform create_run append set_status encode
    decode rows_to_events row_to_event with_seq get get_run read_events Dict.get Dict.put
journal_c = refl

silent_c : any (λ e. has_outcome e.type) stopped_events ≡ false
unfolding with_seq
silent_c = refl

result-cancelled_example :
    (result process (start "c") stopped).0
    ≡ raised (runtime_error "run did not reach a terminal state")
result-cancelled_example =
    result-cancelled process (start "c") stopped (record (record_of "c") { status = cancelled })
      stopped_events (after-IsSound cancelled_calls empty empty-IsSound) get_run_c refl journal_c
      silent_c

result-ended_example :
    result process (start "c") stopped
    ≡ ended_answer process (start "c") stopped_events (record stopped {
      store = (read_events stopped.store (resolve_keyed_run (start "c") stopped.store)).1;
    })
result-ended_example =
    result-ended process (start "c") stopped (record (record_of "c") { status = cancelled })
      stopped_events (after-IsSound cancelled_calls empty empty-IsSound) get_run_c refl journal_c

-- The run b was stamped with another version.
get_run-start_b : get_run database (resolve_keyed_run (start "b") database) ≡ some (record_of "b")
unfolding resolve_keyed_run build_run_handle after perform create_run append set_status encode
    decode rows_to_events row_to_event with_seq get get_run read_events Dict.get Dict.put
get_run-start_b = refl

no_key : get_run_by_idempotency_key database "k" ≡ none
unfolding get_run_by_idempotency_key after perform create_run append set_status encode decode
    rows_to_events row_to_event with_seq get get_run read_events Dict.get Dict.put
no_key = refl

no_run : any (λ q. q.run_id == "z") database.runs ≡ false
unfolding after perform create_run append set_status encode decode rows_to_events row_to_event
    with_seq get get_run read_events Dict.get Dict.put
no_run = refl

abbrev keyed : RunRecord
keyed = record (record_of "z") { idempotency_key = some "k" }

create_run-build_run_handle_example :
    (resolve_keyed_run
        (build_run_handle echo null none (some "k") "fresh")
        (create_run database keyed)
      ≡ "z")
    × (resolve_keyed_run
          (build_run_handle echo null (some "j") (some "k") "fresh")
          (create_run database keyed)
        ≡ "j")
create_run-build_run_handle_example =
    create_run-build_run_handle database keyed "k" echo null "fresh" "j" no_key no_run refl
      (λ e. let h = (str_eq_iff "j" "").1 e in cc)

-- A worker with two commands: a start of the workflow that raises, and a cancellation.
abbrev worker : Worker
worker = record {
  queue = start_run "bad" null "x" none ∷ cancel_run "b" ∷ [];
  machine = record fresh { store = small };
}

tick-append_only_example :
    IsSound (tick process (λ runs. runs) worker).1.machine.store
    × ((j : String)
        → (rows : List Row) × (rows_of (tick process (λ runs. runs) worker).1.machine.store.events j
            ≡ rows_of small.events j ++ rows))
tick-append_only_example =
    tick-append_only process (λ runs. runs) worker (after-IsSound small_calls empty empty-IsSound)

abbrev failed_start : Outcome (Unit {0}) × Machine
failed_start = apply_command process (start_run "bad" null "x" none) worker.machine

start_raises : failed_start.0 ≡ raised (workflow_failed_error "E" "m" "t")
unfolding text_at await_unpark apply_command result build_run_handle resolve_keyed_run ◌>>=◌ commit
    merge literal drive recorded_terminal_status load_journal load_payload propagates type_value
    outcome_from_events after perform create_run append set_status encode decode rows_to_events
    row_to_event with_seq get get_run read_events Dict.get Dict.put
start_raises = refl

tick-aborted_example :
    tick process (λ runs. runs) worker
    ≡ (raised (workflow_failed_error "E" "m" "t"), record { queue = []; machine = failed_start.1 })
unfolding apply_commands
tick-aborted_example =
    tick-aborted process (λ runs. runs) worker.machine worker.machine failed_start.1 []
      (cancel_run "b" ∷ []) (start_run "bad" null "x" none) (workflow_failed_error "E" "m" "t") refl
      (ap (λ o. (o, failed_start.1)) start_raises)
