-- ===== src/Control/Examples.antt =====
-- Commands on small databases (control/commands.py).
use satay_runtime.Prelude.{
  String, ◌+◌, ◌≡◌, ◌≢◌, refl, none, some, List, [], ◌∷◌, ◌++◌, true, All, filter, length, arith,
  ◌<◌, string_eq,
}
use satay_runtime.Prelude.Dict
use satay_runtime.Prelude.Int.{pos}
use satay_runtime.Value.{null, int, str, end, field, get}
use satay_runtime.Errors.{ok}
use satay_runtime.Config.{EffectSafety, NondeterminismPolicy}
use satay_runtime.Journal.Codec.{encode, decode}
use satay_runtime.Journal.Events.{
  Event, RunRecord, is_terminal, new_event, with_seq, workflow_created, task_scheduled,
  workflow_completed, completed, cancelled,
}
use satay_runtime.Journal.Store
use satay_runtime.Journal.Store.{
  Store, empty, create_run, append, set_status, journal, rows_of, get_run, rows_to_events,
  row_to_event, find_run,
}
use satay_runtime.Journal.Store.Append.{recorded}
use satay_runtime.Journal.Store.Reach.{
  Call, creates, appends, sets_status, perform, after, IsSound, after-IsSound, empty-IsSound,
}
use satay_runtime.Journal.Store.Examples.{database, database-IsSound, record_of, run_b, step}
use satay_runtime.Executor.Examples.{world, fresh}
use satay_runtime.Replay.Machine.{Machine, new_engine, returned}
use satay_runtime.Replay.Drive.{returns, drive}
use satay_runtime.Control.Commands.{append_cancellation, inherit}
use satay_runtime.Control.ForkPoint.{resolve_fork_point}
use satay_runtime.Control.Forks.{prefix, create_fork}
use satay_runtime.Control.Cancellation.{cancellation, append_cancellation-stops}
use satay_runtime.Control.Cuts.{has_seq, is_candidate, resolve_fork_point-before_task}
use satay_runtime.Control.Seeding.{copies, forked_event, create_fork-journal}

abbrev running_b : Machine
running_b = record fresh { store = database }

get_run_b : get_run database "b" ≡ some (record_of "b")
unfolding get_run after set_status append encode Store.read_events create_run Dict.get
    rows_to_events row_to_event decode get Dict.put perform
get_run_b = refl

append_cancellation-stops_example :
    let n = (append_cancellation "b" running_b).1 in
    let d =
      drive world
        (returns null)
        (record n { engine = new_engine "b" EffectSafety.warn NondeterminismPolicy.strict }) in
    (journal n.store "b"
      ≡ ok (
          (with_seq (step "b" 2) 1 ∷ [])
          ++ recorded (cancellation "b" 0) (length (rows_of database.events "b") + 1) ∷ []))
    × (d.0 ≡ returned tt)
    × (d.1.executions ≡ [])
    × (d.1.store.events ≡ n.store.events)
    × ((q : RunRecord) × (get_run d.1.store "b" ≡ some q) × (q.status ≡ cancelled))
append_cancellation-stops_example =
    append_cancellation-stops world (returns null)
      (new_engine "b" EffectSafety.warn NondeterminismPolicy.strict) running_b "b" (record_of "b")
      (with_seq (step "b" 2) 1 ∷ []) database-IsSound run_b get_run_b refl refl

-- A run with one task that has completed.
abbrev source_calls : List Call
source_calls =
    creates (record_of "s")
    ∷ appends (new_event "s" workflow_created (field "input_ref" null end) 1)
    ∷ appends (
        new_event "s" task_scheduled
          (field "task_name" (str "t") (field "ordinal" (int (pos 0)) end)) 2)
    ∷ appends (new_event "s" workflow_completed end 3)
    ∷ sets_status "s" completed
    ∷ []

abbrev source : Store
source = after empty source_calls

source-IsSound : IsSound source
source-IsSound = after-IsSound source_calls empty empty-IsSound

abbrev source_events : List Event
source_events =
    with_seq (new_event "s" workflow_created (field "input_ref" null end) 1) 1
    ∷ with_seq
        (new_event "s" task_scheduled
          (field "task_name" (str "t") (field "ordinal" (int (pos 0)) end)) 2)
        2
    ∷ with_seq (new_event "s" workflow_completed end 3) 3
    ∷ []

journal-source : journal source "s" ≡ ok source_events
unfolding after perform create_run append set_status encode decode rows_to_events row_to_event
    with_seq get
journal-source = refl

point_source : (resolve_fork_point source "s" none (some "t") none).0 ≡ ok 1
unfolding resolve_fork_point get_run after set_status append encode create_run Store.read_events
    Dict.get rows_to_events row_to_event decode get perform
point_source = refl

resolve_fork_point-before_task_example :
    ((r : RunRecord) × (get_run source "s" ≡ some r) × (is_terminal r.status ≡ true))
    × (has_seq 1 source_events ≡ true)
    × (filter (is_candidate "t" none) (prefix 1 source_events) ≡ [])
    × All
        (λ (d : Event).
          1 < d.seq → filter (is_candidate "t" none) (prefix d.seq source_events) ≢ [])
        source_events
resolve_fork_point-before_task_example =
    resolve_fork_point-before_task source "s" "t" none source_events 1 source-IsSound journal-source
      point_source

abbrev ended_source : RunRecord
ended_source = record (record_of "s") { status = completed }

get_run-source : get_run source "s" ≡ some ended_source
unfolding get_run after set_status append encode create_run perform
get_run-source = refl

some_copies : prefix 1 source_events ≢ []
unfolding with_seq
some_copies h = ground (arith, h)

no_fork_yet : rows_of source.events "f" ≡ []
unfolding after set_status append encode create_run perform
no_fork_yet = refl

create_fork-journal_example :
    let made = create_fork source "s" 1 "f" 9 "2" inherit in
    (made.0 ≡ ok "w")
    × (journal made.1 "f"
        ≡ ok (
            copies "f" 0 (prefix 1 source_events)
            ++ forked_event "s" 1 "f" 9 (copies "f" 0 (prefix 1 source_events)) ∷ []))
    × ((j : String) → j ≢ "f" → rows_of made.1.events j ≡ rows_of source.events j)
unfolding with_seq get
create_fork-journal_example =
    create_fork-journal source "s" 1 "f" 9 "2" ended_source source_events source-IsSound
      get_run-source journal-source no_fork_yet some_copies ((refl, (tt, tt), refl), tt)
