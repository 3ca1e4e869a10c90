-- ===== src/Journal/Store/Examples.antt =====
-- Runs of journal/store.py on a small database.
use satay_runtime.Prelude.{
  ℕ, ◌+◌, ◌≡◌, refl, String, none, List, [], ◌∷◌, ◌++◌, length, ◌==◌, string_eq, if◌then◌else◌,
}
use satay_runtime.Prelude.Dict
use satay_runtime.Prelude.Int.{pos}
use satay_runtime.Value.{int, end, field, get}
use satay_runtime.Errors.{ok, ◌>>=◌}
use satay_runtime.Journal.Codec.{encode, decode}
use satay_runtime.Journal.Events.{
  Event, RunRecord, new_event, with_seq, workflow_completed, task_completed, completed, running,
}
use satay_runtime.Journal.Store.{
  Store, empty, append, read_events, journal, rows_of, delete_run, get_run, rows_to_events,
  row_to_event, create_run, set_status,
}
use satay_runtime.Journal.Store.Rows.{IsNumbered}
use satay_runtime.Journal.Store.Append.{journal-append, recorded}
use satay_runtime.Journal.Store.Cache.{IsCoherent, read_events-eq-journal}
use satay_runtime.Journal.Store.Reach.{
  Call, creates, appends, sets_status, reads, perform, after, IsSound, after-IsSound, empty-IsSound,
  reachable_reads,
}

abbrev pub record_of : String → RunRecord
record_of run_id = record {
  run_id = run_id;
  workflow_name = "w";
  status = running;
  code_version = "1";
  created_at = 0;
  idempotency_key = none;
}

abbrev pub step : String → ℕ → Event
step run_id n = new_event run_id task_completed (field "n" (int (pos n)) end) n

-- Two runs whose events interleave, with reads in between, and the end of the first.
abbrev pub calls : List Call
calls =
    creates (record_of "a")
    ∷ creates (record_of "b")
    ∷ appends (step "a" 1)
    ∷ appends (step "b" 2)
    ∷ reads "a"
    ∷ appends (step "a" 3)
    ∷ reads "a"
    ∷ appends (new_event "a" workflow_completed end 4)
    ∷ sets_status "a" completed
    ∷ []

abbrev pub database : Store
database = after empty calls

pub database-IsSound : IsSound database
database-IsSound = after-IsSound calls empty empty-IsSound

pub run_b : journal database "b" ≡ ok (with_seq (step "b" 2) 1 ∷ [])
unfolding after perform create_run append read_events set_status encode decode rows_to_events
    row_to_event with_seq get Dict.get Dict.put
run_b = refl

reachable_reads_example :
    IsNumbered (after empty calls)
    × ((read_events (after empty calls) "a").0 ≡ journal (after empty calls) "a")
reachable_reads_example = reachable_reads calls "a"

journal-append_example :
    ((append database (step "b" 5)).0
      ≡ ok (with_seq (step "b" 5) (length (rows_of database.events "b") + 1)))
    × ((run_id : String)
        → journal (append database (step "b" 5)).1 run_id ≡ (
            if "b" == run_id
            then (journal database run_id >>= λ es.
                ok (es ++ recorded (step "b" 5) (length (rows_of database.events "b") + 1) ∷ []))
            else journal database run_id))
unfolding get
journal-append_example =
    journal-append database (step "b" 5) database-IsSound.numbered refl (tt, tt)

read_events-eq-journal_example :
    ((read_events database "a").0 ≡ journal database "a") × IsCoherent (read_events database "a").1
read_events-eq-journal_example =
    read_events-eq-journal database "a" database-IsSound.numbered database-IsSound.coherent

deleted : (delete_run database "a").0 ≡ ok tt
unfolding after perform create_run append read_events set_status delete_run get_run encode Dict.get
    rows_to_events row_to_event decode get Dict.put
deleted = refl
