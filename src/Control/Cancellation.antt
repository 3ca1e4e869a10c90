-- ===== src/Control/Cancellation.antt =====
-- What a cancellation leaves (control/commands.py), and what a later drive of the run does
-- (replay/engine.py).
use satay_runtime.Prelude.{
  String, ℕ, ◌+◌, ◌≡◌, refl, sym, ◌∙◌, ap, Bool, true, false, none, some, List, [], ◌∷◌, ◌++◌,
  arith, ==_refl, if◌then◌else◌, string_eq, length, or_else,
}
use satay_runtime.Value.{end, get}
use satay_runtime.Errors.{ok}
use satay_runtime.Journal.Events.{
  Event, RunRecord, is_terminal, workflow_cancelled, cancelled, new_event,
}
use satay_runtime.Journal.Store
use satay_runtime.Journal.Store.{Store, journal, rows_of, get_run, rows_to_events}
use satay_runtime.Journal.Store.Append.{journal-append, recorded}
use satay_runtime.Journal.Store.Cache.{events-read_events}
use satay_runtime.Journal.Store.Reach.{IsSound, same_rows, append-IsSound}
use satay_runtime.Journal.Store.Runs.{
  get_run-set_status, get_run_same, append_runs, runs-read_events,
}
use satay_runtime.Replay.Machine.{
  Env, Machine, Engine, Exec, Outcome, returned, raised, parked, continue, ◌>>=◌, ◌>>◌, commit,
  with_store, pure,
}
use satay_runtime.Replay.Commit.{Commits, commit-Commits}
use satay_runtime.Replay.Drive.{Workflow, drive, recorded_terminal_status, terminal_status}
use satay_runtime.Replay.Hits.{drive-ended}
use satay_runtime.Control.Commands.{append_cancellation, cancel_now}

abbrev pub cancellation : String → ℕ → Event
cancellation run_id now = new_event run_id workflow_cancelled end now

-- What a cancellation leaves, wherever a crash stops it.
record Cancels (run_id : String) (m n : Machine) : Type 0 where
  events : n.store.events ≡ (Store.append m.store (cancellation run_id m.now)).1.events
  cache : n.store.event_cache ≡ (Store.append m.store (cancellation run_id m.now)).1.event_cache
  executions : n.executions ≡ m.executions
  present :
      (r : RunRecord)
      → get_run m.store run_id ≡ some r
      → (q : RunRecord) × (get_run n.store run_id ≡ some q)

-- A commit of the cancellation, with or without the status behind it.
committed-Cancels :
    (run_id : String) (m n : Machine) → Commits (cancellation run_id m.now) m n → Cancels run_id m n
committed-Cancels run_id m n c = record {
  events = ap (λ (s : Store). s.events) c.store;
  cache = ap (λ (s : Store). s.event_cache) c.store;
  executions = c.executions;
  present = λ r found. (
    r,
    get_run_same n.store m.store run_id
          (ap (λ (s : Store). s.runs) c.store ∙ append_runs m.store (cancellation run_id m.now))
        ∙ found,
  );
}

marked-Cancels :
    (run_id : String) (m n : Machine)
    → Cancels run_id m n
    → Cancels run_id m (record n { store = Store.set_status n.store run_id cancelled })
marked-Cancels run_id m n c = record {
  events = unfold Store.set_status in c.events;
  cache = unfold Store.set_status in c.cache;
  executions = c.executions;
  present = λ r found.
      let (q, there) = c.present r found in
      (
        record q { status = cancelled },
        rw (get_run-set_status n.store run_id run_id cancelled, ==_refl run_id, there) refl,
      );
}

continue-Cancels :
    (run_id : String) (m n : Machine) (o : Outcome (Unit {0}))
    → Cancels run_id m n
    → Cancels run_id m
        (continue o (λ u. with_store (λ s. Store.set_status s run_id cancelled) >> pure true) n).1
unfolding ◌>>=◌
continue-Cancels run_id m n (raised e) c = c
continue-Cancels run_id m n parked c = c
continue-Cancels run_id m n (returned u) c = marked-Cancels run_id m n c

cancel_now-Cancels : (run_id : String) (m : Machine) → Cancels run_id m (cancel_now run_id m).1
unfolding cancel_now ◌>>=◌
cancel_now-Cancels run_id m =
    let written = commit-Commits (cancellation run_id m.now) m in
    continue-Cancels run_id m (commit (cancellation run_id m.now) m).1
      (commit (cancellation run_id m.now) m).0
      (committed-Cancels run_id m (commit (cancellation run_id m.now) m).1 written)

recorded_terminal_status-snoc :
    (es : List Event) (e : Event)
    → recorded_terminal_status (es ++ e ∷ [])
      ≡ or_else (terminal_status e.type) (recorded_terminal_status es)
unfolding recorded_terminal_status
recorded_terminal_status-snoc [] e = ground arith
recorded_terminal_status-snoc (d ∷ es) e = ground (arith, recorded_terminal_status-snoc es e)

journal-Cancels :
    (run_id : String) (m n : Machine) (es : List Event)
    → IsSound m.store
    → Cancels run_id m n
    → journal m.store run_id ≡ ok es
    → journal n.store run_id
      ≡ ok (
          es
          ++ recorded (cancellation run_id m.now) (length (rows_of m.store.events run_id) + 1) ∷ [])
unfolding get
journal-Cancels run_id m n es sound c read =
    let added =
      (journal-append m.store (cancellation run_id m.now) sound.numbered refl tt).1 run_id in
    ap (λ rows. rows_to_events (rows_of rows run_id)) c.events
    ∙ added
    ∙ rw (==_refl run_id, read) refl

drive-Cancels :
    (env : Env) (w : Workflow) (g : Engine) (m n : Machine) (run_id : String) (r : RunRecord)
    (es : List Event)
    → IsSound m.store
    → Cancels run_id m n
    → journal m.store run_id ≡ ok es
    → get_run m.store run_id ≡ some r
    → g.run_id ≡ run_id
    → let d = drive env w (record n { engine = g }) in
      (d.0 ≡ returned tt)
      × (d.1.executions ≡ m.executions)
      × (d.1.store.events ≡ n.store.events)
      × ((q : RunRecord) × (get_run d.1.store run_id ≡ some q) × (q.status ≡ cancelled))
drive-Cancels env w g m n run_id r es sound c read found same =
    let e = recorded (cancellation run_id m.now) (length (rows_of m.store.events run_id) + 1) in
    let after = journal-Cancels run_id m n es sound c read in
    let kept : IsSound n.store =
      same_rows (sym c.events) (sym c.cache)
        (append-IsSound m.store (cancellation run_id m.now) sound) in
    let ended =
      drive-ended env w (record n { engine = g }) (es ++ e ∷ []) cancelled kept.numbered
        kept.coherent (rw same after) (recorded_terminal_status-snoc es e) in
    let (q, there) = c.present r found in
    let seen = (Store.read_events n.store run_id).1 in
    rw (ended, same)
      (
        refl,
        c.executions,
        unfold Store.set_status in events-read_events n.store run_id,
        (
          record q { status = cancelled },
          rw
              (
                get_run-set_status seen run_id run_id cancelled,
                ==_refl run_id,
                get_run_same seen n.store run_id (runs-read_events n.store run_id),
                there,
              )
              refl,
          refl,
        ),
      )

-- A run that is in the table and has not ended is cancelled.
append_cancellation-live :
    (m : Machine) (run_id : String) (r : RunRecord)
    → get_run m.store run_id ≡ some r
    → is_terminal r.status ≡ false
    → append_cancellation run_id m ≡ cancel_now run_id m
unfolding append_cancellation
append_cancellation-live m run_id r found live =
    ap
      (λ o.
        (elim o as (λ _. Exec Bool) [
          | none ↦ pure false
          | some q ↦ if is_terminal q.status then pure false else cancel_now run_id
        ])
          m)
      found
    ∙ rw live refl

-- In a store in order, cancelling a run that is in the table, has not ended and whose journal can be
-- read adds one WorkflowCancelled at the end of its journal, also if an armed crash fires behind it;
-- and from then on a drive of the run by an engine for it runs no task, adds no event, returns and
-- sets the status to cancelled.
pub append_cancellation-stops :
    (env : Env) (w : Workflow) (g : Engine) (m : Machine) (run_id : String) (r : RunRecord)
    (es : List Event)
    → IsSound m.store
    → journal m.store run_id ≡ ok es
    → get_run m.store run_id ≡ some r
    → is_terminal r.status ≡ false
    → g.run_id ≡ run_id
    → let n = (append_cancellation run_id m).1 in
      let d = drive env w (record n { engine = g }) in
      (journal n.store run_id
        ≡ ok (
            es
            ++ recorded (cancellation run_id m.now) (length (rows_of m.store.events run_id) + 1)
              ∷ []))
      × (d.0 ≡ returned tt)
      × (d.1.executions ≡ m.executions)
      × (d.1.store.events ≡ n.store.events)
      × ((q : RunRecord) × (get_run d.1.store run_id ≡ some q) × (q.status ≡ cancelled))
append_cancellation-stops env w g m run_id r es sound read found live same =
    let c = cancel_now-Cancels run_id m in
    let (done, executed, kept, status) =
      drive-Cancels env w g m (cancel_now run_id m).1 run_id r es sound c read found same in
    rw (append_cancellation-live m run_id r found live) (
      journal-Cancels run_id m (cancel_now run_id m).1 es sound c read,
      done,
      executed,
      kept,
      status,
    )
