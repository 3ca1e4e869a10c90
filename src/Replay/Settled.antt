-- ===== src/Replay/Settled.antt =====
-- A drive that returns leaves its run settled (replay/engine.py): parked, or at an end.
use satay_runtime.Prelude.{
  String, ◌≡◌, refl, sym, ◌∙◌, Bool, true, false, some, List, [], ◌∷◌, arith, ==_refl, Option-cases,
  Bool-cases, inl, inr, string_eq, ap,
}
use satay_runtime.Value.{Value, Fields}
use satay_runtime.Errors.{Exn, Result, ok, raise, propagates, Result-cases}
use satay_runtime.Journal.Codec.{encode}
use satay_runtime.Journal.Events.{
  Event, EventType, RunRecord, RunStatus, waiting, running, completed, failed, new_event,
  workflow_failed, workflow_completed,
}
use satay_runtime.Journal.Store
use satay_runtime.Journal.Store.{Store, get_run}
use satay_runtime.Journal.Store.Runs.{
  get_run-set_status, get_run_same, append_runs, runs-read_events,
}
use satay_runtime.Executor.{record_event}
use satay_runtime.Replay.Machine.{
  throw, get_engine, lift, Env, Machine, Engine, Exec, Outcome, returned, raised, parked, continue,
  ◌>>=◌,
}
use satay_runtime.Replay.Commit.{commit-Commits}
use satay_runtime.Replay.Load.{load_journal}
use satay_runtime.Replay.Drive.{
  Workflow, run, finish, resume, drive, mark, recorded_terminal_status,
}
use satay_runtime.Replay.Growth.Ends.{run-Keeps}
use satay_runtime.Replay.Growth.Runs.{load_journal-run_id}

-- Is a run with this status left alone until something wakes it?
abbrev pub is_settled : RunStatus → Bool
is_settled running = false
is_settled _ = true

-- The run is in the table.
abbrev pub Present : String → Machine → Type 0
Present own m = (m.engine.run_id ≡ own) × ((r : RunRecord) × (get_run m.store own ≡ some r))

-- The run is in the table and settled.
abbrev pub Settled : String → Machine → Type 0
Settled own m = (r : RunRecord) × (get_run m.store own ≡ some r) × (is_settled r.status ≡ true)

-- An action that keeps the run in the table, and one that leaves it settled if it returns.
record Stays {A : Type 0} (own : String) (a : Exec A) : Type 0 where
  at : (m : Machine) → Present own m → Present own (a m).1

record Ends (own : String) (a : Exec (Unit {0})) : Type 0 where
  at : (m : Machine) → Present own m → (a m).0 ≡ returned tt → Settled own (a m).1

module _ {own : String} where
  continue-Settled :
      {A : Type 0} (o : Outcome A) (f : A → Exec (Unit {0})) (n : Machine)
      → ((v : A) → Ends own (f v))
      → Present own n
      → (continue o f n).0 ≡ returned tt
      → Settled own (continue o f n).1
  continue-Settled (returned v) f n k here done = (k v).at n here done
  continue-Settled (raised e) f n k here done = cc
  continue-Settled parked f n k here done = cc

  Ends-bind :
      {A : Type 0} (a : Exec A) (f : A → Exec (Unit {0}))
      → Stays own a
      → ((v : A) → Ends own (f v))
      → Ends own (a >>= f)
  unfolding ◌>>=◌
  Ends-bind a f ha k = record {
    at = λ m here done. continue-Settled (a m).0 f (a m).1 k (ha.at m here) done;
  }

  Ends-throw : (e : Exn) → Ends own (throw e)
  Ends-throw e = record { at = λ m here done. cc }

  Stays-engine : Stays own get_engine
  Stays-engine = record { at = λ m here. here }

  Stays-lift : {A : Type 0} (r : Result A) → Stays own (lift r)
  Stays-lift (ok v) = record { at = λ m here. here }
  Stays-lift (raise e) = record { at = λ m here. here }

  Ends-mark : (status : RunStatus) → is_settled status ≡ true → Ends own (mark status)
  unfolding ◌>>=◌
  Ends-mark status settled = record {
    at = λ m (same, (r, found)) done. (
      record r { status = status },
      rw (get_run-set_status m.store m.engine.run_id own status, same, ==_refl own, found) refl,
      settled,
    );
  }

  Stays-record :
      (run_id : String) (type : EventType) (d : Fields) → Stays own (record_event run_id type d)
  Stays-record run_id type d = record {
    at = λ m (same, (r, found)).
        let c = commit-Commits (new_event run_id type d m.now) m in
        (
          ap (λ (g : Engine). g.run_id) c.engine ∙ same,
          (
            r,
            get_run_same _ m.store own (
                  ap (λ (s : Store). s.runs) c.store
                  ∙ append_runs m.store (new_event run_id type d m.now))
                ∙ found,
          ),
        );
  }

  finish-Ends : (env : Env) (o : Outcome Value) → Ends own (finish env o)
  unfolding finish
  finish-Ends env parked = Ends-mark waiting refl
  finish-Ends env (raised e) = elim (Bool-cases (propagates e)) [
    | inl out ↦ rw (out, finish) (Ends-throw e)
    | inr caught ↦
        rw (caught, finish)
          (Ends-bind _ _ Stays-engine (λ g.
            Ends-bind _ _ (Stays-record g.run_id workflow_failed _) (λ u. Ends-mark failed refl)))
  ]
  finish-Ends env (returned v) = Ends-bind _ _ Stays-engine (λ g.
      Ends-bind _ _ (Stays-lift (encode "$" v)) (λ output.
        Ends-bind _ _ (Stays-record g.run_id workflow_completed _) (λ u. Ends-mark completed refl)))

recorded-settled :
    (es : List Event) (status : RunStatus)
    → recorded_terminal_status es ≡ some status
    → is_settled status ≡ true
unfolding recorded_terminal_status
recorded-settled [] status h = cc
recorded-settled (e ∷ es) status h = elim (Option-cases (recorded_terminal_status es)) [
  | inr (other, last) ↦
      let same : some other ≡ some status = ground (arith, last) in
      recorded-settled es status (last ∙ same)
  | inl none_later ↦ ground (arith, none_later)
]

run-Stays : (env : Env) (w : Workflow) (own : String) → Stays own (run env w)
run-Stays env w own = record {
  at = λ m (same, (r, found)).
      let grown = (run-Keeps env w).at m same in
      (grown.run_id, (r, get_run_same _ m.store own grown.runs ∙ found));
}

resume-Ends :
    (env : Env) (w : Workflow) (es : List Event) (own : String) → Ends own (resume env w es)
unfolding resume ◌>>=◌
resume-Ends env w es own = record {
  at = λ m here done. elim (Option-cases (recorded_terminal_status es)) [
    | inr (status, ended) ↦
        rw (ended, resume) ((Ends-mark status (recorded-settled es status ended)).at m here refl)
    | inl unended ↦ elim (Result-cases (load_journal es m.engine)) [
      | inr (x, bad) ↦
          let stopped : ◌≡◌ {A = Outcome (Unit {0})} (returned tt) (raised x) =
            sym done ∙ rw (unended, bad, resume) refl in
          absurd (cc stopped)
      | inl (g, loaded) ↦
          let n : Machine = record m { engine = g } in
          let there : Present own n = (load_journal-run_id es m.engine g loaded ∙ here.0, here.1) in
          let ran = (run-Stays env w own).at n there in
          let finished = rw (unended, loaded, resume) at done in
          rw (unended, loaded, resume)
            ((finish-Ends env (run env w n).0).at (run env w n).1 ran finished)
    ]
  ];
}

-- If a drive of a run that is in the table returns, then the run is in the table and parked or at an
-- end: it is not left running.
pub drive-Settled :
    (env : Env) (w : Workflow) (m : Machine)
    → Present m.engine.run_id m
    → (drive env w m).0 ≡ returned tt
    → Settled m.engine.run_id (drive env w m).1
unfolding drive ◌>>=◌
drive-Settled env w m here done =
    let own = m.engine.run_id in
    elim (Result-cases (Store.read_events m.store own).0) [
      | inr (x, bad) ↦
          let stopped : ◌≡◌ {A = Outcome (Unit {0})} (returned tt) (raised x) =
            sym done ∙ rw bad refl in
          absurd (cc stopped)
      | inl (es, read) ↦
          let n : Machine = record m { store = (Store.read_events m.store own).1 } in
          let there : Present own n = (
            refl,
            (here.1.0, get_run_same n.store m.store own (runs-read_events m.store own) ∙ here.1.1),
          ) in
          let finished = rw read at done in rw read ((resume-Ends env w es own).at n there finished)
    ]
