-- ===== src/Api/Growth.antt =====
-- What the controller of a run writes (api/runner.py): rows of its own run only.
use satay_runtime.Prelude.{String, ◌≡◌, none, some, Option, arith}
use satay_runtime.Value.{Value}
use satay_runtime.Errors.{Result, ok, raise}
use satay_runtime.Config.{VersionMismatchPolicy}
use satay_runtime.Journal.Events.{
  RunRecord, RunStatus, workflow_created, workflow_resumed, running, waiting, completed, failed,
  cancelled,
}
use satay_runtime.Journal.Store
use satay_runtime.Journal.Store.{Store}
use satay_runtime.Journal.Store.Reach.{IsSound}
use satay_runtime.Replay.Machine.{Machine, new_engine, with_store, ◌>>=◌, lift}
use satay_runtime.Replay.Appends.{
  Extends, Appends, Extends-refl, Extends-read, Appends-bind, Appends-return, Appends-lift,
  Appends-if, Appends-store, Appends-record, Appends-query, drive-Appends,
}
use satay_runtime.Api.Versions.{check_resume_version}
use satay_runtime.Api.Runner.{
  Process, Start, WorkflowDefinition, create, drive_run, advance_known, advance, answer, result,
  read_run, resolve_keyed_run, await_unpark,
}

check_resume_version-store :
    (stamped current : String) (policy : VersionMismatchPolicy) (m : Machine)
    → (check_resume_version stamped current policy m).1.store ≡ m.store
unfolding check_resume_version
check_resume_version-store stamped current policy m = ground arith

module _ {P : String → Type 0} where
  pub lift-Extends :
      {A : Type 0} (r : Result A) (n : Machine) {s : Store}
      → Extends P s n.store
      → Extends P s (lift r n).1.store
  lift-Extends (ok v) n h = h
  lift-Extends (raise x) n h = h

  pub read_run-Appends : (run_id : String) → Appends P (read_run run_id)
  read_run-Appends run_id = record {
    at = λ m h.
        lift-Extends (Store.read_events m.store run_id).0
          (record m { store = (Store.read_events m.store run_id).1 })
          (Extends-read m.store run_id h);
  }

  check_resume_version-Appends :
      (stamped current : String) (policy : VersionMismatchPolicy)
      → Appends P (check_resume_version stamped current policy)
  check_resume_version-Appends stamped current policy = record {
    at = λ m h. rw (check_resume_version-store stamped current policy m) (Extends-refl h);
  }

  module _ (p : Process) where
    pub drive_run-Appends :
        (run_id : String) (workflow : WorkflowDefinition) (input : Value)
        → P run_id
        → Appends P (drive_run p run_id workflow input)
    unfolding drive_run ◌>>=◌
    drive_run-Appends run_id workflow input mine = record {
      at = λ m h.
          drive-Appends p.env (workflow.fn input)
            (record m { engine = new_engine run_id p.effect_safety p.nondeterminism }) mine h;
    }

    create_run-Appends : (r : RunRecord) → Appends P (with_store (λ s. Store.create_run s r))
    create_run-Appends r = Appends-store _ (λ s. unfold Store.create_run in (ground arith))

    create-Appends : (c : Start) (run_id : String) → P run_id → Appends P (create p c run_id)
    unfolding create
    create-Appends c run_id mine =
        Appends-bind _ _ (record { at = λ m h. Extends-refl h })
          (λ now. Appends-bind _ _ (create_run-Appends _) (λ u.
            Appends-bind _ _ (Appends-lift _)
              (λ input. Appends-record run_id workflow_created _ mine)))

    advance_known-Appends :
        (c : Start) (run_id stamped : String) (status : RunStatus)
        → P run_id
        → Appends P (advance_known p c run_id stamped status)
    unfolding advance_known
    advance_known-Appends c run_id stamped waiting mine =
        drive_run-Appends run_id c.workflow c.input mine
    advance_known-Appends c run_id stamped running mine =
        Appends-bind _ _ (check_resume_version-Appends stamped p.code_version p.version_mismatch)
          (λ u.
            Appends-bind _ _ (Appends-record run_id workflow_resumed _ mine)
              (λ v. drive_run-Appends run_id c.workflow c.input mine))
    advance_known-Appends c run_id stamped completed mine = Appends-return _
    advance_known-Appends c run_id stamped failed mine = Appends-return _
    advance_known-Appends c run_id stamped cancelled mine = Appends-return _

    pub advance-Appends :
        (c : Start) (run_id : String) (found : Option RunRecord)
        → P run_id
        → Appends P (advance p c run_id found)
    unfolding advance
    advance-Appends c run_id none mine =
        Appends-bind _ _ (create-Appends c run_id mine)
          (λ u. drive_run-Appends run_id c.workflow c.input mine)
    advance-Appends c run_id (some r) mine =
        advance_known-Appends c run_id r.code_version r.status mine

    pub answer-Appends : (run_id returns : String) → Appends P (answer p run_id returns)
    unfolding answer
    answer-Appends run_id returns = Appends-bind _ _ (Appends-query _) (λ found.
        Appends-if (await_unpark found) _ _ (Appends-return _) (
          Appends-bind _ _ (read_run-Appends run_id)
            (λ events. Appends-bind _ _ (Appends-lift _) (λ v. Appends-return _))))

    -- The run that the controller is for at a store.
    pub result-Extends :
        (c : Start) (m : Machine)
        → P (resolve_keyed_run c m.store)
        → IsSound m.store
        → Extends P m.store (result p c m).1.store
    unfolding result
    result-Extends c m mine h =
        let run_id = resolve_keyed_run c m.store in
        (Appends-bind _ _ (advance-Appends c run_id (Store.get_run m.store run_id) mine)
            (λ u. answer-Appends run_id c.workflow.returns)).at
          m h
