-- ===== src/Api/Ends.antt =====
-- `result` of api/runner.py for a run that has ended, and for one that may not be resumed.
use satay_runtime.Prelude.{
  String, ◌≡◌, ◌≢◌, refl, ◌∙◌, ap, Bool, true, false, none, some, List, [], ◌∷◌, arith, any, ==_ne,
  string_eq,
}
use satay_runtime.Value.{Value}
use satay_runtime.Errors.{Result, ok, raise, runtime_error, version_mismatch_error}
use satay_runtime.Config.{strict}
use satay_runtime.Journal.Events.{
  Event, EventType, RunRecord, workflow_completed, workflow_failed, RunStatus, is_terminal, running,
  waiting, completed, failed, cancelled,
}
use satay_runtime.Journal.Store
use satay_runtime.Journal.Store.{Store, journal, get_run}
use satay_runtime.Journal.Store.Cache.{read_events-eq-journal}
use satay_runtime.Journal.Store.Reach.{IsSound}
use satay_runtime.Replay.Machine.{Exec, Machine, Outcome, returned, raised, pure, lift, ◌>>=◌}
use satay_runtime.Api.Versions.{check_resume_version, is_version_mismatch}
use satay_runtime.Api.Outcome.{outcome_from_events, last_outcome}
use satay_runtime.Api.Runner.{
  Process, Start, Answer, outcome, advance, advance_known, answer, result, resolve_keyed_run,
  await_unpark,
}

advance_known-ended :
    (p : Process) (c : Start) (run_id stamped : String) (status : RunStatus)
    → is_terminal status ≡ true
    → advance_known p c run_id stamped status ≡ pure tt
unfolding advance_known
advance_known-ended p c run_id stamped running h = cc
advance_known-ended p c run_id stamped waiting h = cc
advance_known-ended p c run_id stamped completed h = refl
advance_known-ended p c run_id stamped failed h = refl
advance_known-ended p c run_id stamped cancelled h = refl

await_unpark-ended : (r : RunRecord) → is_terminal r.status ≡ true → await_unpark (some r) ≡ false
unfolding await_unpark
await_unpark-ended r h = ground arith

-- The answer that an outcome gives.
abbrev pub answer_with : Result Value → Exec Answer
answer_with (ok v) m = (returned (outcome v), m)
answer_with (raise e) m = (raised e, m)

answer_of :
    (r : Result Value) (m : Machine) → (lift r >>= λ v. pure (outcome v)) m ≡ answer_with r m
unfolding ◌>>=◌
answer_of (ok v) m = refl
answer_of (raise e) m = refl

-- What a run that has ended is answered with.
abbrev pub ended_answer : Process → Start → List Event → Exec Answer
ended_answer p c es =
    answer_with (outcome_from_events (λ v. p.env.rehydrate v c.workflow.returns) es)

-- In a store in order, result for a run that has ended, its own or the one that its key is for, and
-- whose journal can be read, writes nothing and runs nothing: it returns or raises what the journal
-- says.
pub result-ended :
    (p : Process) (c : Start) (m : Machine) (r : RunRecord) (es : List Event)
    → let run_id = resolve_keyed_run c m.store in
      IsSound m.store
      → get_run m.store run_id ≡ some r
      → is_terminal r.status ≡ true
      → journal m.store run_id ≡ ok es
      → result p c m
        ≡ ended_answer p c es (record m { store = (Store.read_events m.store run_id).1 })
unfolding result advance answer ◌>>=◌
result-ended p c m r es sound found over read =
    let run_id = resolve_keyed_run c m.store in
    let reads = (read_events-eq-journal m.store run_id sound.numbered sound.coherent).0 ∙ read in
    rw
      (
        found,
        advance_known-ended p c run_id r.code_version r.status over,
        found,
        await_unpark-ended r over,
        reads,
      )
      (answer_of (outcome_from_events (λ v. p.env.rehydrate v c.workflow.returns) es)
        (record m { store = (Store.read_events m.store run_id).1 }))

-- Does an event say how the workflow ended?
abbrev pub has_outcome : EventType → Bool
has_outcome workflow_completed = true
has_outcome workflow_failed = true
has_outcome _ = false

no_outcome :
    (rehydrate : Value → Result Value) (es : List Event)
    → any (λ e. has_outcome e.type) es ≡ false
    → last_outcome rehydrate es ≡ none
unfolding last_outcome
no_outcome rehydrate [] h = refl
no_outcome rehydrate (e ∷ es) h =
    let (first, rest) : (has_outcome e.type ≡ false) × (any (λ d. has_outcome d.type) es ≡ false) =
      ground arith in
    rw (no_outcome rehydrate es rest) (ground (arith, first))

outcome-silent :
    (rehydrate : Value → Result Value) (es : List Event)
    → any (λ e. has_outcome e.type) es ≡ false
    → outcome_from_events rehydrate es ≡ raise (runtime_error "run did not reach a terminal state")
unfolding outcome_from_events
outcome-silent rehydrate es h = rw (no_outcome rehydrate es h, outcome_from_events) refl

-- In a store in order, result for a run that has ended without WorkflowCompleted and WorkflowFailed
-- in its journal, which can be read, as a cancelled run does, raises RuntimeError with the text that
-- it did not reach a terminal state.
pub result-cancelled :
    (p : Process) (c : Start) (m : Machine) (r : RunRecord) (es : List Event)
    → let run_id = resolve_keyed_run c m.store in
      IsSound m.store
      → get_run m.store run_id ≡ some r
      → is_terminal r.status ≡ true
      → journal m.store run_id ≡ ok es
      → any (λ e. has_outcome e.type) es ≡ false
      → (result p c m).0 ≡ raised (runtime_error "run did not reach a terminal state")
result-cancelled p c m r es sound found over read silent =
    let n : Machine = record m {
      store = (Store.read_events m.store (resolve_keyed_run c m.store)).1;
    } in
    ap (λ (a : Outcome Answer × Machine). a.0) (result-ended p c m r es sound found over read)
    ∙ ap (λ o. (answer_with o n).0)
        (outcome-silent (λ v. p.env.rehydrate v c.workflow.returns) es silent)

-- result for a run that was interrupted while running under another code version is refused with
-- VersionMismatchError under the strict policy, and changes nothing.
pub result-version_mismatch :
    (p : Process) (c : Start) (m : Machine) (r : RunRecord)
    → get_run m.store (resolve_keyed_run c m.store) ≡ some r
    → r.status ≡ running
    → p.version_mismatch ≡ strict
    → r.code_version ≢ p.code_version
    → result p c m ≡ (raised (version_mismatch_error r.code_version p.code_version), m)
unfolding result advance advance_known check_resume_version is_version_mismatch ◌>>=◌
result-version_mismatch p c m r found live policy other =
    rw (found, live, policy, ==_ne r.code_version p.code_version other) refl
