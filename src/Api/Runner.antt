-- ===== src/Api/Runner.antt =====
-- api/runner.py and api/run_handle.py: the controller behind a run's handle. No poll loop of this
-- process runs over the store, so a run that is parked is answered by PARKED at once.
use satay_runtime.Prelude.{
  ℕ, String, Bool, true, false, Option, none, some, List, [], ◌∷◌, if◌then◌else◌, ◌==◌, string_eq,
}
use satay_runtime.Value.{Value, str, end, field, literal, merge}
use satay_runtime.Config.{EffectSafety, NondeterminismPolicy, VersionMismatchPolicy}
use satay_runtime.Journal.Codec.{encode}
use satay_runtime.Journal.Events.{
  Event, RunRecord, RunStatus, workflow_created, workflow_resumed, running, waiting,
}
use satay_runtime.Journal.Store
use satay_runtime.Journal.Store.{Store}
use satay_runtime.Executor.{record_event}
use satay_runtime.Replay.Machine.{
  Env, Exec, returned, new_engine, pure, lift, ◌>>=◌, ◌>>◌, query, with_store, set_engine,
}
use satay_runtime.Replay.Drive.{Workflow, drive}
use satay_runtime.Control.Commands.{append_cancellation}
use satay_runtime.Api.Outcome.{outcome_from_events}
use satay_runtime.Api.Versions.{check_resume_version}

-- api/registry.py: a workflow's name, its body at an input, and the resolved annotations of its first
-- parameter and of its return.
pub record WorkflowDefinition : Type 0 where
  pub name : String
  pub fn : Value → Workflow
  pub takes : String
  pub returns : String

-- What a process works with: the outside world, REGISTRY.get_workflow, the code version of the
-- process, and the three policies.
pub record Process : Type 0 where
  pub env : Env
  pub get_workflow : String → Option WorkflowDefinition
  pub code_version : String
  pub effect_safety : EffectSafety
  pub nondeterminism : NondeterminismPolicy
  pub version_mismatch : VersionMismatchPolicy

-- The fields of a RunController that say which run it is for.
pub record Start : Type 0 where
  pub run_id : String
  pub workflow : WorkflowDefinition
  pub input : Value
  pub idempotency_key : Option String
  pub key_lookup : Bool

-- What `result()` returns: PARKED, or the outcome.
pub data Answer : Type 0 where
  still_parked : Answer
  outcome : Value → Answer

-- `build_run_handle`: a key is looked up only where no run id is given. A fresh id is a parameter.
unfoldable pub build_run_handle :
    WorkflowDefinition → Value → Option String → Option String → String → Start
build_run_handle workflow input run_id idempotency_key fresh = record {
  run_id = elim run_id [ none ↦ fresh | some i ↦ if i == "" then fresh else i ];
  workflow = workflow;
  input = input;
  idempotency_key = idempotency_key;
  key_lookup = elim idempotency_key [
    | none ↦ false
    | some k ↦ elim run_id [ none ↦ true | some i ↦ false ]
  ];
}

-- self._now()
abbrev pub get_now : Exec ℕ
get_now m = (returned m.now, m)

-- store.read_events(run_id)
abbrev pub read_run : String → Exec (List Event)
read_run run_id m = let (r, s) = Store.read_events m.store run_id in lift r (record m { store = s })

-- `_resolve_keyed_run`: the id of the run that the controller is for.
unfoldable pub resolve_keyed_run : Start → Store → String
resolve_keyed_run c s =
    if c.key_lookup
    then elim c.idempotency_key [
      | none ↦ c.run_id
      | some k ↦ elim (Store.get_run_by_idempotency_key s k) [
        | none ↦ c.run_id
        | some existing ↦ existing.run_id
      ]
    ]
    else c.run_id

-- `await_unpark` where no poll loop runs over the store: is the run parked?
unfoldable pub await_unpark : Option RunRecord → Bool
await_unpark none = false
await_unpark (some r) = elim r.status [ waiting ↦ true | _ ↦ false ]

module _ (p : Process) where
  -- `_create`: the row is written before the input is encoded.
  unfoldable pub create : Start → String → Exec (Unit {0})
  create c run_id = do
    now ← get_now
    with_store (λ s. Store.create_run s (record {
      run_id = run_id;
      workflow_name = c.workflow.name;
      status = running;
      code_version = p.code_version;
      created_at = now;
      idempotency_key = c.idempotency_key;
    }))
    input ← lift (encode "$" c.input)
    record_event run_id workflow_created (
        merge
          (literal (
            ("workflow_name", str c.workflow.name)
            ∷ ("input_ref", input)
            ∷ ("code_version", str p.code_version)
            ∷ []))
          (elim c.idempotency_key [ none ↦ end | some k ↦ field "idempotency_key" (str k) end ]))

  -- `_drive`: a new engine for the run.
  unfoldable pub drive_run : String → WorkflowDefinition → Value → Exec (Unit {0})
  drive_run run_id workflow input = do
    set_engine (new_engine run_id p.effect_safety p.nondeterminism)
    drive p.env (workflow.fn input)

  -- The part of `result` up to the end of the drive, for a run with a row: its status and version.
  unfoldable pub advance_known : Start → String → String → RunStatus → Exec (Unit {0})
  unfolding drive_run
  advance_known c run_id stamped waiting = drive_run run_id c.workflow c.input
  advance_known c run_id stamped running = do
    check_resume_version stamped p.code_version p.version_mismatch
    record_event run_id workflow_resumed end
    drive_run run_id c.workflow c.input
  advance_known c run_id stamped _ = pure tt

  -- The same, by the run's row.
  unfoldable pub advance : Start → String → Option RunRecord → Exec (Unit {0})
  unfolding create drive_run advance_known
  advance c run_id none = create c run_id >> drive_run run_id c.workflow c.input
  advance c run_id (some r) = advance_known c run_id r.code_version r.status

  -- The part of `result` behind the drive.
  unfoldable pub answer : String → String → Exec Answer
  answer run_id returns = do
    record' ← query (λ s. Store.get_run s run_id)
    if await_unpark record' then pure still_parked else (do
      events ← read_run run_id
      v ← lift (outcome_from_events (λ v. p.env.rehydrate v returns) events)
      pure (outcome v))

  -- `result`
  unfoldable pub result : Start → Exec Answer
  unfolding advance answer
  result c m =
      let run_id = resolve_keyed_run c m.store in
      (advance c run_id (Store.get_run m.store run_id) >> answer run_id c.workflow.returns) m

-- `status`
unfoldable pub status : Start → Store → RunStatus
status c s = elim (Store.get_run s (resolve_keyed_run c s)) [ none ↦ running | some r ↦ r.status ]

-- `cancel`
unfoldable pub cancel : Start → Exec (Unit {0})
cancel c m = (append_cancellation (resolve_keyed_run c m.store) >> pure tt) m
