-- ===== src/Api/Fork.antt =====
-- api/fork.py: `satay.fork` and the controller behind the fork's handle. Where no run id is given, a
-- fresh one is a parameter.
use satay_runtime.Prelude.{ℕ, String, Option, none, some, ◌==◌, string_eq, if◌then◌else◌}
use satay_runtime.Prelude.Int.{ℤ}
use satay_runtime.Errors.{lookup_error, unknown_workflow_error}
use satay_runtime.Journal.Events.{RunRecord, RunStatus, is_terminal, running}
use satay_runtime.Journal.Store
use satay_runtime.Journal.Store.{Store}
use satay_runtime.Replay.Machine.{Exec, pure, throw, ◌>>=◌, ◌>>◌, query}
use satay_runtime.Api.Runner.{Process, Answer, answer, get_now}
use satay_runtime.Control.Commands.{Override, append_cancellation}
use satay_runtime.Control.ForkPoint.{resolve_fork_point}
use satay_runtime.Control.Forks.{create_fork}
use satay_runtime.Control.Apply.{on_store, drive_forked_run}

-- The run and the workflow that a ForkController is for.
pub record ForkController : Type 0 where
  pub run_id : String
  pub workflow_name : String

module _ (p : Process) where
  -- `fork` behind the choice of the fork point.
  unfoldable pub fork_at : String → ℕ → Override → Option String → String → Exec ForkController
  fork_at source seq input run_id fresh = do
    found ← query (λ s. Store.get_run s source)
    elim found [
      | none ↦ throw (lookup_error source)
      | some r ↦ elim (p.get_workflow r.workflow_name) [
        | none ↦ throw (unknown_workflow_error r.workflow_name)
        | some workflow ↦
            let new : String = elim run_id [
              | none ↦ fresh
              | some i ↦ if i == "" then fresh else i
            ] in
            (do
              now ← get_now
              workflow_name ← on_store (λ s. create_fork s source seq new now p.code_version input)
              pure (record { run_id = new; workflow_name = workflow_name }))
      ]
    ]

  -- `fork`
  unfoldable pub fork :
      String
      → Option String
      → Option ℤ
      → Option ℕ
      → Override
      → Option String
      → String
      → Exec ForkController
  unfolding fork_at
  fork source before_task before_ordinal fork_point_seq input run_id fresh = do
    seq ← on_store (λ s. resolve_fork_point s source fork_point_seq before_task before_ordinal)
    fork_at source seq input run_id fresh

  -- The drive in `result`, for the run's row.
  unfoldable pub advance_fork : ForkController → Option RunRecord → Exec (Unit {0})
  advance_fork c none = pure tt
  advance_fork c (some r) =
      if is_terminal r.status then pure tt else drive_forked_run p c.run_id c.workflow_name

  -- The return annotation of the workflow, if it is registered.
  abbrev pub annotation : String → String
  annotation workflow_name = elim (p.get_workflow workflow_name) [ none ↦ "" | some w ↦ w.returns ]

  -- `ForkController.result`
  unfoldable pub fork_result : ForkController → Exec Answer
  unfolding advance_fork
  fork_result c = do
    found ← query (λ s. Store.get_run s c.run_id)
    advance_fork c found
    answer p c.run_id (annotation c.workflow_name)

-- `ForkController.status`
unfoldable pub fork_status : ForkController → Store → RunStatus
fork_status c s = elim (Store.get_run s c.run_id) [ none ↦ running | some r ↦ r.status ]

-- `ForkController.cancel`
abbrev pub fork_cancel : ForkController → Exec (Unit {0})
fork_cancel c = append_cancellation c.run_id >> pure tt
