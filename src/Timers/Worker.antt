-- ===== src/Timers/Worker.antt =====
-- timers/__init__.py: one turn of the worker's poll loop.
use satay_runtime.Prelude.{
  ℕ, ◌+◌, String, Bool, true, false, Option, none, some, List, [], ◌∷◌, any, string_eq,
  if◌then◌else◌,
}
use satay_runtime.Prelude.Dict
use satay_runtime.Prelude.Dict.{Dict}
use satay_runtime.Journal.Events.{is_terminal, TimerRecord}
use satay_runtime.Journal.Store
use satay_runtime.Journal.Store.{Store}
use satay_runtime.Replay.Machine.{Exec, Machine, Outcome, pure, lift, ◌>>=◌, ◌>>◌, query}
use satay_runtime.Api.Runner.{Process, read_run}
use satay_runtime.Control.Commands.{CommandQueue, drain}
use satay_runtime.Control.Apply.{on_store, drive_recorded, apply_commands}
use satay_runtime.Timers.{fire_one, outstanding_event_waits}

-- Does the inbox have an event for one of the waits?
abbrev pub has_match : Store → Dict String (String × Option String) → Bool
has_match s waits =
    any (λ w. elim (Store.match_inbox_event s w.1.0 w.1.1) [ none ↦ false | some e ↦ true ]) waits

-- The timers of the runs to drive again, each run once, in the order of firing.
abbrev pub noted : Bool → String → List String → List String
noted again run_id runs = if again then Dict.add runs run_id else runs

-- The first loop of `_fire_timers`.
unfoldable pub fire_all : List TimerRecord → List String → Exec (List String)
fire_all [] runs = pure runs
fire_all (t ∷ ts) runs = do
  again ← (λ m. on_store (fire_one t m.now) m)
  fire_all ts (noted again t.run_id runs)

module _ (p : Process) where
  -- `_redrive`
  unfoldable pub redrive : String → Exec (Unit {0})
  redrive run_id m =
      elim (Store.get_run m.store run_id) as (λ _. Exec (Unit {0})) [
        | none ↦ pure tt
        | some r ↦ if is_terminal r.status then pure tt else elim (p.get_workflow r.workflow_name) [
          | none ↦ pure tt
          | some workflow ↦ drive_recorded p run_id workflow
        ]
      ]
        m

  -- The loop's body in `_deliver_events`, for a run that has not ended: how many runs it drives.
  unfoldable pub deliver_to : String → Exec ℕ
  unfolding redrive
  deliver_to run_id = do
    events ← read_run run_id
    waits ← lift (outstanding_event_waits events)
    matched ← query (λ s. has_match s waits)
    if matched then (redrive run_id >> pure 1) else pure 0

  unfoldable pub deliver_one : String → Exec ℕ
  unfolding deliver_to
  deliver_one run_id m =
      elim (Store.get_run m.store run_id) as (λ _. Exec ℕ) [
        | none ↦ pure 0
        | some r ↦ if is_terminal r.status then pure 0 else deliver_to run_id
      ]
        m

  unfoldable pub deliver_to_all : List String → Exec ℕ
  unfolding deliver_one
  deliver_to_all [] = pure 0
  deliver_to_all (run_id ∷ run_ids) = do
    n ← deliver_one run_id
    k ← deliver_to_all run_ids
    pure (n + k)

  -- `_deliver_events`
  unfoldable pub deliver_events : Exec ℕ
  unfolding deliver_to_all
  deliver_events = query Store.list_runs >>= λ run_ids. deliver_to_all run_ids

  unfoldable pub resume_one : String → Exec ℕ
  unfolding redrive
  resume_one run_id m =
      elim (Store.get_run m.store run_id) as (λ _. Exec ℕ) [
        | none ↦ pure 0
        | some r ↦ if is_terminal r.status then pure 0 else (redrive run_id >> pure 1)
      ]
        m

  -- The second loop of `_fire_timers`.
  unfoldable pub resume_all : List String → Exec ℕ
  unfolding resume_one
  resume_all [] = pure 0
  resume_all (run_id ∷ run_ids) = do n ← resume_one run_id; k ← resume_all run_ids; pure (n + k)

  -- `_fire_timers`. `arrange` is the order in which Python walks a set.
  unfoldable pub fire_timers : (List String → List String) → Exec ℕ
  unfolding fire_all resume_all
  fire_timers arrange = do
    due ← (λ m. query (λ s. Store.due_timers s m.now) m)
    to_resume ← fire_all due []
    resume_all (arrange to_resume)

  -- `tick` behind the drain of the queue.
  unfoldable pub work : (List String → List String) → CommandQueue → Exec ℕ
  unfolding deliver_events fire_timers
  work arrange commands = do
    apply_commands p commands
    n ← deliver_events
    k ← fire_timers arrange
    pure (n + k)

-- A worker: its queue, and the process's state.
pub record Worker : Type 0 where
  pub queue : CommandQueue
  pub machine : Machine

-- `tick`: the number of runs driven, or the exception that ends the loop.
unfoldable pub tick : Process → (List String → List String) → Worker → Outcome ℕ × Worker
unfolding work drain
tick p arrange w =
    let (commands, rest) = drain w.queue in
    let (r, m) = work p arrange commands w.machine in (r, record { queue = rest; machine = m })
