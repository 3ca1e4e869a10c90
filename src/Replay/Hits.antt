-- ===== src/Replay/Hits.antt =====
-- A durable call that the journal has a record of, and a run that the journal has an end of: what
-- replay/engine.py then leaves undone.
use satay_runtime.Prelude.{
  ℕ, if◌then◌else◌, Option, ◌+◌, String, ◌≡◌, ◌≢◌, refl, ◌∙◌, ap, none, some, List, get_elem?, inl,
  inr, ==_refl, ==_ne, string_eq, Option-cases,
}
use satay_runtime.Prelude.Dict
use satay_runtime.Value.{null, Value, Items, Fields}
use satay_runtime.Errors.{ok, nondeterminism_error}
use satay_runtime.Config.{NondeterminismPolicy}
use satay_runtime.Journal.Events.{Event, RunStatus}
use satay_runtime.Journal.Store
use satay_runtime.Journal.Store.{journal}
use satay_runtime.Journal.Store.Rows.{IsNumbered}
use satay_runtime.Journal.Store.Cache.{IsCoherent, read_events-eq-journal}
use satay_runtime.Replay.Identity.{CallIdentity, identity_eq, ordinal_identity, counter, next}
use satay_runtime.Replay.Machine.{
  Env, Engine, Machine, TaskDefinition, Exec, pure, throw, returned, raised, ◌>>=◌, lift,
}
use satay_runtime.Replay.Engine.{
  durable_call, check_position, on_nondeterminism, resolve_call, miss,
}
use satay_runtime.Replay.Failures.{task_failure_error}
use satay_runtime.Prelude.Text.{◌<>◌}
use satay_runtime.Replay.Waits.{
  durable_wait_for_event, event_identity, take_event, wait_and_park, has_timed_out,
}
use satay_runtime.Replay.Drive.{Workflow, drive, resume, recorded_terminal_status}

-- The engine behind the next call of a task.
abbrev pub called : Engine → String → Engine
called g name = record g {
  resolver = Dict.put g.resolver name (counter g.resolver name + 1);
  call_index = g.call_index + 1;
}

abbrev pub upcoming : Engine → String → CallIdentity
upcoming g name = ordinal_identity name (counter g.resolver name)

-- The journal has this task's name, or nothing, where the call stands.
abbrev pub Agrees : Engine → String → Type 0
Agrees g name =
    (recorded : String) → get_elem? g.schedule_order g.call_index ≡ some recorded → recorded ≡ name

check_position-Agrees :
    (name : String) (m : Machine)
    → Agrees m.engine name
    → check_position name m ≡ (
      returned tt,
      record m { engine = record m.engine { call_index = m.engine.call_index + 1 } },
    )
unfolding check_position ◌>>=◌
check_position-Agrees name m agrees =
    elim (Option-cases (get_elem? m.engine.schedule_order m.engine.call_index)) [
      | inl unset ↦ rw unset refl
      | inr (recorded, set) ↦ rw (set, agrees recorded set, ==_refl name) refl
    ]

resolve_call-completed :
    (env : Env) (d : TaskDefinition) (i : CallIdentity) (args : Items) (kwargs : Fields)
    (m : Machine) (recorded : Value)
    → Dict.get m.engine.completed i ≡ some recorded
    → resolve_call env d i args kwargs m ≡ lift (env.rehydrate recorded d.returns) m
unfolding resolve_call ◌>>=◌
resolve_call-completed env d i args kwargs m recorded hit =
    ap
      (λ found.
        (elim found as (λ _. Exec Value) [
          | some v ↦ lift (env.rehydrate v d.returns)
          | none ↦ elim (Dict.get m.engine.failed i) as (λ _. Exec Value) [
            | some payload ↦ throw (task_failure_error payload)
            | none ↦ miss env d i args kwargs
          ]
        ])
          m)
      hit

resolve_call-failed :
    (env : Env) (d : TaskDefinition) (i : CallIdentity) (args : Items) (kwargs : Fields)
    (m : Machine) (payload : Fields)
    → Dict.get m.engine.completed i ≡ none
    → Dict.get m.engine.failed i ≡ some payload
    → resolve_call env d i args kwargs m ≡ (raised (task_failure_error payload), m)
unfolding resolve_call ◌>>=◌
resolve_call-failed env d i args kwargs m payload missing hit =
    ap
      (λ found.
        (elim found as (λ _. Exec Value) [
          | some v ↦ lift (env.rehydrate v d.returns)
          | none ↦ elim (Dict.get m.engine.failed i) as (λ _. Exec Value) [
            | some payload ↦ throw (task_failure_error payload)
            | none ↦ miss env d i args kwargs
          ]
        ])
          m)
      missing
    ∙ ap
        (λ found.
          (elim found as (λ _. Exec Value) [
            | some payload ↦ throw (task_failure_error payload)
            | none ↦ miss env d i args kwargs
          ])
            m)
        hit

-- Up to the resolution of its identity, a call that agrees with the journal only moves counters.
durable_call-Agrees :
    (env : Env) (d : TaskDefinition) (args : Items) (kwargs : Fields) (m : Machine)
    → Agrees m.engine d.name
    → durable_call env d args kwargs m
      ≡ resolve_call env d
          (upcoming m.engine d.name)
          args
          kwargs
          (record m { engine = called m.engine d.name })
unfolding durable_call next ◌>>=◌
durable_call-Agrees env d args kwargs m agrees =
    let n : Machine = record m {
      engine = record m.engine {
        resolver = Dict.put m.engine.resolver d.name (counter m.engine.resolver d.name + 1);
      };
    } in
    rw (check_position-Agrees d.name n agrees, durable_call) refl

-- A call that the loaded journal has as completed, and whose position does not disagree with it,
-- gives the rehydrated recorded result; no body runs, nothing is written, only the counters move.
pub durable_call-completed :
    (env : Env) (d : TaskDefinition) (args : Items) (kwargs : Fields) (m : Machine)
    (recorded : Value)
    → Agrees m.engine d.name
    → Dict.get m.engine.completed (upcoming m.engine d.name) ≡ some recorded
    → durable_call env d args kwargs m
      ≡ lift (env.rehydrate recorded d.returns) (record m { engine = called m.engine d.name })
durable_call-completed env d args kwargs m recorded agrees hit =
    durable_call-Agrees env d args kwargs m agrees
    ∙ resolve_call-completed env d (upcoming m.engine d.name) args kwargs
        (record m { engine = called m.engine d.name }) recorded hit

-- A call that the loaded journal has as failed and not as completed, and whose position does not
-- disagree with it, raises the recorded failure again; no body runs and nothing is written.
pub durable_call-failed :
    (env : Env) (d : TaskDefinition) (args : Items) (kwargs : Fields) (m : Machine)
    (payload : Fields)
    → Agrees m.engine d.name
    → Dict.get m.engine.completed (upcoming m.engine d.name) ≡ none
    → Dict.get m.engine.failed (upcoming m.engine d.name) ≡ some payload
    → durable_call env d args kwargs m
      ≡ (raised (task_failure_error payload), record m { engine = called m.engine d.name })
durable_call-failed env d args kwargs m payload agrees missing hit =
    durable_call-Agrees env d args kwargs m agrees
    ∙ resolve_call-failed env d (upcoming m.engine d.name) args kwargs
        (record m { engine = called m.engine d.name }) payload missing hit

-- Under the strict policy, a call of another task than the loaded journal has at its position is
-- refused with an error that names the position and both tasks; no body runs and nothing is written.
pub durable_call-diverged :
    (env : Env) (d : TaskDefinition) (args : Items) (kwargs : Fields) (m : Machine)
    (recorded : String)
    → m.engine.nondeterminism ≡ NondeterminismPolicy.strict
    → get_elem? m.engine.schedule_order m.engine.call_index ≡ some recorded
    → recorded ≢ d.name
    → durable_call env d args kwargs m ≡ (
      raised (nondeterminism_error m.engine.call_index recorded d.name),
      record m { engine = called m.engine d.name },
    )
unfolding durable_call next check_position on_nondeterminism ◌>>=◌
durable_call-diverged env d args kwargs m recorded strict set other =
    rw (set, ==_ne recorded d.name other, strict, check_position, on_nondeterminism) refl

-- From a store in order, driving a run whose journal has a terminal event appends nothing and runs
-- nothing; it only sets the status to that of the last terminal event.
pub drive-ended :
    (env : Env) (w : Workflow) (m : Machine) (es : List Event) (status : RunStatus)
    → IsNumbered m.store
    → IsCoherent m.store
    → journal m.store m.engine.run_id ≡ ok es
    → recorded_terminal_status es ≡ some status
    → drive env w m ≡ (
      returned tt,
      record m {
        store =
            Store.set_status (Store.read_events m.store m.engine.run_id).1 m.engine.run_id status;
      },
    )
unfolding drive resume ◌>>=◌
drive-ended env w m es status numbered coherent read ended =
    let reads = (read_events-eq-journal m.store m.engine.run_id numbered coherent).0 ∙ read in
    rw (reads, ended, resume) refl

-- The engine behind the next wait for an event of a type.
abbrev pub waited : Engine → String → Engine
waited g event_type = record g {
  primitive_resolver =
      Dict.put g.primitive_resolver ("event:" <> event_type)
        (counter g.primitive_resolver ("event:" <> event_type) + 1);
}

-- A wait whose identity the journal has an event for returns that event, whatever its type and key,
-- and consumes and writes nothing.
pub durable_wait_for_event-recorded :
    (env : Env) (event_type : String) (key : Option String) (timeout : Option ℕ)
    (annotation : String) (m : Machine) (recorded : Value)
    → Dict.get m.engine.events_received
        (event_identity (counter m.engine.primitive_resolver ("event:" <> event_type)))
      ≡ some recorded
    → durable_wait_for_event env event_type key timeout annotation m
      ≡ lift (env.rehydrate recorded annotation) (record m { engine = waited m.engine event_type })
unfolding durable_wait_for_event ◌>>=◌
durable_wait_for_event-recorded env event_type key timeout annotation m recorded hit =
    ap
      (λ found.
        (elim found as (λ _. Exec Value) [
          | some v ↦ lift (env.rehydrate v annotation)
          | none ↦
              if has_timed_out (
                Dict.get m.engine.timers_fired
                  (event_identity (counter m.engine.primitive_resolver ("event:" <> event_type))))
              then pure null
              else take_event env
                  (event_identity (counter m.engine.primitive_resolver ("event:" <> event_type)))
                  event_type key annotation
                  (wait_and_park env
                    (event_identity (counter m.engine.primitive_resolver ("event:" <> event_type)))
                    event_type key timeout)
        ])
          (record m { engine = waited m.engine event_type }))
      hit
