-- ===== src/Replay/Engine.antt =====
-- replay/engine.py: durable calls, sleeps and event waits against the journal, and the drive of a run.
-- A workflow body is the tree of the durable operations that it awaits: each continues with what the
-- operation returns or raises. Composites and child runs are not modelled here.
use satay_runtime.Prelude.{
  ℕ, ◌+◌, String, not, ◌||◌, none, some, get_elem?, ◌==◌, string_eq, nat_eq, if◌then◌else◌,
}
use satay_runtime.Prelude.Dict
use satay_runtime.Prelude.Dict.{member}
use satay_runtime.Value.{Value, Items, Fields, int, str, list, dict, end, field, merge}
use satay_runtime.Errors.{Exn, propagates, nondeterminism_error, effect_safety_error}
use satay_runtime.Config.{EffectSafety, NondeterminismPolicy}
use satay_runtime.Journal.Codec.{encode}
use satay_runtime.Journal.Events.{task_scheduled, task_failed}
use satay_runtime.Executor.{execute, record_event}
use satay_runtime.Replay.Identity.{
  CallIdentity, identity_eq, next, payload_fields, key_component, idempotency_key,
}
use satay_runtime.Replay.Failures.{task_failure_error}
use satay_runtime.Replay.Load.{number_at}
use satay_runtime.Replay.Machine.{
  Env, TaskDefinition, is_effect_guarded, Exec, returned, raised, parked, pure, throw, lift, ◌>>=◌,
  ◌>>◌, get_engine, set_engine, warn, diverged, unguarded_effect, unnameable_run,
}

-- `self._resolver.next(name)`
abbrev next_identity : String → Exec CallIdentity
next_identity name = do
  g ← get_engine
  let issued = next g.resolver name
  set_engine (record g { resolver = issued.1 })
  pure issued.0

-- `_on_nondeterminism`
unfoldable pub on_nondeterminism : ℕ → String → String → Exec (Unit {0})
on_nondeterminism position expected actual = do
  g ← get_engine
  elim g.nondeterminism [
    | NondeterminismPolicy.strict ↦ throw (nondeterminism_error position expected actual)
    | NondeterminismPolicy.warn ↦ warn (diverged position expected actual)
    | NondeterminismPolicy.off ↦ pure tt
  ]

-- The name issued at this position must be the one that the journal recorded there.
unfoldable pub check_position : String → Exec (Unit {0})
unfolding on_nondeterminism
check_position name = do
  g ← get_engine
  set_engine (record g { call_index = g.call_index + 1 })
  elim (get_elem? g.schedule_order g.call_index) [
    | none ↦ pure tt
    | some recorded ↦
        if recorded == name then pure tt else on_nondeterminism g.call_index recorded name
  ]

-- `_warn_unnameable_run`
unfoldable pub warn_unnameable_run : TaskDefinition → Exec (Unit {0})
warn_unnameable_run d = do
  g ← get_engine
  if g.run_is_nameable || member g.unnameable_warned d.name then pure tt else (do
    set_engine (record g { unnameable_warned = Dict.add g.unnameable_warned d.name })
    warn (unnameable_run d.name))

-- `_enforce_effect_safety`
unfoldable pub enforce_effect_safety : TaskDefinition → Exec (Unit {0})
unfolding warn_unnameable_run
enforce_effect_safety d = do
  g ← get_engine
  elim g.effect_safety [
    | EffectSafety.off ↦ pure tt
    | EffectSafety.warn ↦
        if not d.side_effect
        then pure tt
        else if is_effect_guarded d
        then warn_unnameable_run d
        else if nat_eq d.retries 0
        then pure tt
        else warn (unguarded_effect d.name)
    | EffectSafety.strict ↦
        if not d.side_effect
        then pure tt
        else if is_effect_guarded d
        then warn_unnameable_run d
        else if nat_eq d.retries 0
        then pure tt
        else throw (effect_safety_error d.name)
  ]

-- try: … except Exception as exc: …
abbrev pub catch : {A : Type 0} → Exec A → (Exn → Exec A) → Exec A
catch a handler m =
    let (r, m') = a m in
    elim r [ returned v ↦ (returned v, m') | raised e ↦ handler e m' | parked ↦ (parked, m') ]

module _ (env : Env) where
  -- The payload of a terminal TaskFailed.
  abbrev failure_payload : CallIdentity → Exn → Fields
  failure_payload i e =
      let text = env.describe e in
      merge (payload_fields i) (
        field "error"
          (dict (
            field "type" (str text.type)
              (field "message" (str text.message) (field "traceback" (str text.traceback) end))))
          end)

  -- The `except Exception` block of `_execute`.
  unfoldable pub on_failure : CallIdentity → Exn → Exec Value
  on_failure i e = do
    g ← get_engine
    if propagates e || not g.collecting then throw e else (do
      record_event g.run_id task_failed (failure_payload i e)
      g' ← get_engine
      set_engine (record g' { failed = Dict.put g'.failed i (failure_payload i e) })
      throw (task_failure_error (failure_payload i e)))

  -- `_execute`
  unfoldable pub execute_call : TaskDefinition → CallIdentity → Items → Fields → Exec Value
  unfolding on_failure
  execute_call d i args kwargs = do
    g ← get_engine
    catch
        (execute env g.run_id d i args kwargs
          (idempotency_key env.digest g.run_id i.task_name (key_component i))
          (number_at g.max_attempt i) (number_at g.failures i))
        (on_failure i)

  -- Append the TaskScheduled of a call, unless it is recorded.
  unfoldable pub schedule : CallIdentity → Items → Exec (Unit {0})
  schedule i args = do
    g ← get_engine
    if member g.scheduled i then pure tt else (do
      input ← lift (encode "$" (list args))
      record_event g.run_id task_scheduled (
          field "task_name" (str i.task_name)
            (field "ordinal" (int i.ordinal) (field "input_ref" input end)))
      g' ← get_engine
      set_engine (record g' { scheduled = Dict.add g'.scheduled i }))

  -- A call that the journal has no terminal record of.
  unfoldable pub miss : TaskDefinition → CallIdentity → Items → Fields → Exec Value
  unfolding enforce_effect_safety schedule execute_call
  miss d i args kwargs = do enforce_effect_safety d; schedule i args; execute_call d i args kwargs

  -- A call under its identity: reuse the recorded result, or raise the recorded failure, or run it.
  unfoldable pub resolve_call : TaskDefinition → CallIdentity → Items → Fields → Exec Value
  unfolding miss
  resolve_call d i args kwargs = do
    g ← get_engine
    elim (Dict.get g.completed i) [
      | some recorded ↦ lift (env.rehydrate recorded d.returns)
      | none ↦ elim (Dict.get g.failed i) [
        | some payload ↦ throw (task_failure_error payload)
        | none ↦ miss d i args kwargs
      ]
    ]

  -- `durable_call`
  unfoldable pub durable_call : TaskDefinition → Items → Fields → Exec Value
  unfolding check_position resolve_call
  durable_call d args kwargs = do
    i ← next_identity d.name
    check_position d.name
    resolve_call d i args kwargs
