-- ===== src/Replay/Growth/Calls.antt =====
-- A durable call, with all the attempts of its task, only adds events of its run to the journal.
use satay_runtime.Prelude.{ℕ, zero, suc, ◌+◌, String, ◌≡◌, refl, ltb, not, ◌||◌, arith}
use satay_runtime.Prelude.Dict
use satay_runtime.Prelude.Dict.{member}
use satay_runtime.Journal.Events.{
  task_scheduled, task_failed, task_attempt_started, task_attempt_failed, task_completed,
}
use satay_runtime.Value.{Value, Items, Fields}
use satay_runtime.Errors.{Exn, propagates}
use satay_runtime.Executor.{
  run_attempt, backoff_delay, attempts, execute, failed_attempt, completed, is_crash,
}
use satay_runtime.Replay.Identity.{identity_eq, CallIdentity}
use satay_runtime.Replay.Machine.{
  Env, Machine, Exec, TaskDefinition, TaskContext, Attempt, Outcome, returned, raised, parked,
  ◌>>=◌,
}
use satay_runtime.Replay.Growth.{
  Grows, Grows-trans, Keeps-result, Keeps, Keeps-still, Keeps-lift, Keeps-if, Keeps-pure,
  Keeps-throw, Keeps-set, Keeps-engine, Keeps-option, Keeps-bind, Keeps-record,
}
use satay_runtime.Replay.Engine.{
  on_nondeterminism, check_position, warn_unnameable_run, enforce_effect_safety, on_failure, catch,
  execute_call, schedule, miss, resolve_call, durable_call,
}

module _ {run : String} where
  check_position-Keeps : (name : String) → Keeps run (check_position name)
  unfolding check_position on_nondeterminism ◌>>=◌
  check_position-Keeps name =
      Keeps-still (check_position name)
        (λ m. (ground arith, ground arith, ground arith, ground arith))

  warn_unnameable_run-Keeps : (d : TaskDefinition) → Keeps run (warn_unnameable_run d)
  unfolding warn_unnameable_run ◌>>=◌
  warn_unnameable_run-Keeps d =
      Keeps-still (warn_unnameable_run d)
        (λ m. (ground arith, ground arith, ground arith, ground arith))

  enforce_effect_safety-Keeps : (d : TaskDefinition) → Keeps run (enforce_effect_safety d)
  unfolding enforce_effect_safety warn_unnameable_run ◌>>=◌
  enforce_effect_safety-Keeps d =
      Keeps-still (enforce_effect_safety d)
        (λ m. (ground arith, ground arith, ground arith, ground arith))

  schedule-Keeps : (env : Env) (i : CallIdentity) (args : Items) → Keeps run (schedule env i args)
  unfolding schedule
  schedule-Keeps env i args = Keeps-engine _ (λ g own.
      Keeps-if (member g.scheduled i) _ _ (Keeps-pure tt) (
        Keeps-bind _ _ (Keeps-lift _) (λ input.
          Keeps-bind _ _ (Keeps-record task_scheduled _ refl own)
            (λ v. Keeps-engine _ (λ g' own'. Keeps-set _ own')))))

  on_failure-Keeps : (env : Env) (i : CallIdentity) (e : Exn) → Keeps run (on_failure env i e)
  unfolding on_failure
  on_failure-Keeps env i e = Keeps-engine _ (λ g own.
      Keeps-if (propagates e || not g.collecting) _ _ (Keeps-throw e) (
        Keeps-bind _ _ (Keeps-record task_failed _ refl own) (λ v.
          Keeps-engine _ (λ g' own'. Keeps-bind _ _ (Keeps-set _ own') (λ w. Keeps-throw _)))))

  failed_attempt-Keeps :
      (env : Env) (own : String) (d : TaskDefinition) (i : CallIdentity) (args : Items)
      (kwargs : Fields) (key : String) (attempt failures : ℕ) (a : Attempt) (e : Exn)
      → own ≡ run
      → Keeps run (failed_attempt env own d i args kwargs key attempt failures a e)
  unfolding backoff_delay
  failed_attempt-Keeps env own d i args kwargs key attempt failures a e same =
      Keeps-bind _ _
        (Keeps-if (ltb failures (d.retries + 1)) _ _
          (Keeps-bind _ _
            (Keeps-bind _ _ (Keeps-lift _) (λ bound. Keeps-still _ (λ m. (refl, refl, refl, refl))))
            (λ n. Keeps-pure _))
          (Keeps-pure _))
        (λ delay. Keeps-bind _ _ (Keeps-record task_attempt_failed _ refl same) (λ v. Keeps-pure _))

  run_attempt-Keeps :
      (d : TaskDefinition) (c : TaskContext) (args : Items) (kwargs : Fields)
      → Keeps run (λ m. let (a, m') = run_attempt d c args kwargs m in (returned a, m'))
  unfolding run_attempt
  run_attempt-Keeps d c args kwargs =
      Keeps-still _ (λ m. (ground arith, ground arith, ground arith, ground arith))

  module _ {A : Type 0} where
    catch-Grows :
        (r : Outcome A) (f : Exn → Exec A) {m n : Machine}
        → ((e : Exn) → Keeps run (f e))
        → Grows run m n
        → Grows run m
            (elim r as (λ _. Outcome A × Machine) [
              | returned v ↦ (returned v, n)
              | raised e ↦ f e n
              | parked ↦ (parked, n)
            ]).1
    catch-Grows (returned v) f k h = h
    catch-Grows (raised e) f {m} {n} k h = Grows-trans h ((k e).at n h.run_id)
    catch-Grows parked f k h = h

    Keeps-catch :
        (a : Exec A) (f : Exn → Exec A)
        → Keeps run a
        → ((e : Exn) → Keeps run (f e))
        → Keeps run (catch a f)
    Keeps-catch a f ha k = record { at = λ m h. catch-Grows (a m).0 f k (ha.at m h) }

  module _ (env : Env) (own : String) (d : TaskDefinition) (i : CallIdentity) (args : Items)
      (kwargs : Fields) (key : String) (same : own ≡ run) where
    completed-Keeps :
        (a : Attempt) (v : Value) → Keeps run (completed env own d i args kwargs key a v)
    completed-Keeps a v =
        Keeps-bind _ _ (Keeps-lift _)
          (λ output. Keeps-bind _ _ (Keeps-record task_completed _ refl same) (λ w. Keeps-pure v))

    attempts-Keeps :
        (fuel attempt failures : ℕ)
        → Keeps run (attempts env own d i args kwargs key fuel attempt failures)
    unfolding attempts
    attempts-Keeps zero attempt failures = Keeps-throw _
    attempts-Keeps (suc fuel) attempt failures =
        Keeps-bind _ _ (Keeps-record task_attempt_started _ refl same) (λ v.
          Keeps-bind _ _ (run_attempt-Keeps d _ args kwargs) (λ a.
            Keeps-result a.result _ _ (λ v. completed-Keeps a v)
              (λ e. Keeps-if (is_crash e) _ _ (Keeps-throw e) (
                Keeps-bind _ _
                  (failed_attempt-Keeps env own d i args kwargs key attempt (failures + 1) a e same)
                  (λ delay. Keeps-option delay _ _ (Keeps-throw e) (λ n.
                    Keeps-bind _ _ (Keeps-still _ (λ m. (refl, refl, refl, refl)))
                      (λ w. attempts-Keeps fuel (attempt + 1) (failures + 1))))))))

  execute_call-Keeps :
      (env : Env) (d : TaskDefinition) (i : CallIdentity) (args : Items) (kwargs : Fields)
      → Keeps run (execute_call env d i args kwargs)
  unfolding execute_call execute
  execute_call-Keeps env d i args kwargs = Keeps-engine _ (λ g own.
      Keeps-catch _ _ (attempts-Keeps env g.run_id d i args kwargs _ own _ _ _)
        (on_failure-Keeps env i))

  miss-Keeps :
      (env : Env) (d : TaskDefinition) (i : CallIdentity) (args : Items) (kwargs : Fields)
      → Keeps run (miss env d i args kwargs)
  unfolding miss
  miss-Keeps env d i args kwargs = Keeps-bind _ _ (enforce_effect_safety-Keeps d) (λ v.
      Keeps-bind _ _ (schedule-Keeps env i args) (λ w. execute_call-Keeps env d i args kwargs))

  resolve_call-Keeps :
      (env : Env) (d : TaskDefinition) (i : CallIdentity) (args : Items) (kwargs : Fields)
      → Keeps run (resolve_call env d i args kwargs)
  unfolding resolve_call
  resolve_call-Keeps env d i args kwargs = Keeps-engine _ (λ g own.
      Keeps-option (Dict.get g.completed i) _ _
        (Keeps-option (Dict.get g.failed i) _ _ (miss-Keeps env d i args kwargs)
          (λ payload. Keeps-throw _))
        (λ recorded. Keeps-lift _))

  pub durable_call-Keeps :
      (env : Env) (d : TaskDefinition) (args : Items) (kwargs : Fields)
      → Keeps run (durable_call env d args kwargs)
  unfolding durable_call
  durable_call-Keeps env d args kwargs =
      Keeps-bind _ _
        (Keeps-engine _ (λ g own. Keeps-bind _ _ (Keeps-set _ own) (λ v. Keeps-pure _)))
        (λ i.
          Keeps-bind _ _ (check_position-Keeps d.name)
            (λ v. resolve_call-Keeps env d i args kwargs))
