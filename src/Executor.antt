-- ===== src/Executor.antt =====
-- executor/__init__.py: one logical task run to a durable result, with retries, backoff and timeout.
-- Durations and delays are in microseconds.
pub mod Examples
pub mod Backoff
pub mod Bodies
pub mod Retries
use Prim.Native.Nat.{◌^◌, min}
use satay_runtime.Prelude.{
  ℕ, zero, suc, ◌+◌, ◌-◌, ◌*◌, String, Bool, true, false, Option, none, some, List, [], ◌∷◌, ◌++◌,
  ltb, leb, if◌then◌else◌,
}
use satay_runtime.Prelude.Int.{pos}
use satay_runtime.Value.{Value, Items, Fields, null, int, float, str, dict, end, field, merge}
use satay_runtime.Errors.{
  Exn, Result, ok, raise, simulated_crash, value_error, overflow_error, timeout_error,
  runtime_error,
}
use satay_runtime.Journal.Codec.{encode}
use satay_runtime.Journal.Events.{
  EventType, new_event, task_attempt_started, task_attempt_failed, task_completed,
}
use satay_runtime.Replay.Identity.{CallIdentity, payload_fields}
use satay_runtime.Replay.Machine.{
  Env, Machine, TaskContext, TaskDefinition, Attempt, Execution, Exec, Outcome, returned, raised,
  pure, throw, lift, ◌>>=◌, ◌>>◌, commit,
}

-- BACKOFF_BASE_SECONDS, BACKOFF_CAP_SECONDS
abbrev pub backoff_base : ℕ
backoff_base = 1000000

abbrev pub backoff_cap : ℕ
backoff_cap = 60000000

-- `min(cap, base * 2.0 ** (failure - 1))`. The power is a float: from 2.0 ** 1024 on Python raises
-- OverflowError.
unfoldable pub backoff_ceiling : ℕ → Result ℕ
backoff_ceiling failure =
    if ltb failure 1
    then raise (value_error "failure index is 1-based")
    else if leb 1024 (failure - 1)
    then raise (overflow_error "Numerical result out of range")
    else ok (min backoff_cap (backoff_base * 2 ^ (failure - 1)))

abbrev pub draw : Env → ℕ → Exec ℕ
draw env bound m = (returned (env.uniform m.draws bound), record m { draws = m.draws + 1 })

unfoldable pub backoff_delay : Env → ℕ → Exec ℕ
unfolding backoff_ceiling
backoff_delay env failure = do bound ← lift (backoff_ceiling failure); draw env bound

-- `_run_attempt`: the body runs in the outside world; past its timeout it is cancelled. A body that
-- ends exactly at the timeout counts as done.
unfoldable pub run_attempt :
    TaskDefinition → TaskContext → Items → Fields → Machine → Attempt × Machine
run_attempt d ctx args kwargs m =
    let a = d.fn ctx args kwargs m.executions in
    let after = record m {
      executions = m.executions ++ record { context = ctx; args = args; kwargs = kwargs } ∷ [];
    } in
    elim d.timeout [
      | none ↦ (a, record after { now = m.now + a.duration })
      | some limit ↦
          if leb a.duration limit then (a, record after { now = m.now + a.duration }) else (
            record a { result = raise (timeout_error d.name) },
            record after { now = m.now + limit },
          )
    ]

-- `if usage: payload["usage"] = usage`
abbrev pub usage_field : Option Value → Fields
usage_field none = end
usage_field (some u) = field "usage" u end

abbrev delay_value : Option ℕ → Value
delay_value none = null
delay_value (some n) = float (pos n)

-- `_error_payload`
abbrev error_payload : Env → Exn → Value
error_payload env e =
    dict (
      field "type" (str (env.describe e).type) (field "message" (str (env.describe e).message) end))

-- clock.sleep
abbrev pub sleep_for : ℕ → Exec (Unit {0})
sleep_for n m = (returned tt, record m { now = m.now + n })

-- Append an event that is stamped with the clock's time.
abbrev pub record_event : String → EventType → Fields → Exec (Unit {0})
record_event run_id type payload m = commit (new_event run_id type payload m.now) m

-- isinstance(exc, SimulatedCrash)
abbrev pub is_crash : Exn → Bool
is_crash (simulated_crash t) = true
is_crash _ = false

module _ (env : Env) (run_id : String) (d : TaskDefinition) (i : CallIdentity) (args : Items)
    (kwargs : Fields) (key : String) where
  abbrev pub context_of : ℕ → TaskContext
  context_of attempt = record {
    run_id = run_id;
    task_name = i.task_name;
    ordinal = i.ordinal;
    attempt = attempt;
    idempotency_key = key;
  }

  abbrev pub started : ℕ → Exec (Unit {0})
  started attempt =
      record_event run_id task_attempt_started
        (merge (payload_fields i) (field "attempt" (int (pos attempt)) end))

  -- The `except Exception` block up to its end: the delay before the next attempt, if there is one.
  abbrev pub failed_attempt : ℕ → ℕ → Attempt → Exn → Exec (Option ℕ)
  failed_attempt attempt failures a e = do
    delay ←
        (if ltb failures (d.retries + 1)
          then (do n ← backoff_delay env failures; pure (some n))
          else pure none)
    record_event run_id task_attempt_failed (
        merge (payload_fields i) (
          field "attempt" (int (pos attempt)) (
            field "error" (error_payload env e)
              (field "next_delay" (delay_value delay) (usage_field a.usage)))))
    pure delay

  abbrev pub completed : Attempt → Value → Exec Value
  completed a v = do
    output ← lift (encode "$" v)
    record_event run_id task_completed
        (merge (payload_fields i) (field "output_ref" output (usage_field a.usage)))
    pure v

  -- The `while True` loop: `attempt` and `failures` are its variables.
  unfoldable pub attempts : ℕ → ℕ → ℕ → Exec Value
  unfolding run_attempt backoff_delay
  attempts zero attempt failures = throw (runtime_error "out of fuel")
  attempts (suc fuel) attempt failures = do
    started attempt
    a ← (λ m. let (a, m') = run_attempt d (context_of attempt) args kwargs m in (returned a, m'))
    elim a.result [
      | ok v ↦ completed a v
      | raise e ↦ if is_crash e then throw e else (do
        delay ← failed_attempt attempt (failures + 1) a e
        elim delay [
          | none ↦ throw e
          | some n ↦ do sleep_for n; attempts fuel (attempt + 1) (failures + 1)
        ])
    ]

  -- `LocalTaskExecutor.execute`: each round is a failure more, and the last one has no retry left.
  unfoldable pub execute : ℕ → ℕ → Exec Value
  unfolding attempts
  execute prior_attempts prior_failures =
      attempts (d.retries + 1) (prior_attempts + 1) prior_failures
