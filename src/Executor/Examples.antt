-- ===== src/Executor/Examples.antt =====
-- The executor's bounds at concrete numbers.
use Prim.Native.Nat.{max}
use satay_runtime.Prelude.{ℕ, false, suc, ◌+◌, ◌≤◌, ◌≡◌, refl, arith, length, none, [], ◌∷◌, ◌-◌}
use satay_runtime.Prelude.Int.{pos}
use satay_runtime.Value.{nil, end, int}
use satay_runtime.Errors.{ok, raise, user_error, overflow_error}
use satay_runtime.Journal.Store.{empty}
use satay_runtime.Config.{EffectSafety, NondeterminismPolicy}
use satay_runtime.Replay.Identity.{ordinal_identity}
use satay_runtime.Replay.Machine.{Env, Machine, TaskDefinition, new_engine}
use satay_runtime.Executor.{attempts, execute, backoff_ceiling, backoff_cap}
use satay_runtime.Executor.Backoff.{backoff_ceiling_mono}
use satay_runtime.Executor.Retries.{execute-bounded}

-- From the 1025th failure on, the ceiling is an error of its own.
ceiling_overflows : backoff_ceiling 1025 ≡ raise (overflow_error "Numerical result out of range")
unfolding backoff_ceiling
ceiling_overflows = refl

ceiling_third : backoff_ceiling 3 ≡ ok 4000000
unfolding backoff_ceiling
ceiling_third = refl

backoff_ceiling_mono_example :
    (x : ℕ) × (y : ℕ) × (backoff_ceiling (suc 6) ≡ ok x)
    × (backoff_ceiling (suc 6 + 3) ≡ ok y)
    × (x ≤ y)
    × (y ≤ backoff_cap)
    × (6 ≤ 6 → x ≡ backoff_cap)
backoff_ceiling_mono_example = backoff_ceiling_mono 6 3 (omega arith)

abbrev pub world : Env
world = record {
  digest = λ s. s;
  uuid = λ n. "id";
  uniform = λ n bound. bound;
  describe = λ e. record { type = "E"; message = "m"; traceback = "t" };
  rehydrate = λ v t. ok v;
}

-- A task that fails twice and then returns 5.
abbrev pub flaky : TaskDefinition
flaky = record {
  name = "flaky";
  fn = λ c args kwargs done. record {
    result = elim done [
      | [] ↦ raise (user_error "E" "first")
      | x ∷ more ↦ elim more [ [] ↦ raise (user_error "E" "second") | y ∷ rest ↦ ok (int (pos 5)) ]
    ];
    usage = none;
    duration = 10;
  };
  retries = 2;
  timeout = none;
  side_effect = false;
  idempotent = false;
  returns = "int";
}

abbrev pub fresh : Machine
fresh = record {
  store = empty;
  injector = none;
  now = 0;
  uuids = 0;
  draws = 0;
  executions = [];
  warnings = [];
  engine = new_engine "r" EffectSafety.warn NondeterminismPolicy.strict;
}

execute-bounded_example :
    ((m : Machine)
      → length (execute world "r" flaky (ordinal_identity "flaky" 0) nil end "k" 1 1 m).1.executions
        ≤ length m.executions + max 1 (flaky.retries + 1 - 1))
    × ((fuel : ℕ)
        → flaky.retries + 1 ≤ fuel
        → attempts world "r" flaky (ordinal_identity "flaky" 0) nil end "k" fuel (1 + 1) 1
          ≡ execute world "r" flaky (ordinal_identity "flaky" 0) nil end "k" 1 1)
execute-bounded_example =
    execute-bounded world "r" flaky (ordinal_identity "flaky" 0) nil end "k" 1 1
