-- ===== src/Executor/Bodies.antt =====
-- How many task bodies an action of executor/__init__.py runs at most, by the way it is composed.
use satay_runtime.Prelude.{
  ℕ, ◌+◌, ◌≤◌, String, ◌≡◌, refl, ap, Bool, true, false, [], ◌∷◌, ◌++◌, arith, if◌then◌else◌,
  length, length-append,
}
use satay_runtime.Value.{Items, Fields}
use satay_runtime.Errors.{Result, ok, raise}
use satay_runtime.Journal.Events.{EventType}
use satay_runtime.Replay.Machine.{
  Env, Machine, Exec, TaskDefinition, TaskContext, Execution, Outcome, returned, raised, parked,
  ◌>>=◌, continue, lift, commit, reached, appended,
}
use satay_runtime.Executor.{record_event, run_attempt, backoff_delay}

-- An action runs at most k task bodies.
pub record Runs {A : Type 0} (k : ℕ) (a : Exec A) : Type 0 where
  pub at : (m : Machine) → length (a m).1.executions ≤ length m.executions + k

module _ {A : Type 0} where
  pub Runs-none : (a : Exec A) → ((m : Machine) → (a m).1.executions ≡ m.executions) → Runs 0 a
  Runs-none a same = record { at = λ m. rw (same m) (omega arith) }

  pub Runs-more : (j k : ℕ) (a : Exec A) → j ≤ k → Runs j a → Runs k a
  Runs-more j k a le h = record { at = λ m. omega (arith, h.at m) }

  pub Runs-lift : (r : Result A) → Runs 0 (lift r)
  Runs-lift (ok v) = Runs-none _ (λ m. refl)
  Runs-lift (raise x) = Runs-none _ (λ m. refl)

  pub Runs-if :
      (k : ℕ) (b : Bool) (x y : Exec A) → Runs k x → Runs k y → Runs k (if b then x else y)
  Runs-if k true x y hx hy = hx
  Runs-if k false x y hx hy = hy

module _ {A B : Type 0} where
  continue-Runs :
      (j k : ℕ) (r : Outcome A) (f : A → Exec B) (m n : Machine)
      → ((v : A) → Runs k (f v))
      → length n.executions ≤ length m.executions + j
      → length (continue r f n).1.executions ≤ length m.executions + (j + k)
  continue-Runs j k (returned v) f m n h le = omega (arith, (h v).at n)
  continue-Runs j k (raised x) f m n h le = omega arith
  continue-Runs j k parked f m n h le = omega arith

  pub Runs-bind :
      (j k l : ℕ) (a : Exec A) (f : A → Exec B)
      → j + k ≡ l
      → Runs j a
      → ((v : A) → Runs k (f v))
      → Runs l (a >>= f)
  unfolding ◌>>=◌
  Runs-bind j k l a f sum ha h = record {
    at = λ m. omega (arith, sum, continue-Runs j k (a m).0 f m (a m).1 h (ha.at m));
  }

  pub Runs-after :
      (k : ℕ) (a : Exec A) (f : A → Exec B) → Runs 0 a → ((v : A) → Runs k (f v)) → Runs k (a >>= f)
  Runs-after k a f ha h = Runs-bind 0 k k a f (omega arith) ha h

pub Runs-record : (own : String) (t : EventType) (d : Fields) → Runs 0 (record_event own t d)
unfolding commit appended reached
Runs-record own t d = Runs-none _ (λ m. ground arith)

pub Runs-attempt :
    (d : TaskDefinition) (c : TaskContext) (args : Items) (kwargs : Fields)
    → Runs 1 (λ m. let (a, m') = run_attempt d c args kwargs m in (returned a, m'))
unfolding run_attempt
Runs-attempt d c args kwargs = record {
  at = λ m.
      let x : Execution = record { context = c; args = args; kwargs = kwargs } in
      let grown : (run_attempt d c args kwargs m).1.executions ≡ m.executions ++ x ∷ [] =
        ground arith in
      omega (arith, ap length grown, length-append m.executions (x ∷ []));
}

pub Runs-backoff : (env : Env) (failure : ℕ) → Runs 0 (backoff_delay env failure)
unfolding backoff_delay
Runs-backoff env failure = Runs-after 0 _ _ (Runs-lift _) (λ bound. Runs-none _ (λ m. refl))
