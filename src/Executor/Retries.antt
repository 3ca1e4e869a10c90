-- ===== src/Executor/Retries.antt =====
-- The retry loop of executor/__init__.py: how often the body runs, and that the loop ends.
use Prim.Native.Nat.{max}
use satay_runtime.Prelude.{
  ℕ, zero, suc, ◌+◌, ◌-◌, ◌≤◌, ◌<◌, String, ◌≡◌, refl, ap, false, none, some, Option, arith,
  fun_ext, inl, inr, if◌then◌else◌, length, ltb, Bool-cases,
}
use satay_runtime.Value.{Value, Items, Fields}
use satay_runtime.Errors.{Exn, ok, raise}
use satay_runtime.Replay.Identity.{CallIdentity}
use satay_runtime.Replay.Machine.{
  Env, Machine, Exec, TaskDefinition, Attempt, Outcome, returned, raised, parked, ◌>>=◌, ◌>>◌,
  continue, pure, throw,
}
use satay_runtime.Executor.{
  run_attempt, attempts, execute, failed_attempt, completed, is_crash, started, sleep_for,
  context_of,
}
use satay_runtime.Executor.Bodies.{
  Runs, Runs-none, Runs-more, Runs-lift, Runs-if, Runs-bind, Runs-after, Runs-record, Runs-attempt,
  Runs-backoff,
}

-- Without a delay there is no next round.
module _ (rest rest' : Exec Value) (e : Exn) where
  continue-last :
      (r : Outcome (Unit {0})) (n : Machine)
      → (let stopped : Outcome (Option ℕ) × Machine = continue r (λ _. pure none) n in
          continue stopped.0
            (λ delay. elim delay as (λ _. Exec Value) [
              | none ↦ throw e
              | some n ↦ do sleep_for n; rest
            ])
            stopped.1
          ≡ continue stopped.0
              (λ delay. elim delay as (λ _. Exec Value) [
                | none ↦ throw e
                | some n ↦ do sleep_for n; rest'
              ])
              stopped.1)
  continue-last (returned v) n = refl
  continue-last (raised x) n = refl
  continue-last parked n = refl

module _ (env : Env) (own : String) (d : TaskDefinition) (i : CallIdentity) (args : Items)
    (kwargs : Fields) (key : String) where
  Runs-failed :
      (attempt failures : ℕ) (a : Attempt) (e : Exn)
      → Runs 0 (failed_attempt env own d i args kwargs key attempt failures a e)
  Runs-failed attempt failures a e =
      Runs-after 0 _ _
        (Runs-if 0 (ltb failures (d.retries + 1)) _ _
          (Runs-after 0 _ _ (Runs-backoff env failures) (λ n. Runs-none _ (λ m. refl)))
          (Runs-none _ (λ m. refl)))
        (λ delay. Runs-after 0 _ _ (Runs-record own _ _) (λ v. Runs-none _ (λ m. refl)))

  Runs-completed : (a : Attempt) (v : Value) → Runs 0 (completed env own d i args kwargs key a v)
  Runs-completed a v =
      Runs-after 0 _ _ (Runs-lift _)
        (λ output. Runs-after 0 _ _ (Runs-record own _ _) (λ w. Runs-none _ (λ m. refl)))

  -- What the loop does behind a failure that is no crash, before it starts over.
  abbrev again : Exec Value → ℕ → ℕ → Attempt → Exn → Exec Value
  again rest attempt failures a e = do
    delay ← failed_attempt env own d i args kwargs key attempt (failures + 1) a e
    elim delay [ none ↦ throw e | some n ↦ do sleep_for n; rest ]

  -- Without a retry left, the loop does not start over.
  again_last :
      (rest rest' : Exec Value) (attempt failures : ℕ) (a : Attempt) (e : Exn)
      → ltb (failures + 1) (d.retries + 1) ≡ false
      → again rest attempt failures a e ≡ again rest' attempt failures a e
  unfolding ◌>>=◌
  again_last rest rest' attempt failures a e last =
      fun_ext (λ m. rw last (continue-last rest rest' e _ _))

  Runs-again :
      (k : ℕ) (rest : Exec Value) (attempt failures : ℕ) (a : Attempt) (e : Exn)
      → Runs k rest
      → Runs k (again rest attempt failures a e)
  Runs-again k rest attempt failures a e h =
      Runs-after k _ _ (Runs-failed attempt (failures + 1) a e) (λ delay.
        elim delay
          as (λ delay.
            Runs k (elim delay as (λ _. Exec Value) [
              | none ↦ throw e
              | some n ↦ do sleep_for n; rest
            ])) [
              | none ↦ Runs-more 0 k _ (omega arith) (Runs-none _ (λ m. refl))
              | some n ↦ Runs-after k _ _ (Runs-none _ (λ m. refl)) (λ v. h)
            ])

  -- The bodies that are run behind a failure.
  Runs-retry :
      (rest : Exec Value) (attempt failures : ℕ) (a : Attempt) (e : Exn)
      → Runs (max 1 (d.retries - failures)) rest
      → Runs (max 1 (d.retries + 1 - failures) - 1) (again rest attempt failures a e)
  Runs-retry rest attempt failures a e h = elim (Bool-cases (ltb (failures + 1) (d.retries + 1))) [
    | inl more ↦ Runs-more _ _ _ (ground arith) (Runs-again _ rest attempt failures a e h)
    | inr last ↦ rw (again_last rest (throw e) attempt failures a e last) (
        Runs-more 0 _ _ (omega arith)
          (Runs-again 0 (throw e) attempt failures a e (Runs-none _ (λ m. refl))))
  ]

  attempts-Runs :
      (fuel attempt failures : ℕ)
      → Runs
          (max 1 (d.retries + 1 - failures))
          (attempts env own d i args kwargs key fuel attempt failures)
  unfolding attempts
  attempts-Runs zero attempt failures = Runs-more 0 _ _ (omega arith) (Runs-none _ (λ m. refl))
  attempts-Runs (suc fuel) attempt failures =
      let rest = attempts env own d i args kwargs key fuel (attempt + 1) (failures + 1) in
      let again_runs : Runs (max 1 (d.retries - failures)) rest =
        Runs-more _ _ _ (omega arith) (attempts-Runs fuel (attempt + 1) (failures + 1)) in
      Runs-after _ _ _ (Runs-record own _ _) (λ v.
        Runs-bind 1 (max 1 (d.retries + 1 - failures) - 1) _ _ _ (omega arith)
          (Runs-attempt d _ args kwargs)
          (λ a.
            elim a.result
              as (λ r. Runs (max 1 (d.retries + 1 - failures) - 1) (elim r as (λ _. Exec Value) [
                | ok v ↦ completed env own d i args kwargs key a v
                | raise e ↦ if is_crash e then throw e else again rest attempt failures a e
              ])) [
                | ok v ↦ Runs-more 0 _ _ (omega arith) (Runs-completed a v)
                | raise e ↦
                    Runs-if _ (is_crash e) _ _
                      (Runs-more 0 _ _ (omega arith) (Runs-none _ (λ m. refl)))
                      (Runs-retry rest attempt failures a e again_runs)
              ]))

  -- One round of the loop, with what follows a failure that is retried.
  abbrev round : Exec Value → ℕ → ℕ → Exec Value
  round rest attempt failures = do
    started env own d i args kwargs key attempt
    a ← (λ m.
        let (a, m') =
          run_attempt d (context_of env own d i args kwargs key attempt) args kwargs m in
        (returned a, m'))
    elim a.result [
      | ok v ↦ completed env own d i args kwargs key a v
      | raise e ↦ if is_crash e then throw e else again rest attempt failures a e
    ]

  round_last :
      (rest rest' : Exec Value) (attempt failures : ℕ)
      → ltb (failures + 1) (d.retries + 1) ≡ false
      → round rest attempt failures ≡ round rest' attempt failures
  round_last rest rest' attempt failures last =
      let branch = λ (rest : Exec Value) (a : Attempt). elim a.result as (λ _. Exec Value) [
        | ok v ↦ completed env own d i args kwargs key a v
        | raise e ↦ if is_crash e then throw e else again rest attempt failures a e
      ] in
      let same : branch rest ≡ branch rest' = fun_ext (λ a.
        elim a.result
          as (λ r.
            (elim r as (λ _. Exec Value) [
              | ok v ↦ completed env own d i args kwargs key a v
              | raise e ↦ if is_crash e then throw e else again rest attempt failures a e
            ])
            ≡ (elim r as (λ _. Exec Value) [
              | ok v ↦ completed env own d i args kwargs key a v
              | raise e ↦ if is_crash e then throw e else again rest' attempt failures a e
            ])) [
              | ok v ↦ refl
              | raise e ↦
                  ap (λ x. if is_crash e then throw e else x)
                    (again_last rest rest' attempt failures a e last)
            ]) in
      ap
        (λ (f : Attempt → Exec Value). do
          started env own d i args kwargs key attempt
          a ← (λ m.
              let (a, m') =
                run_attempt d (context_of env own d i args kwargs key attempt) args kwargs m in
              (returned a, m'))
          f a)
        same

  attempts-enough :
      (f g attempt failures : ℕ)
      → max 1 (d.retries + 1 - failures) ≤ f
      → max 1 (d.retries + 1 - failures) ≤ g
      → attempts env own d i args kwargs key f attempt failures
        ≡ attempts env own d i args kwargs key g attempt failures
  unfolding attempts
  attempts-enough zero g attempt failures hf hg = absurd (omega arith)
  attempts-enough (suc f) zero attempt failures hf hg = absurd (omega arith)
  attempts-enough (suc f) (suc g) attempt failures hf hg =
      elim (Bool-cases (ltb (failures + 1) (d.retries + 1))) [
        | inl more ↦
            let left : failures < d.retries = ground arith in
            ap (λ rest. round rest attempt failures)
              (attempts-enough f g (attempt + 1) (failures + 1) (omega arith) (omega arith))
        | inr last ↦
            round_last (attempts env own d i args kwargs key f (attempt + 1) (failures + 1))
              (attempts env own d i args kwargs key g (attempt + 1) (failures + 1)) attempt failures
              last
      ]

-- execute runs the body at most max(1, retries + 1 - prior failures) times, and its rounds are
-- enough: a loop that is given more of them does the same.
pub execute-bounded :
    (env : Env) (own : String) (d : TaskDefinition) (i : CallIdentity) (args : Items)
    (kwargs : Fields) (key : String) (prior_attempts failures : ℕ)
    → ((m : Machine)
        → length (execute env own d i args kwargs key prior_attempts failures m).1.executions
          ≤ length m.executions + max 1 (d.retries + 1 - failures))
      × ((fuel : ℕ)
          → d.retries + 1 ≤ fuel
          → attempts env own d i args kwargs key fuel (prior_attempts + 1) failures
            ≡ execute env own d i args kwargs key prior_attempts failures)
unfolding execute
execute-bounded env own d i args kwargs key prior_attempts failures = (
  (attempts-Runs env own d i args kwargs key (d.retries + 1) (prior_attempts + 1) failures).at,
  λ fuel le.
      attempts-enough env own d i args kwargs key fuel (d.retries + 1) (prior_attempts + 1) failures
        (omega arith) (omega arith),
)
