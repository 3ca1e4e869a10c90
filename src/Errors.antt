-- ===== src/Errors.antt =====
-- The exceptions of the runtime and of user code, and computations that may raise one.
use satay_runtime.Prelude.{ℕ, String, ◌≡◌, refl, ◌⊎◌, inl, inr, Bool, true, false, Option}
use satay_runtime.Prelude.Int.{ℤ}
use satay_runtime.Value.{Value}

-- replay/failures.py, TaskFailedError: the attributes that its constructor sets
pub record TaskFailure : Type 0 where
  pub task_name : Value
  pub error_type : Value
  pub error_message : Value
  pub traceback_str : Value
  pub key : Value
  pub ordinal : Option ℤ

pub data Exn : Type 0 where
  -- testing/faults.py: the event type whose commit the crash follows
  simulated_crash : String → Exn
  -- replay/nondeterminism.py: position, expected and actual call; the task's name
  nondeterminism_error : ℕ → String → String → Exn
  effect_safety_error : String → Exn
  task_failed_error : TaskFailure → Exn
  -- api/run_handle.py: error type, message, traceback
  workflow_failed_error : String → String → String → Exn
  -- versioning: the stamped and the current version
  version_mismatch_error : String → String → Exn
  encode_error decode_error value_error overflow_error key_error lookup_error type_error
        runtime_error :
      String → Exn
  timeout_error : String → Exn
  -- journal/wire.py
  shipment_format_error : String → Exn
  -- blobs/__init__.py; and what reading a file raises that is not there
  blob_resolution_error file_not_found_error : String → Exn
  -- control/commands.py
  fork_validation_error unknown_workflow_error : String → Exn
  -- an exception of user code: its class, its text
  user_error : String → String → Exn

pub data Result {ℓ} (A : Type ℓ) : Type ℓ where
  ok : A → Result A
  raise : Exn → Result A

infixl 5 ◌>>=◌
abbrev pub ◌>>=◌ {ℓ μ} : {A : Type ℓ} {B : Type μ} → Result A → (A → Result B) → Result B
ok v >>= next = next v
raise x >>= next = raise x

-- `isinstance(exc, _PROPAGATE)` of replay/engine.py: an out-of-band stop, never recorded
unfoldable pub propagates : Exn → Bool
propagates (simulated_crash t) = true
propagates (nondeterminism_error p e a) = true
propagates (effect_safety_error n) = true
propagates _ = false

pub Result-cases {ℓ} :
    {A : Type ℓ} (r : Result A) → ((a : A) × (r ≡ ok a)) ⊎ ((e : Exn) × (r ≡ raise e))
Result-cases (ok a) = inl (a, refl)
Result-cases (raise e) = inr (e, refl)

-- Inversion of a bind that returned.
pub >>=-eq-ok {ℓ μ} :
    {A : Type ℓ} {B : Type μ} (r : Result A) (next : A → Result B) {w : B}
    → (r >>= next) ≡ ok w
    → (v : A) × (r ≡ ok v) × (next v ≡ ok w)
>>=-eq-ok (ok v) next done = (v, refl, done)
>>=-eq-ok (raise x) next done = cc

-- What a computation returns, if it returns.
abbrev pub Ensures {ℓ κ} : {A : Type ℓ} → (A → Type κ) → Result A → Type κ
Ensures P (ok a) = P a
Ensures P (raise e) = Unit

pub Ensures-bind {ℓ κ μ ν} :
    {A : Type ℓ} {B : Type κ} (P : A → Type μ) (Q : B → Type ν) (m : Result A) (f : A → Result B)
    → Ensures P m
    → ((a : A) → P a → Ensures Q (f a))
    → Ensures Q (m >>= f)
Ensures-bind P Q (ok a) f h k = k a h
Ensures-bind P Q (raise e) f h k = tt

pub bind-ok {ℓ} : {A : Type ℓ} (m : Result A) → (m >>= ok) ≡ m
bind-ok (ok a) = refl
bind-ok (raise e) = refl
