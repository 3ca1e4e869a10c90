-- ===== src/Replay/Machine.antt =====
-- The state that replay/engine.py and executor/__init__.py work on: the engine's own fields, and what
-- it shares with its process (the store, the fault injector, the clock, the outside world). An action
-- returns, raises, or parks the run; what was written before stays written.
use satay_runtime.Prelude.{
  ℕ, ◌-◌, String, Bool, false, Option, none, some, List, [], ◌∷◌, ◌++◌, leb, string_eq,
  if◌then◌else◌,
}
use satay_runtime.Prelude.Dict
use satay_runtime.Prelude.Dict.{Dict}
use satay_runtime.Prelude.Int.{ℤ}
use satay_runtime.Value.{Value, Items, Fields}
use satay_runtime.Errors.{Exn, Result, ok, raise, simulated_crash}
use satay_runtime.Config.{EffectSafety, NondeterminismPolicy}
use satay_runtime.Journal.Events.{Event, TimerKind, type_value}
use satay_runtime.Journal.Store
use satay_runtime.Journal.Store.{Store}
use satay_runtime.Replay.Identity.{CallIdentity, Resolver, identity_eq}

-- api/context.py: what a task body can read of its attempt
pub record TaskContext : Type 0 where
  pub run_id : String
  pub task_name : String
  pub ordinal : ℤ
  pub attempt : ℕ
  pub idempotency_key : String

-- One run of a task body in the outside world.
pub record Execution : Type 0 where
  pub context : TaskContext
  pub args : Items
  pub kwargs : Fields

-- How an attempt ends: its result, the usage that it reported, and the time that the body takes.
pub record Attempt : Type 0 where
  pub result : Result Value
  pub usage : Option Value
  pub duration : ℕ

-- api/registry.py. The body is user code: a function of its context, its arguments and of everything
-- that has been executed before.
pub record TaskDefinition : Type 0 where
  pub name : String
  pub fn : TaskContext → Items → Fields → List Execution → Attempt
  pub retries : ℕ
  pub timeout : Option ℕ
  pub side_effect : Bool
  pub idempotent : Bool
  -- the resolved return annotation
  pub returns : String

-- `is_effect_guarded`
abbrev pub is_effect_guarded : TaskDefinition → Bool
is_effect_guarded d = d.idempotent

-- type(exc).__name__, str(exc) and the formatted traceback
pub record ErrorText : Type 0 where
  pub type : String
  pub message : String
  pub traceback : String

-- What the runtime takes from outside: the hash of a text, the n-th uuid4, the n-th draw of the random
-- number generator up to a bound, the text of an exception, and `rehydrate` at a named annotation.
pub record Env : Type 0 where
  pub digest : String → String
  pub uuid : ℕ → String
  pub uniform : ℕ → ℕ → ℕ
  pub describe : Exn → ErrorText
  pub rehydrate : Value → String → Result Value

-- The fields of a ReplayEngine.
pub record Engine : Type 0 where
  pub run_id : String
  pub effect_safety : EffectSafety
  pub nondeterminism : NondeterminismPolicy
  pub run_is_nameable : Bool
  pub unnameable_warned : List String
  pub resolver : Resolver
  pub primitive_resolver : Resolver
  pub call_index : ℕ
  pub completed : Dict CallIdentity Value
  pub scheduled : List CallIdentity
  pub schedule_order : List String
  pub children_scheduled : Dict CallIdentity String
  pub max_attempt : Dict CallIdentity ℕ
  pub failures : Dict CallIdentity ℕ
  pub failed : Dict CallIdentity Fields
  pub timers_created : Dict String Fields
  pub timers_fired : Dict String TimerKind
  pub waits_started : List String
  pub waiting_recorded : List String
  pub events_received : Dict String Value
  -- the context variable _COLLECTING
  pub collecting : Bool

-- A new engine for a run.
abbrev pub new_engine : String → EffectSafety → NondeterminismPolicy → Engine
new_engine run_id effect_safety nondeterminism = record {
  run_id = run_id;
  effect_safety = effect_safety;
  nondeterminism = nondeterminism;
  run_is_nameable = false;
  unnameable_warned = [];
  resolver = [];
  primitive_resolver = [];
  call_index = 0;
  completed = [];
  scheduled = [];
  schedule_order = [];
  children_scheduled = [];
  max_attempt = [];
  failures = [];
  failed = [];
  timers_created = [];
  timers_fired = [];
  waits_started = [];
  waiting_recorded = [];
  events_received = [];
  collecting = false;
}

-- What the runtime logs through `_LOG.warning`.
pub data Warning : Type 0 where
  diverged : ℕ → String → String → Warning
  unguarded_effect unnameable_run : String → Warning
  -- versioning: the stamped and the current version
  resumed_under : String → String → Warning

pub record Machine : Type 0 where
  pub store : Store
  -- testing/faults.py: the armed crashes by event type, or no injector
  pub injector : Option (Dict String ℕ)
  pub now : ℕ
  pub uuids : ℕ
  pub draws : ℕ
  pub executions : List Execution
  pub warnings : List Warning
  pub engine : Engine

pub data Outcome {ℓ} (A : Type ℓ) : Type ℓ where
  returned : A → Outcome A
  raised : Exn → Outcome A
  -- WorkflowParked, a BaseException that no workflow body catches
  parked : Outcome A

abbrev pub Exec : Type 0 → Type 0
Exec A = Machine → Outcome A × Machine

module _ {A : Type 0} where
  abbrev pub pure : A → Exec A
  pure a m = (returned a, m)

  abbrev pub throw : Exn → Exec A
  throw e m = (raised e, m)

  abbrev pub park : Exec A
  park m = (parked, m)

  abbrev pub lift : Result A → Exec A
  lift (ok a) m = (returned a, m)
  lift (raise e) m = (raised e, m)

module _ {A B : Type 0} where
  abbrev pub continue : Outcome A → (A → Exec B) → Exec B
  continue (returned a) f m = f a m
  continue (raised e) f m = (raised e, m)
  continue parked f m = (parked, m)

  infixl 5 ◌>>=◌ ◌>>◌
  unfoldable pub ◌>>=◌ : Exec A → (A → Exec B) → Exec B
  ◌>>=◌ a f m = let (r, m') = a m in continue r f m'

  abbrev pub ◌>>◌ : Exec A → Exec B → Exec B
  a >> b = a >>= λ _. b

abbrev pub get_engine : Exec Engine
get_engine m = (returned m.engine, m)

abbrev pub set_engine : Engine → Exec (Unit {0})
set_engine g m = (returned tt, record m { engine = g })

abbrev pub with_store : (Store → Store) → Exec (Unit {0})
with_store f m = (returned tt, record m { store = f m.store })

-- What the store holds.
abbrev pub query : {A : Type 0} → (Store → A) → Exec A
query f m = (returned (f m.store), m)

abbrev pub warn : Warning → Exec (Unit {0})
warn w m = (returned tt, record m { warnings = m.warnings ++ w ∷ [] })

-- FaultInjector.reached: an armed crash fires, and is used up once. Stalls only delay.
unfoldable pub reached : String → Exec (Unit {0})
reached t m = elim m.injector [
  | none ↦ (returned tt, m)
  | some arms ↦ elim (Dict.get arms t) [
    | none ↦ (returned tt, m)
    | some n ↦ (
      raised (simulated_crash t),
      record m {
        injector = some (if leb n 1 then Dict.remove arms t else Dict.put arms t (n - 1));
      },
    )
  ]
]

-- What follows an append: an error is passed on, else the injector is told.
unfoldable pub appended : Result Event × Store → Exec (Unit {0})
unfolding reached
appended (raise e, s) m = (raised e, m)
appended (ok stored, s) m = reached (type_value stored.type) (record m { store = s })

-- `_commit`
unfoldable pub commit : Event → Exec (Unit {0})
unfolding appended
commit e m = appended (Store.append m.store e) m
