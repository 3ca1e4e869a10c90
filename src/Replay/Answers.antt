-- ===== src/Replay/Answers.antt =====
-- What the journal itself answers a durable call or an event wait with, and that the engine gives that
-- answer once it has loaded the journal (`_load_journal`, `durable_call` and `durable_wait_for_event`
-- of replay/engine.py).
use satay_runtime.Prelude.{
  ℕ, String, ◌≡◌, refl, sym, ap, subst, ◌∙◌, Bool, true, false, Bool-cases, Option, none, some, ◌⊎◌,
  or_else, or_else_assoc, or_else-none, Option-cases, inl, inr, List, [], ◌∷◌, get_elem?, ◌==◌,
  string_eq, str_eq_iff, if◌then◌else◌, arith,
}
use satay_runtime.Prelude.Text.{◌<>◌, str_nat}
use satay_runtime.Prelude.Dict
use satay_runtime.Prelude.Dict.{Dict, get-put}
use satay_runtime.Value.{Value, Items, Fields, get}
use satay_runtime.Errors.{ok, raise, >>=-eq-ok, Result-cases, nondeterminism_error}
use satay_runtime.Config.{EffectSafety, NondeterminismPolicy}
use satay_runtime.Journal.Events.{EventType, Event, task_failed, external_event_received}
use satay_runtime.Replay.Identity.{
  CallIdentity, identity_eq, ordinal_identity, counter, from_payload, text_at, Resolver,
}
use satay_runtime.Replay.Machine.{
  Env, Engine, Machine, TaskDefinition, new_engine, Outcome, raised, lift,
}
use satay_runtime.Replay.Load.{load_payload, load_journal}
use satay_runtime.Replay.Engine.{durable_call}
use satay_runtime.Replay.Failures.{task_failure_error}
use satay_runtime.Replay.Waits.{durable_wait_for_event, event_identity}
use satay_runtime.Replay.View.{names, last_output, call_order, load_journal-view}
use satay_runtime.Replay.Hits.{
  called, upcoming, Agrees, waited, durable_call-completed, durable_call-failed,
  durable_call-diverged, durable_wait_for_event-recorded,
}

-- The failure that an event records for a call, and the event that it records for a wait.
abbrev failure_in : EventType → Fields → CallIdentity → Option Fields
failure_in task_failed d i = if names d i then some d else none
failure_in _ d i = none

abbrev waits_as : Fields → String → Bool
waits_as d s = elim (text_at d "identity") [ ok j ↦ j == s | raise x ↦ false ]

abbrev received_in : EventType → Fields → String → Option Value
received_in external_event_received d s = if waits_as d s then get d "event_ref" else none
received_in _ d s = none

unfoldable pub last_failure : List Event → CallIdentity → Option Fields
last_failure [] i = none
last_failure (e ∷ es) i = or_else (last_failure es i) (failure_in e.type e.payload i)

unfoldable pub last_received : List Event → String → Option Value
last_received [] s = none
last_received (e ∷ es) s = or_else (last_received es s) (received_in e.type e.payload s)

load_payload-failed :
    (t : EventType) (d : Fields) (g g' : Engine) (i : CallIdentity)
    → load_payload t d g ≡ ok g'
    → Dict.get g'.failed i ≡ or_else (failure_in t d i) (Dict.get g.failed i)
unfolding load_payload
load_payload-failed t d g g' i h = elim (Result-cases (from_payload d)) [
  | inr (x, e) ↦ ground (arith, e)
  | inl (j, e) ↦ ground (arith, e, get-put g.failed j i d)
]

load_payload-received :
    (t : EventType) (d : Fields) (g g' : Engine) (s : String)
    → load_payload t d g ≡ ok g'
    → Dict.get g'.events_received s ≡ or_else (received_in t d s) (Dict.get g.events_received s)
unfolding load_payload
load_payload-received t d g g' s h = elim (Result-cases (text_at d "identity")) [
  | inr (x, e) ↦ ground (arith, e)
  | inl (j, e) ↦ elim (Option-cases (get d "event_ref")) [
    | inl absent ↦ ground (arith, e, absent)
    | inr (v, present) ↦ ground (arith, e, present, get-put g.events_received j s v)
  ]
]

load_journal-failed :
    (es : List Event) (g g' : Engine) (i : CallIdentity)
    → load_journal es g ≡ ok g'
    → Dict.get g'.failed i ≡ or_else (last_failure es i) (Dict.get g.failed i)
unfolding load_journal last_failure
load_journal-failed [] g g' i h = let same : g ≡ g' = cc in rw (← same) refl
load_journal-failed (e ∷ es) g g' i h =
    let (g1, first, rest) = >>=-eq-ok (load_payload e.type e.payload g) _ h in
    load_journal-failed es g1 g' i rest
    ∙ ap (or_else (last_failure es i)) (load_payload-failed e.type e.payload g g1 i first)
    ∙ or_else_assoc (last_failure es i) (failure_in e.type e.payload i) (Dict.get g.failed i)

load_journal-received :
    (es : List Event) (g g' : Engine) (s : String)
    → load_journal es g ≡ ok g'
    → Dict.get g'.events_received s ≡ or_else (last_received es s) (Dict.get g.events_received s)
unfolding load_journal last_received
load_journal-received [] g g' s h = let same : g ≡ g' = cc in rw (← same) refl
load_journal-received (e ∷ es) g g' s h =
    let (g1, first, rest) = >>=-eq-ok (load_payload e.type e.payload g) _ h in
    load_journal-received es g1 g' s rest
    ∙ ap (or_else (last_received es s)) (load_payload-received e.type e.payload g g1 s first)
    ∙ or_else_assoc (last_received es s) (received_in e.type e.payload s)
        (Dict.get g.events_received s)

-- Loading leaves the policy and the counters alone.
load_payload-Same :
    (t : EventType) (d : Fields) (g g' : Engine)
    → load_payload t d g ≡ ok g'
    → (g'.nondeterminism ≡ g.nondeterminism) × (g'.primitive_resolver ≡ g.primitive_resolver)
unfolding load_payload
load_payload-Same t d g g' h = (ground arith, ground arith)

load_journal-Same :
    (es : List Event) (g g' : Engine)
    → load_journal es g ≡ ok g'
    → (g'.nondeterminism ≡ g.nondeterminism) × (g'.primitive_resolver ≡ g.primitive_resolver)
unfolding load_journal
load_journal-Same [] g g' h = (ground arith, ground arith)
load_journal-Same (e ∷ es) g g' h =
    let (g1, first, rest) = >>=-eq-ok (load_payload e.type e.payload g) _ h in
    let head = load_payload-Same e.type e.payload g g1 first in
    let tail = load_journal-Same es g1 g' rest in (tail.0 ∙ head.0, tail.1 ∙ head.1)

-- The answer to the call of a task at a position: its recorded result, its recorded failure, or that
-- another task stands there.
pub data Answer : Type 0 where
  gives : Value → Answer
  fails : Fields → Answer
  refuses : String → Answer

unfoldable pub recorded_answer : List Event → CallIdentity → Option Answer
recorded_answer es i = elim (last_output es i) [
  | some v ↦ some (gives v)
  | none ↦ elim (last_failure es i) [ some d ↦ some (fails d) | none ↦ none ]
]

-- What the events say of the call with identity `i` of the task `name` at position `n`.
unfoldable pub journal_answer : List Event → CallIdentity → ℕ → String → Option Answer
unfolding recorded_answer
journal_answer es i n name = elim (get_elem? (call_order es) n) [
  | none ↦ recorded_answer es i
  | some other ↦ if other == name then recorded_answer es i else some (refuses other)
]

-- How a call ends on an answer.
abbrev pub respond : Env → TaskDefinition → ℕ → Answer → Machine → Outcome Value × Machine
respond env d n a m = elim a [
  | gives v ↦ lift (env.rehydrate v d.returns) m
  | fails p ↦ (raised (task_failure_error p), m)
  | refuses other ↦ (raised (nondeterminism_error n other d.name), m)
]

recorded-cases :
    (es : List Event) (i : CallIdentity) (a : Answer)
    → recorded_answer es i ≡ some a
    → ((v : Value) × (last_output es i ≡ some v) × (gives v ≡ a))
      ⊎ ((p : Fields) × (last_output es i ≡ none) × (last_failure es i ≡ some p) × (fails p ≡ a))
unfolding recorded_answer
recorded-cases es i a h = elim (Option-cases (last_output es i)) [
  | inr (v, e) ↦ inl (v, e, cc (rw (e, recorded_answer) at h))
  | inl e ↦ elim (Option-cases (last_failure es i)) [
    | inr (p, f) ↦ inr (p, e, f, cc (rw (e, f, recorded_answer) at h))
    | inl f ↦ absurd (cc (rw (e, f, recorded_answer) at h))
  ]
]

nothing_there : {s : String} → ◌≡◌ {A = Option String} none (some s) → ⊥
nothing_there h = cc

same_some : {s t : String} → ◌≡◌ {A = Option String} (some s) (some t) → t ≡ s
same_some h = cc

clash : (b : Bool) → b ≡ true → b ≡ false → ⊥
clash b h k = ground arith

-- A machine whose engine has loaded the events, at any position.
module _ (env : Env) (d : TaskDefinition) (args : Items) (kwargs : Fields) (m : Machine)
    (es : List Event) (run_id : String) (safety : EffectSafety) (g : Engine) (c : Resolver) (n : ℕ)
    (loaded : load_journal es (new_engine run_id safety NondeterminismPolicy.strict) ≡ ok g)
    (at_call : m.engine ≡ record g { resolver = c; call_index = n }) where
  abbrev asked : CallIdentity
  asked = ordinal_identity d.name (counter c d.name)

  completed_at : Dict.get m.engine.completed (upcoming m.engine d.name) ≡ last_output es asked
  completed_at =
      ap (λ (e : Engine). Dict.get e.completed (upcoming e d.name)) at_call
      ∙ ((load_journal-view run_id safety NondeterminismPolicy.strict es g loaded).0 asked).0

  failed_at : Dict.get m.engine.failed (upcoming m.engine d.name) ≡ last_failure es asked
  unfolding Dict.get
  failed_at =
      ap (λ (e : Engine). Dict.get e.failed (upcoming e d.name)) at_call
      ∙ load_journal-failed es (new_engine run_id safety NondeterminismPolicy.strict) g asked loaded
      ∙ or_else-none (last_failure es asked)

  order_at : get_elem? m.engine.schedule_order m.engine.call_index ≡ get_elem? (call_order es) n
  order_at =
      ap (λ (e : Engine). get_elem? e.schedule_order e.call_index) at_call
      ∙ ap (λ l. get_elem? l n)
          (load_journal-view run_id safety NondeterminismPolicy.strict es g loaded).1

  strict_at : m.engine.nondeterminism ≡ NondeterminismPolicy.strict
  strict_at =
      ap (λ (e : Engine). e.nondeterminism) at_call
      ∙ (load_journal-Same es (new_engine run_id safety NondeterminismPolicy.strict) g loaded).0

  recorded-respond :
      (a : Answer)
      → Agrees m.engine d.name
      → recorded_answer es asked ≡ some a
      → durable_call env d args kwargs m
        ≡ respond env d n a (record m { engine = called m.engine d.name })
  recorded-respond a agrees h = elim (recorded-cases es asked a h) [
    | inl (v, hit, same) ↦
        subst
          (λ t.
            durable_call env d args kwargs m
            ≡ respond env d n t (record m { engine = called m.engine d.name }))
          same (durable_call-completed env d args kwargs m v agrees (completed_at ∙ hit))
    | inr (p, missing, hit, same) ↦
        subst
          (λ t.
            durable_call env d args kwargs m
            ≡ respond env d n t (record m { engine = called m.engine d.name }))
          same
          (durable_call-failed env d args kwargs m p agrees (completed_at ∙ missing)
            (failed_at ∙ hit))
  ]

  -- Under the strict policy, where the engine has loaded a journal and stands at any position: if the
  -- events answer the call of a task, by its last recorded result, else by its last recorded failure,
  -- or by the name of another task at that position, then the call ends with that answer (the
  -- rehydrated result, the recorded error, or NondeterminismError with the position and both tasks);
  -- no body runs, nothing is written, and only the counters move.
  pub durable_call-answer :
      (a : Answer)
      → journal_answer es asked n d.name ≡ some a
      → durable_call env d args kwargs m
        ≡ respond env d n a (record m { engine = called m.engine d.name })
  unfolding journal_answer
  durable_call-answer a h = elim (Option-cases (get_elem? (call_order es) n)) [
    | inl unset ↦
        recorded-respond a (λ other e. absurd (nothing_there (sym (order_at ∙ unset) ∙ e)))
          (rw (unset, journal_answer) at h)
    | inr (other, set) ↦ elim (Bool-cases (other == d.name)) [
      | inl e ↦
          recorded-respond a
            (λ recorded there.
              same_some (sym (order_at ∙ set) ∙ there) ∙ (str_eq_iff other d.name).0 e)
            (rw (set, e, journal_answer) at h)
      | inr e ↦
          let refused : ◌≡◌ {A = Option Answer} (some (refuses other)) (some a) =
            rw (set, e, journal_answer) at h in
          let same : refuses other ≡ a = cc refused in
          subst
            (λ t.
              durable_call env d args kwargs m
              ≡ respond env d n t (record m { engine = called m.engine d.name }))
            same
            (durable_call-diverged env d args kwargs m other strict_at (order_at ∙ set)
                (λ q. clash (other == d.name) ((str_eq_iff other d.name).1 q) e)
              ∙ ap
                  (λ k. (
                    raised (nondeterminism_error k other d.name),
                    record m { engine = called m.engine d.name },
                  ))
                  (ap (λ (e : Engine). e.call_index) at_call))
    ]
  ]

-- Where the engine has just loaded a journal with an event received under the identity event#0,
-- whatever type of event it was recorded for, the first wait for an event of any type returns the
-- last such event, rehydrated, and consumes and writes nothing.
pub durable_wait_for_event-first :
    (env : Env) (event_type : String) (key : Option String) (timeout : Option ℕ)
    (annotation : String) (m : Machine) (es : List Event) (run_id : String) (safety : EffectSafety)
    (policy : NondeterminismPolicy) (recorded : Value)
    → load_journal es (new_engine run_id safety policy) ≡ ok m.engine
    → last_received es "event#0" ≡ some recorded
    → durable_wait_for_event env event_type key timeout annotation m
      ≡ lift (env.rehydrate recorded annotation) (record m { engine = waited m.engine event_type })
unfolding Dict.get str_nat
durable_wait_for_event-first env event_type key timeout annotation m es run_id safety policy
      recorded h e =
    let fresh : counter m.engine.primitive_resolver ("event:" <> event_type) ≡ 0 =
      ap (λ c. counter c ("event:" <> event_type)) (load_journal-Same es _ m.engine h).1 in
    durable_wait_for_event-recorded env event_type key timeout annotation m recorded (
      ap (λ k. Dict.get m.engine.events_received (event_identity k)) fresh
      ∙ load_journal-received es (new_engine run_id safety policy) m.engine "event#0" h
      ∙ or_else-none (last_received es "event#0")
      ∙ e)
