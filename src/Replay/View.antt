-- ===== src/Replay/View.antt =====
-- What `_load_journal` of replay/engine.py reads from a journal, call by call, without its dicts.
use Prim.Native.Nat.{max}
use satay_runtime.Prelude.{
  or_else, or_else_assoc, or_else-none, ℕ, ◌+◌, String, ◌≡◌, refl, sym, ◌∙◌, ap, Bool, false, ◌||◌,
  none, Option, List, [], ◌∷◌, ◌++◌, append_assoc, append-nil, arith, Option-cases, inl, inr, ◌==◌,
  string_eq, if◌then◌else◌,
}
use satay_runtime.Prelude.Dict
use satay_runtime.Prelude.Dict.{member, get-put, member-add}
use satay_runtime.Value.{Value, Fields, get}
use satay_runtime.Errors.{ok, raise, >>=-eq-ok, Result-cases}
use satay_runtime.Config.{EffectSafety, NondeterminismPolicy}
use satay_runtime.Journal.Events.{
  EventType, Event, task_scheduled, task_attempt_started, task_attempt_failed, task_completed,
}
use satay_runtime.Replay.Identity.{
  CallIdentity, identity_eq, identity_beq_iff, is_keyed, from_payload,
}
use satay_runtime.Replay.Machine.{Engine, new_engine}
use satay_runtime.Replay.Load.{load_payload, load_journal, attempt_of, number_at}

-- Does a payload carry the identity?
abbrev pub names : Fields → CallIdentity → Bool
names d i = elim (from_payload d) [ ok j ↦ j == i | raise x ↦ false ]

-- The output that an event records for a call.
abbrev output_in : EventType → Fields → CallIdentity → Option Value
output_in task_completed d i = if names d i then get d "output_ref" else none
output_in _ d i = none

-- The failures of a call in an event.
abbrev failures_in : EventType → Fields → CallIdentity → ℕ
failures_in task_attempt_failed d i = if names d i then 1 else 0
failures_in _ d i = 0

abbrev number_in : Fields → ℕ
number_in d = elim (attempt_of d) [ ok n ↦ n | raise x ↦ 0 ]

abbrev attempt_in : EventType → Fields → CallIdentity → ℕ
attempt_in task_attempt_started d i = if names d i then number_in d else 0
attempt_in task_attempt_failed d i = if names d i then number_in d else 0
attempt_in _ d i = 0

abbrev scheduled_in : EventType → Fields → CallIdentity → Bool
scheduled_in task_scheduled d i = names d i
scheduled_in _ d i = false

-- The name of a call without a key.
abbrev order_in : EventType → Fields → List String
order_in task_scheduled d = elim (from_payload d) [
  | ok i ↦ if is_keyed i then [] else i.task_name ∷ []
  | raise x ↦ []
]
order_in _ d = []

-- The view of a whole journal.
unfoldable pub last_output : List Event → CallIdentity → Option Value
last_output [] i = none
last_output (e ∷ es) i = or_else (last_output es i) (output_in e.type e.payload i)

unfoldable pub count_failures : List Event → CallIdentity → ℕ
count_failures [] i = 0
count_failures (e ∷ es) i = failures_in e.type e.payload i + count_failures es i

unfoldable pub last_attempt : List Event → CallIdentity → ℕ
last_attempt [] i = 0
last_attempt (e ∷ es) i = max (attempt_in e.type e.payload i) (last_attempt es i)

unfoldable pub is_scheduled : List Event → CallIdentity → Bool
is_scheduled [] i = false
is_scheduled (e ∷ es) i = scheduled_in e.type e.payload i || is_scheduled es i

unfoldable pub call_order : List Event → List String
call_order [] = []
call_order (e ∷ es) = order_in e.type e.payload ++ call_order es

record Reads (g g' : Engine) (output : CallIdentity → Option Value)
    (failed attempt : CallIdentity → ℕ) (scheduled : CallIdentity → Bool) (order : List String)
    : Type 0 where
  outputs :
      (i : CallIdentity) → Dict.get g'.completed i ≡ or_else (output i) (Dict.get g.completed i)
  failures : (i : CallIdentity) → number_at g'.failures i ≡ number_at g.failures i + failed i
  attempts :
      (i : CallIdentity) → number_at g'.max_attempt i ≡ max (number_at g.max_attempt i) (attempt i)
  members : (i : CallIdentity) → member g'.scheduled i ≡ (member g.scheduled i || scheduled i)
  ordered : g'.schedule_order ≡ g.schedule_order ++ order

load_payload-Reads :
    (t : EventType) (d : Fields) (g g' : Engine)
    → load_payload t d g ≡ ok g'
    → Reads g g'
        (output_in t d)
        (failures_in t d)
        (attempt_in t d)
        (scheduled_in t d)
        (order_in t d)
unfolding load_payload
load_payload-Reads t d g g' h = elim (Result-cases (from_payload d)) [
  | inr (x, e) ↦ record {
    outputs = λ i. ground (arith, e);
    failures = λ i. ground (arith, e);
    attempts = λ i. ground (arith, e);
    members = λ i. ground (arith, e);
    ordered = ground (arith, e, append-nil g.schedule_order);
  }
  | inl (j, e) ↦ record {
    outputs = λ i. elim (Option-cases (get d "output_ref")) [
      | inl absent ↦ ground (arith, e, absent)
      | inr (v, present) ↦ ground (arith, e, present, get-put g.completed j i v)
    ];
    failures = λ i.
        ground
          (arith, e, get-put g.failures j i (number_at g.failures j + 1), identity_beq_iff j i);
    attempts = λ i. elim (Result-cases (attempt_of d)) [
      | inr (x, bad) ↦ ground (arith, e, bad)
      | inl (n, good) ↦ ground (
        arith,
        e,
        good,
        get-put g.max_attempt j i (max (number_at g.max_attempt j) n),
        identity_beq_iff j i,
      )
    ];
    members = λ i. ground (arith, e, member-add g.scheduled j i);
    ordered = ground (arith, e, append-nil g.schedule_order);
  }
]

load_journal-Reads :
    (es : List Event) (g g' : Engine)
    → load_journal es g ≡ ok g'
    → Reads g g'
        (last_output es)
        (count_failures es)
        (last_attempt es)
        (is_scheduled es)
        (call_order es)
unfolding load_journal last_output count_failures last_attempt is_scheduled call_order
load_journal-Reads [] g g' h =
    let same : g ≡ g' = cc in
    rw (← same) (record {
      outputs = λ i. refl;
      failures = λ i. omega arith;
      attempts = λ i. omega arith;
      members = λ i. ground arith;
      ordered = sym (append-nil g.schedule_order);
    })
load_journal-Reads (e ∷ es) g g' h =
    let (g1, first, rest) = >>=-eq-ok (load_payload e.type e.payload g) _ h in
    let head = load_payload-Reads e.type e.payload g g1 first in
    let tail = load_journal-Reads es g1 g' rest in
    record {
      outputs = λ i.
          tail.outputs i
          ∙ ap (or_else (last_output es i)) (head.outputs i)
          ∙ or_else_assoc (last_output es i) (output_in e.type e.payload i)
              (Dict.get g.completed i);
      failures = λ i. omega (arith, tail.failures i, head.failures i);
      attempts = λ i. omega (arith, tail.attempts i, head.attempts i);
      members = λ i. ground (arith, tail.members i, head.members i);
      ordered =
          tail.ordered
          ∙ ap (λ xs. xs ++ call_order es) head.ordered
          ∙ append_assoc g.schedule_order (order_in e.type e.payload) (call_order es);
    }

-- If a journal loads, what a new engine has loaded is, call by call, what the events say: last
-- output, failures, highest attempt, scheduled or not, and the order of calls.
pub load_journal-view :
    (run_id : String) (safety : EffectSafety) (policy : NondeterminismPolicy) (es : List Event)
    (g : Engine)
    → load_journal es (new_engine run_id safety policy) ≡ ok g
    → ((i : CallIdentity)
        → (Dict.get g.completed i ≡ last_output es i)
          × (number_at g.failures i ≡ count_failures es i)
          × (number_at g.max_attempt i ≡ last_attempt es i)
          × (member g.scheduled i ≡ is_scheduled es i))
      × (g.schedule_order ≡ call_order es)
unfolding Dict.get member
load_journal-view run_id safety policy es g h =
    let r = load_journal-Reads es (new_engine run_id safety policy) g h in
    (
      λ i. (
        r.outputs i ∙ or_else-none (last_output es i),
        omega (arith, r.failures i),
        omega (arith, r.attempts i),
        r.members i,
      ),
      r.ordered,
    )
