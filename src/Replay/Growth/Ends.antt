-- ===== src/Replay/Growth/Ends.antt =====
-- A workflow body, and what `drive` of replay/engine.py records of its outcome, on the journal.
use satay_runtime.Prelude.{
  ◌≤◌, String, ◌≡◌, refl, sym, ◌∙◌, ap, List, [], ◌∷◌, ◌++◌, append-nil, arith, inl, inr, string_eq,
  All, length, Bool-cases,
}
use satay_runtime.Value.{Value, Fields, dict}
use satay_runtime.Errors.{Result, ok, raise, propagates, Result-cases}
use satay_runtime.Journal.Codec.{encode}
use satay_runtime.Journal.Events.{Event, EventType, RunStatus, new_event}
use satay_runtime.Journal.Store
use satay_runtime.Journal.Store.{Store, Row, rows_of, rows_to_events, row_to_event}
use satay_runtime.Journal.Store.Append.{row_for, append-encoded, append-refused}
use satay_runtime.Journal.Store.Reach.{IsSound, same_rows, append-IsSound}
use satay_runtime.Executor.{record_event}
use satay_runtime.Replay.Machine.{
  Env, Machine, Exec, Outcome, returned, raised, parked, ◌>>=◌, continue,
}
use satay_runtime.Replay.Commit.{commit-Commits}
use satay_runtime.Replay.Drive.{
  Workflow, returns, raises, calls, sleeps, waits, attempt, run, mark, finish,
}
use satay_runtime.Replay.Growth.{Grows, Keeps, Keeps-return, Keeps-bind}
use satay_runtime.Replay.Growth.Calls.{durable_call-Keeps}
use satay_runtime.Replay.Growth.Waits.{durable_sleep-Keeps, durable_wait_for_event-Keeps}

module _ {A : Type 0} {own : String} where
  attempt-Grows :
      (r : Outcome A) {m n : Machine}
      → Grows own m n
      → Grows own m
          (elim r as (λ _. Outcome (Result A) × Machine) [
            | returned v ↦ (returned (ok v), n)
            | raised e ↦ (returned (raise e), n)
            | parked ↦ (parked, n)
          ]).1
  attempt-Grows (returned v) h = h
  attempt-Grows (raised e) h = h
  attempt-Grows parked h = h

  attempt-Keeps : (a : Exec A) → Keeps own a → Keeps own (attempt a)
  attempt-Keeps a ha = record { at = λ m h. attempt-Grows (a m).0 (ha.at m h) }

pub run-Keeps : {own : String} (env : Env) (w : Workflow) → Keeps own (run env w)
unfolding run
run-Keeps env (returns v) = Keeps-return (returned v)
run-Keeps env (raises e) = Keeps-return (raised e)
run-Keeps env (calls d args kwargs k) =
    Keeps-bind _ _ (attempt-Keeps _ (durable_call-Keeps env d args kwargs))
      (λ r. run-Keeps env (k r))
run-Keeps env (sleeps duration k) =
    Keeps-bind _ _ (attempt-Keeps _ (durable_sleep-Keeps env duration)) (λ r. run-Keeps env (k r))
run-Keeps env (waits event_type key timeout annotation k) =
    Keeps-bind _ _
      (attempt-Keeps _ (durable_wait_for_event-Keeps env event_type key timeout annotation))
      (λ r. run-Keeps env (k r))

-- At most one event of the run is added, of any type.
pub record Ends (own : String) (s t : Store) : Type 0 where
  pub last : List Row
  pub events : t.events ≡ s.events ++ last
  pub belong : All (λ (r : Row). r.run_id ≡ own) last
  pub short : length last ≤ 1
  pub sound : IsSound s → IsSound t

Ends-same :
    {own : String} {s t : Store}
    → t.events ≡ s.events
    → t.event_cache ≡ s.event_cache
    → Ends own s t
Ends-same {own} {s} {t} same cache = record {
  sound = same_rows (sym same) (sym cache);
  last = [];
  events = same ∙ sym (append-nil s.events);
  belong = tt;
  short = omega arith;
}

record_event-Ends :
    (own : String) (type : EventType) (d : Fields) (m : Machine)
    → Ends own m.store (record_event own type d m).1.store
record_event-Ends own type d m =
    let e = new_event own type d m.now in
    let c = commit-Commits e m in
    elim (Result-cases (encode "$" (dict e.payload))) [
      | inl (json, done) ↦
          let written =
            c.store ∙ ap (λ (p : Result Event × Store). p.1) (append-encoded m.store e json done) in
          record {
            last = row_for m.store e json ∷ [];
            events = ap (λ (s : Store). s.events) written;
            belong = (refl, tt);
            sound = λ h. rw c.store (append-IsSound m.store e h);
            short = omega arith;
          }
      | inr (x, refused) ↦
          let written =
            c.store ∙ ap (λ (p : Result Event × Store). p.1) (append-refused m.store e x refused) in
          Ends-same (ap (λ (s : Store). s.events) written)
            (ap (λ (s : Store). s.event_cache) written)
    ]

continue-mark :
    {own : String} (status : RunStatus) (r : Outcome (Unit {0})) {s : Store} (n : Machine)
    → Ends own s n.store
    → Ends own s (continue r (λ _. mark status) n).1.store
unfolding ◌>>=◌ Store.set_status
continue-mark status (returned v) n h = record {
  last = h.last;
  events = h.events;
  belong = h.belong;
  short = h.short;
  sound = λ k. same_rows refl refl (h.sound k);
}
continue-mark status (raised x) n h = h
continue-mark status parked n h = h

pub finish-Ends :
    (env : Env) (r : Outcome Value) (m : Machine)
    → Ends m.engine.run_id m.store (finish env r m).1.store
unfolding finish ◌>>=◌ Store.set_status
finish-Ends env parked m = Ends-same refl refl
finish-Ends env (raised e) m = elim (Bool-cases (propagates e)) [
  | inl out ↦ rw out (Ends-same refl refl)
  | inr inside ↦ rw inside (continue-mark _ _ _ (record_event-Ends m.engine.run_id _ _ m))
]
finish-Ends env (returned v) m = elim (Result-cases (encode "$" v)) [
  | inl (output, done) ↦ rw done (continue-mark _ _ _ (record_event-Ends m.engine.run_id _ _ m))
  | inr (x, refused) ↦ rw refused (Ends-same refl refl)
]
