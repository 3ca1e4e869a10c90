-- ===== src/Replay/Growth.antt =====
-- What every operation of replay/engine.py on a run's journal leaves alone: a predicate of actions, with
-- a rule for each way that they are composed.
pub mod Calls
pub mod Waits
pub mod Ends
pub mod Runs
use satay_runtime.Prelude.{
  ℕ, suc, ◌+◌, String, ◌≡◌, refl, sym, ◌∙◌, ap, Bool, true, false, none, some, Option, List, [],
  ◌∷◌, ◌++◌, append-nil, append_assoc, arith, All, All-append, inl, inr, if◌then◌else◌,
}
use satay_runtime.Value.{Value, Fields, dict}
use satay_runtime.Errors.{Exn, Result, ok, raise, Result-cases}
use satay_runtime.Journal.Codec.{encode}
use satay_runtime.Journal.Events.{EventType, Event, new_event, with_seq, RunRecord}
use satay_runtime.Journal.Store
use satay_runtime.Journal.Store.{Store, Row}
use satay_runtime.Journal.Store.Append.{row_for, append-encoded, append-refused}
use satay_runtime.Journal.Store.Reach.{IsSound, same_rows, append-IsSound}
use satay_runtime.Executor.{record_event}
use satay_runtime.Replay.Machine.{
  Engine, Machine, Exec, Outcome, returned, raised, parked, continue, commit, pure, throw, park,
  lift, ◌>>=◌, ◌>>◌, get_engine, set_engine, with_store,
}
use satay_runtime.Replay.Commit.{Commits, commit-Commits}
use satay_runtime.Replay.Drive.{terminal_status}

-- From m to m', rows were added to the journal of the run only, none of a terminal type.
pub record Grows (run : String) (m m' : Machine) : Type 0 where
  pub rows : List Row
  pub events : m'.store.events ≡ m.store.events ++ rows
  pub own : All (λ (r : Row). r.run_id ≡ run) rows
  pub unfinished : All (λ (r : Row). terminal_status r.type ≡ none) rows
  pub runs : m'.store.runs ≡ m.store.runs
  pub sound : IsSound m.store → IsSound m'.store
  pub run_id : m'.engine.run_id ≡ run

Grows-stays :
    {run : String} {m m' : Machine}
    → m'.store.events ≡ m.store.events
    → m'.store.event_cache ≡ m.store.event_cache
    → m'.store.runs ≡ m.store.runs
    → m'.engine.run_id ≡ run
    → Grows run m m'
Grows-stays {run} {m} {m'} same cache runs run_id = record {
  sound = same_rows (sym same) (sym cache);
  rows = [];
  events = same ∙ sym (append-nil m.store.events);
  own = tt;
  unfinished = tt;
  runs = runs;
  run_id = run_id;
}

pub Grows-trans : {run : String} {m n p : Machine} → Grows run m n → Grows run n p → Grows run m p
Grows-trans {run} {m} {n} {p} a b = record {
  sound = λ h. b.sound (a.sound h);
  rows = a.rows ++ b.rows;
  events = b.events ∙ ap (λ xs. xs ++ b.rows) a.events ∙ append_assoc m.store.events a.rows b.rows;
  own = All-append (λ (r : Row). r.run_id ≡ run) a.rows b.rows a.own b.own;
  unfinished =
      All-append (λ (r : Row). terminal_status r.type ≡ none) a.rows b.rows a.unfinished
        b.unfinished;
  runs = b.runs ∙ a.runs;
  run_id = b.run_id;
}

-- An action of this run's engine does no more.
pub record Keeps {A : Type 0} (run : String) (a : Exec A) : Type 0 where
  pub at : (m : Machine) → m.engine.run_id ≡ run → Grows run m (a m).1

module _ {A : Type 0} {run : String} where
  -- An action that leaves the tables alone.
  pub Keeps-still :
      (a : Exec A)
      → ((m : Machine)
          → ((a m).1.store.events ≡ m.store.events)
            × ((a m).1.store.event_cache ≡ m.store.event_cache)
            × ((a m).1.store.runs ≡ m.store.runs)
            × ((a m).1.engine.run_id ≡ m.engine.run_id))
      → Keeps run a
  Keeps-still a still = record {
    at = λ m h. let (e, c, r, i) = still m in Grows-stays e c r (i ∙ h);
  }

  pub Keeps-return : (r : Outcome A) → Keeps run (λ m. (r, m))
  Keeps-return r = Keeps-still (λ m. (r, m)) (λ m. (refl, refl, refl, refl))

  pub Keeps-lift : (r : Result A) → Keeps run (lift r)
  Keeps-lift (ok v) = Keeps-return (returned v)
  Keeps-lift (raise x) = Keeps-return (raised x)

  pub Keeps-pure : (v : A) → Keeps run (pure v)
  Keeps-pure v = Keeps-return (returned v)

  pub Keeps-throw : (x : Exn) → Keeps run (throw {A = A} x)
  Keeps-throw x = Keeps-return (raised x)

  pub Keeps-if :
      (b : Bool) (x y : Exec A) → Keeps run x → Keeps run y → Keeps run (if b then x else y)
  Keeps-if true x y hx hy = hx
  Keeps-if false x y hx hy = hy

  pub Keeps-engine :
      (f : Engine → Exec A)
      → ((g : Engine) → g.run_id ≡ run → Keeps run (f g))
      → Keeps run (get_engine >>= f)
  unfolding ◌>>=◌
  Keeps-engine f k = record { at = λ m h. (k m.engine h).at m h }

module _ {A B : Type 0} {run : String} where
  pub Keeps-option :
      (o : Option A) (x : Exec B) (f : A → Exec B)
      → Keeps run x
      → ((v : A) → Keeps run (f v))
      → Keeps run (elim o as (λ _. Exec B) [ none ↦ x | some v ↦ f v ])
  Keeps-option none x f hx hf = hx
  Keeps-option (some v) x f hx hf = hf v

  pub Keeps-result :
      (r : Result A) (f : A → Exec B) (g : Exn → Exec B)
      → ((v : A) → Keeps run (f v))
      → ((x : Exn) → Keeps run (g x))
      → Keeps run (elim r as (λ _. Exec B) [ ok v ↦ f v | raise x ↦ g x ])
  Keeps-result (ok v) f g hf hg = hf v
  Keeps-result (raise x) f g hf hg = hg x

  continue-Grows :
      (r : Outcome A) (f : A → Exec B) {m n : Machine}
      → ((v : A) → Keeps run (f v))
      → Grows run m n
      → Grows run m (continue r f n).1
  continue-Grows (returned v) f {m} {n} k h = Grows-trans h ((k v).at n h.run_id)
  continue-Grows (raised x) f k h = h
  continue-Grows parked f k h = h

  pub Keeps-bind :
      (a : Exec A) (f : A → Exec B)
      → Keeps run a
      → ((v : A) → Keeps run (f v))
      → Keeps run (a >>= f)
  unfolding ◌>>=◌
  Keeps-bind a f ha k = record { at = λ m h. continue-Grows (a m).0 f k (ha.at m h) }

pub Keeps-set : {run : String} (g : Engine) → g.run_id ≡ run → Keeps run (set_engine g)
Keeps-set g same = record { at = λ m h. Grows-stays refl refl refl same }

-- One more event of a type that is not terminal.
pub Keeps-record :
    {run own : String} (type : EventType) (d : Fields)
    → terminal_status type ≡ none
    → own ≡ run
    → Keeps run (record_event own type d)
Keeps-record {run} {own} type d unfinished same = record {
  at = λ m h.
      let e = new_event own type d m.now in
      let c = commit-Commits e m in
      elim (Result-cases (encode "$" (dict e.payload))) [
        | inl (json, done) ↦
            let written =
              c.store
              ∙ ap (λ (p : Result Event × Store). p.1) (append-encoded m.store e json done) in
            record {
              rows = row_for m.store e json ∷ [];
              events = ap (λ (s : Store). s.events) written;
              own = (same, tt);
              unfinished = (unfinished, tt);
              sound = λ h. rw c.store (append-IsSound m.store e h);
              runs = ap (λ (s : Store). s.runs) written;
              run_id = ap (λ (g : Engine). g.run_id) c.engine ∙ h;
            }
        | inr (x, refused) ↦
            let written =
              c.store
              ∙ ap (λ (p : Result Event × Store). p.1) (append-refused m.store e x refused) in
            Grows-stays (ap (λ (s : Store). s.events) written)
              (ap (λ (s : Store). s.event_cache) written) (ap (λ (s : Store). s.runs) written)
              (ap (λ (g : Engine). g.run_id) c.engine ∙ h)
      ];
}
