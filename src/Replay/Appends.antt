-- ===== src/Replay/Appends.antt =====
-- The journals are append-only: a predicate of the actions of the runtime, engine or not, that only add
-- rows to the journals of certain runs, with a rule for each way that they are composed.
use satay_runtime.Prelude.{
  String, ◌≡◌, refl, sym, ◌∙◌, ap, Bool, true, false, Option, none, some, List, [], ◌∷◌, ◌++◌,
  append-nil, append_assoc, All, All-append, All-map, inl, inr, if◌then◌else◌, filter-append, ◌==◌,
  string_eq, ◌≢◌, ==_ne,
}
use satay_runtime.Value.{dict, Fields}
use satay_runtime.Errors.{Result, ok, raise, Result-cases}
use satay_runtime.Journal.Codec.{encode}
use satay_runtime.Journal.Events.{Event, EventType, new_event}
use satay_runtime.Journal.Store
use satay_runtime.Journal.Store.{Store, Row, rows_of}
use satay_runtime.Journal.Store.Append.{row_for, append-encoded, append-refused}
use satay_runtime.Journal.Store.Cache.{events-read_events}
use satay_runtime.Journal.Store.Reach.{IsSound, same_rows, append-IsSound, read-IsSound}
use satay_runtime.Executor.{record_event}
use satay_runtime.Replay.Machine.{
  Env, Machine, Exec, Outcome, returned, raised, parked, continue, ◌>>=◌, with_store, lift, query,
}
use satay_runtime.Replay.Commit.{commit-Commits}
use satay_runtime.Replay.Drive.{Workflow, drive}
use satay_runtime.Replay.Growth.Runs.{drive-Drives, rows_of-own}

-- From s to t, rows were added to the journals of certain runs, and the store is left in order.
pub record Extends (P : String → Type 0) (s t : Store) : Type 0 where
  pub rows : List Row
  pub events : t.events ≡ s.events ++ rows
  pub own : All (λ (r : Row). P r.run_id) rows
  pub sound : IsSound t

module _ {P : String → Type 0} where
  -- The tables that the journals are in stay.
  pub Extends-same :
      {s t : Store}
      → t.events ≡ s.events
      → t.event_cache ≡ s.event_cache
      → IsSound s
      → Extends P s t
  Extends-same {s} {t} same cache h = record {
    rows = [];
    events = same ∙ sym (append-nil s.events);
    own = tt;
    sound = same_rows (sym same) (sym cache) h;
  }

  pub Extends-refl : {s : Store} → IsSound s → Extends P s s
  Extends-refl h = Extends-same refl refl h

  pub Extends-trans : {s t u : Store} → Extends P s t → Extends P t u → Extends P s u
  Extends-trans {s} {t} {u} a b = record {
    rows = a.rows ++ b.rows;
    events = b.events ∙ ap (λ xs. xs ++ b.rows) a.events ∙ append_assoc s.events a.rows b.rows;
    own = All-append (λ (r : Row). P r.run_id) a.rows b.rows a.own b.own;
    sound = b.sound;
  }

  pub Extends-read :
      (s : Store) (run_id : String) → IsSound s → Extends P s (Store.read_events s run_id).1
  Extends-read s run_id h = record {
    rows = [];
    events = events-read_events s run_id ∙ sym (append-nil s.events);
    own = tt;
    sound = read-IsSound s run_id h;
  }

  pub Extends-append :
      (s : Store) (e : Event) → P e.run_id → IsSound s → Extends P s (Store.append s e).1
  Extends-append s e mine h = elim (Result-cases (encode "$" (dict e.payload))) [
    | inl (json, done) ↦
        let written = ap (λ (p : Result Event × Store). p.1) (append-encoded s e json done) in
        record {
          rows = row_for s e json ∷ [];
          events = ap (λ (t : Store). t.events) written;
          own = (mine, tt);
          sound = append-IsSound s e h;
        }
    | inr (x, refused) ↦
        let written = ap (λ (p : Result Event × Store). p.1) (append-refused s e x refused) in
        record {
          rows = [];
          events = ap (λ (t : Store). t.events) written ∙ sym (append-nil s.events);
          own = tt;
          sound = append-IsSound s e h;
        }
  ]

-- The journal of each run is a continuation of what it was.
pub Extends-rows_of :
    {P : String → Type 0} {s t : Store} (h : Extends P s t) (j : String)
    → rows_of t.events j ≡ rows_of s.events j ++ rows_of h.rows j
Extends-rows_of {P} {s} {t} h j =
    ap (λ xs. rows_of xs j) h.events ∙ filter-append (λ (r : Row). r.run_id == j) s.events h.rows

-- Where only one run's journal may grow, the others stay.
pub Extends-elsewhere :
    {s t : Store} (own j : String)
    → Extends (λ i. i ≡ own) s t
    → j ≢ own
    → rows_of t.events j ≡ rows_of s.events j
Extends-elsewhere {s} {t} own j h other =
    Extends-rows_of h j
    ∙ ap (λ xs. rows_of s.events j ++ xs)
        (rows_of-own h.rows own j h.own ∙ rw (==_ne own j (λ e. other (sym e))) refl)
    ∙ append-nil (rows_of s.events j)

-- An action that does no more, from any store in order.
pub record Appends {A : Type 0} (P : String → Type 0) (a : Exec A) : Type 0 where
  pub at : (m : Machine) → IsSound m.store → Extends P m.store (a m).1.store

module _ {A : Type 0} {P : String → Type 0} where
  pub Appends-return : (r : Outcome A) → Appends P (λ m. (r, m))
  Appends-return r = record { at = λ m h. Extends-refl h }

  pub Appends-lift : (r : Result A) → Appends P (lift r)
  Appends-lift (ok v) = Appends-return (returned v)
  Appends-lift (raise x) = Appends-return (raised x)

  pub Appends-if :
      (b : Bool) (x y : Exec A) → Appends P x → Appends P y → Appends P (if b then x else y)
  Appends-if true x y hx hy = hx
  Appends-if false x y hx hy = hy

  -- An action that is chosen by the state.
  pub Appends-state :
      (f : Machine → Exec A) → ((m : Machine) → Appends P (f m)) → Appends P (λ m. f m m)
  Appends-state f k = record { at = λ m h. (k m).at m h }

  pub Appends-query : (f : Store → A) → Appends P (query f)
  Appends-query f = record { at = λ m h. Extends-refl h }

module _ {A B : Type 0} {P : String → Type 0} where
  pub Appends-option :
      (o : Option A) (x : Exec B) (f : A → Exec B)
      → Appends P x
      → ((v : A) → Appends P (f v))
      → Appends P (elim o as (λ _. Exec B) [ none ↦ x | some v ↦ f v ])
  Appends-option none x f hx hf = hx
  Appends-option (some v) x f hx hf = hf v

  continue-Extends :
      (r : Outcome A) (f : A → Exec B) {s : Store} (n : Machine)
      → ((v : A) → Appends P (f v))
      → Extends P s n.store
      → Extends P s (continue r f n).1.store
  continue-Extends (returned v) f n k h = Extends-trans h ((k v).at n h.sound)
  continue-Extends (raised x) f n k h = h
  continue-Extends parked f n k h = h

  pub Appends-bind :
      (a : Exec A) (f : A → Exec B)
      → Appends P a
      → ((v : A) → Appends P (f v))
      → Appends P (a >>= f)
  unfolding ◌>>=◌
  Appends-bind a f ha k = record { at = λ m h. continue-Extends (a m).0 f (a m).1 k (ha.at m h) }

module _ {P : String → Type 0} where
  -- A change of the store that leaves the journals alone.
  pub Appends-store :
      (f : Store → Store)
      → ((s : Store) → ((f s).events ≡ s.events) × ((f s).event_cache ≡ s.event_cache))
      → Appends P (with_store f)
  Appends-store f still = record { at = λ m h. Extends-same (still m.store).0 (still m.store).1 h }

  pub Appends-record :
      (run_id : String) (type : EventType) (d : Fields)
      → P run_id
      → Appends P (record_event run_id type d)
  Appends-record run_id type d mine = record {
    at = λ m h.
        let e = new_event run_id type d m.now in
        let c = commit-Commits e m in rw c.store (Extends-append m.store e mine h);
  }

  -- Driving a run by an engine of that run.
  pub drive-Appends :
      (env : Env) (w : Workflow) (m : Machine)
      → P m.engine.run_id
      → IsSound m.store
      → Extends P m.store (drive env w m).1.store
  drive-Appends env w m mine h =
      let d = drive-Drives env w m h in
      record {
        rows = d.rows;
        events = d.events;
        own =
            All-map (λ (r : Row) (same : r.run_id ≡ m.engine.run_id). rw same mine) d.rows d.belong;
        sound = d.sound h;
      }
