-- ===== src/Replay/Commit.antt =====
-- What `_commit` of replay/engine.py leaves: the store after the append, and all else but the injector
-- as it was, whether or not an armed crash fires behind it.
use satay_runtime.Prelude.{◌+◌, String, ◌≡◌, refl, sym, ◌∙◌, ap, [], ◌∷◌, ◌++◌, arith, inl, inr}
use satay_runtime.Value.{dict}
use satay_runtime.Errors.{Result, Result-cases}
use satay_runtime.Journal.Codec.{encode}
use satay_runtime.Journal.Events.{Event, with_seq, type_value}
use satay_runtime.Journal.Store
use satay_runtime.Journal.Store.{Store, Row, max_seq, rows_of}
use satay_runtime.Journal.Store.Append.{row_for, append-encoded, append-refused}
use satay_runtime.Replay.Machine.{Machine, commit, reached, appended}

-- The parts of the state that a commit changes.
pub record Commits (e : Event) (m m' : Machine) : Type 0 where
  pub store : m'.store ≡ (Store.append m.store e).1
  pub engine : m'.engine ≡ m.engine
  pub executions : m'.executions ≡ m.executions
  pub now : m'.now ≡ m.now

-- The injector's part of it.
record Reaches (m m' : Machine) : Type 0 where
  pub store : m'.store ≡ m.store
  pub engine : m'.engine ≡ m.engine
  pub executions : m'.executions ≡ m.executions
  pub now : m'.now ≡ m.now

reached-Reaches : (t : String) (m : Machine) → Reaches m (reached t m).1
unfolding reached
reached-Reaches t m = record {
  store = ground arith;
  engine = ground arith;
  executions = ground arith;
  now = ground arith;
}

pub commit-Commits : (e : Event) (m : Machine) → Commits e m (commit e m).1
unfolding commit appended
commit-Commits e m = elim (Result-cases (encode "$" (dict e.payload))) [
  | inl (json, done) ↦
      let stored = with_seq e (max_seq (rows_of m.store.events e.run_id) + 1) in
      let written : Machine = record m {
        store = record m.store { events = m.store.events ++ row_for m.store e json ∷ [] };
      } in
      let h = reached-Reaches (type_value stored.type) written in
      rw (append-encoded m.store e json done) (record {
        store =
            h.store
            ∙ sym (ap (λ (p : Result Event × Store). p.1) (append-encoded m.store e json done));
        engine = h.engine;
        executions = h.executions;
        now = h.now;
      })
  | inr (x, refused) ↦ rw (append-refused m.store e x refused) (record {
    store = sym (ap (λ (p : Result Event × Store). p.1) (append-refused m.store e x refused));
    engine = refl;
    executions = refl;
    now = refl;
  })
]
