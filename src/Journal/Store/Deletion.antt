-- ===== src/Journal/Store/Deletion.antt =====
-- `delete_run` of journal/store.py.
use satay_runtime.Prelude.{
  String, ◌≡◌, refl, ◌⊎◌, true, false, not, none, some, [], arith, filter, Bool-cases, Option-cases,
  inl, inr, ◌==◌, string_eq, if◌then◌else◌,
}
use satay_runtime.Prelude.Dict
use satay_runtime.Prelude.Dict.{get-remove}
use satay_runtime.Errors.{ok, raise, lookup_error, value_error}
use satay_runtime.Journal.Events.{RunRecord, is_terminal}
use satay_runtime.Journal.Store.{Store, delete_run, get_run, rows_to_events, journal, cached}
use satay_runtime.Journal.Store.Rows.{IsNumbered}
use satay_runtime.Journal.Store.Cache.{IsCoherent, rows_of-without}

-- The store after the rows of a run are gone.
abbrev pub without : Store → String → Store
without s run_id = record s {
  runs = filter (λ q. not (q.run_id == run_id)) s.runs;
  events = filter (λ q. not (q.run_id == run_id)) s.events;
  event_cache = Dict.remove s.event_cache run_id;
}

cached-without :
    (s : Store) (run_id j : String)
    → cached (without s run_id) j ≡ (if run_id == j then [] else cached s j)
cached-without s run_id j = ground (arith, get-remove s.event_cache run_id j)

without-IsNumbered : (s : Store) (run_id : String) → IsNumbered s → IsNumbered (without s run_id)
without-IsNumbered s run_id h = record {
  at = λ j.
      rw (rows_of-without s.events run_id j)
        (elim (Bool-cases (run_id == j)) [ inl same ↦ rw same tt | inr other ↦ rw other (h.at j) ]);
}

without-IsCoherent : (s : Store) (run_id : String) → IsCoherent s → IsCoherent (without s run_id)
without-IsCoherent s run_id c = record {
  at = λ j.
      rw (rows_of-without s.events run_id j, cached-without s run_id j)
        (elim (Bool-cases (run_id == j)) [
          | inl same ↦ rw same (record {
            pre = [];
            post = [];
            split = refl;
            decoded = unfold rows_to_events in refl;
          })
          | inr other ↦ rw other (c.at j)
        ]);
}

-- A deletion is refused with LookupError for an unknown run and with ValueError for one that is not
-- terminal, and then changes nothing; a terminal run's rows are removed.
pub delete_run-cases :
    (s : Store) (run_id : String)
    → ((get_run s run_id ≡ none) × (delete_run s run_id ≡ (raise (lookup_error run_id), s)))
      ⊎ ((r : RunRecord) × (get_run s run_id ≡ some r)
          × (is_terminal r.status ≡ false)
          × (delete_run s run_id ≡ (raise (value_error run_id), s)))
      ⊎ ((r : RunRecord) × (get_run s run_id ≡ some r)
          × (is_terminal r.status ≡ true)
          × (delete_run s run_id ≡ (ok tt, without s run_id)))
unfolding delete_run
delete_run-cases s run_id = elim (Option-cases (get_run s run_id)) [
  | inl missing ↦ inl (missing, rw (missing, delete_run))
  | inr (r, found) ↦ elim (Bool-cases (is_terminal r.status)) [
    | inl done ↦ inr (inr (r, found, done, rw (found, delete_run, done)))
    | inr live ↦ inr (inl (r, found, live, rw (found, delete_run, live)))
  ]
]

-- A deletion that returns leaves no rows of the run, and every other run's journal as it was.
pub journal-delete_run :
    (s : Store) (run_id j : String)
    → (delete_run s run_id).0 ≡ ok tt
    → journal (delete_run s run_id).1 j ≡ (if run_id == j then ok [] else journal s j)
journal-delete_run s run_id j h = elim (delete_run-cases s run_id) [
  | inl (missing, e) ↦ let h' = rw e at h in cc
  | inr (inl (r, found, live, e)) ↦ let h' = rw e at h in cc
  | inr (inr (r, found, done, e)) ↦
      rw (e, rows_of-without s.events run_id j)
        (elim (Bool-cases (run_id == j)) [
          | inl same ↦ rw same (unfold rows_to_events in refl)
          | inr other ↦ rw other
        ])
]

pub delete_run-IsNumbered :
    (s : Store) (run_id : String) → IsNumbered s → IsNumbered (delete_run s run_id).1
delete_run-IsNumbered s run_id h = elim (delete_run-cases s run_id) [
  | inl (missing, e) ↦ rw e h
  | inr (inl (r, found, live, e)) ↦ rw e h
  | inr (inr (r, found, done, e)) ↦ rw e (without-IsNumbered s run_id h)
]

pub delete_run-IsCoherent :
    (s : Store) (run_id : String) → IsCoherent s → IsCoherent (delete_run s run_id).1
delete_run-IsCoherent s run_id c = elim (delete_run-cases s run_id) [
  | inl (missing, e) ↦ rw e c
  | inr (inl (r, found, live, e)) ↦ rw e c
  | inr (inr (r, found, done, e)) ↦ rw e (without-IsCoherent s run_id c)
]
