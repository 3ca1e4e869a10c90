-- ===== src/Replay/Growth/Runs.antt =====
-- `drive` on a run's journal: it adds events of its run, and at most one terminal event, at the end.
use satay_runtime.Prelude.{
  ◌≤◌, String, ◌≡◌, ◌≢◌, refl, sym, subst, ◌∙◌, ap, ◌⊎◌, none, List, [], ◌∷◌, ◌++◌, append-nil,
  append_assoc, arith, inl, inr, if◌then◌else◌, string_eq, ◌==◌, All, All-append, length,
  str_eq_iff, ==_refl, ==_ne, filter-append, Option-cases,
}
use satay_runtime.Value.{Fields}
use satay_runtime.Errors.{ok, Result-cases, >>=-eq-ok}
use satay_runtime.Journal.Events.{Event, EventType}
use satay_runtime.Journal.Store
use satay_runtime.Journal.Store.{Store, Row, rows_of, rows_to_events, row_to_event}
use satay_runtime.Journal.Store.Rows.{rows_to_events-cons, row_to_event-eq-ok}
use satay_runtime.Journal.Store.Cache.{read_events-eq-journal, events-read_events}
use satay_runtime.Journal.Store.Reach.{IsSound, same_rows, read-IsSound}
use satay_runtime.Replay.Load.{load_payload, load_journal}
use satay_runtime.Replay.Machine.{Env, Engine, Machine, ◌>>=◌}
use satay_runtime.Replay.Drive.{
  Workflow, run, finish, resume, drive, terminal_status, recorded_terminal_status,
}
use satay_runtime.Replay.Growth.Ends.{run-Keeps, finish-Ends}

-- No event is behind a terminal one.
abbrev pub Final : List Row → Type 0
Final [] = Unit
Final (r ∷ rs) = ((terminal_status r.type ≡ none) ⊎ (rs ≡ [])) × Final rs

abbrev IsUnfinished : List Row → Type 0
IsUnfinished rows = All (λ (r : Row). terminal_status r.type ≡ none) rows

Final-append : (xs ys : List Row) → IsUnfinished xs → length ys ≤ 1 → Final (xs ++ ys)
Final-append [] [] h short = tt
Final-append [] (y ∷ []) h short = (inr refl, tt)
Final-append [] (y ∷ z ∷ ys) h short = absurd (omega arith)
Final-append (x ∷ xs) ys h short = (inl h.0, Final-append xs ys h.1 short)

pub rows_of-own :
    (rows : List Row) (own j : String)
    → All (λ (r : Row). r.run_id ≡ own) rows
    → rows_of rows j ≡ (if own == j then rows else [])
rows_of-own [] own j h = ground arith
rows_of-own (r ∷ rows) own j h = ground (arith, h.0, rows_of-own rows own j h.1, str_eq_iff own j)

load_payload-run_id :
    (t : EventType) (d : Fields) (g g' : Engine) → load_payload t d g ≡ ok g' → g'.run_id ≡ g.run_id
unfolding load_payload
load_payload-run_id t d g g' h = ground arith

pub load_journal-run_id :
    (es : List Event) (g g' : Engine) → load_journal es g ≡ ok g' → g'.run_id ≡ g.run_id
unfolding load_journal
load_journal-run_id [] g g' h = let same : g ≡ g' = cc in rw same
load_journal-run_id (e ∷ es) g g' h =
    let (g1, first, rest) = >>=-eq-ok (load_payload e.type e.payload g) _ h in
    load_journal-run_id es g1 g' rest ∙ load_payload-run_id e.type e.payload g g1 first

read-IsUnfinished :
    (rows : List Row) (es : List Event)
    → rows_to_events rows ≡ ok es
    → recorded_terminal_status es ≡ none
    → IsUnfinished rows
unfolding recorded_terminal_status
read-IsUnfinished [] es h none_yet = tt
read-IsUnfinished (r ∷ rows) es h none_yet =
    let (e, rest, read, others, same) = rows_to_events-cons r rows es h in
    let (seq, type, run_id, ts) = row_to_event-eq-ok r e read in
    let now = rw same at none_yet in
    (ground (arith, type), read-IsUnfinished rows rest others (ground arith))

-- What `drive` leaves: rows of its run are added, and no row follows a terminal one.
pub record Drives (own : String) (s t : Store) : Type 0 where
  pub rows : List Row
  pub events : t.events ≡ s.events ++ rows
  pub belong : All (λ (r : Row). r.run_id ≡ own) rows
  pub sound : IsSound s → IsSound t
  pub final : Final (rows_of s.events own) → Final (rows_of s.events own ++ rows)

Drives-same :
    {own : String} {s t : Store} → t.events ≡ s.events → (IsSound s → IsSound t) → Drives own s t
Drives-same {own} {s} {t} same sound = record {
  sound = sound;
  rows = [];
  events = same ∙ sym (append-nil s.events);
  belong = tt;
  final = λ h. rw (append-nil (rows_of s.events own)) h;
}

run-finish-Drives :
    (env : Env) (w : Workflow) (m : Machine)
    → IsUnfinished (rows_of m.store.events m.engine.run_id)
    → Drives m.engine.run_id m.store (finish env (run env w m).0 (run env w m).1).1.store
run-finish-Drives env w m unfinished =
    let own = m.engine.run_id in
    let ran = (run-Keeps env w).at m refl in
    let ended = finish-Ends env (run env w m).0 (run env w m).1 in
    let belongs = rw ran.run_id at ended.belong in
    record {
      rows = ran.rows ++ ended.last;
      sound = λ h. ended.sound (ran.sound h);
      events =
          ended.events
          ∙ ap (λ xs. xs ++ ended.last) ran.events
          ∙ append_assoc m.store.events ran.rows ended.last;
      belong = All-append (λ (r : Row). r.run_id ≡ own) ran.rows ended.last ran.own belongs;
      final = λ h. rw (← append_assoc (rows_of m.store.events own) ran.rows ended.last) (
          Final-append (rows_of m.store.events own ++ ran.rows) ended.last
            (All-append (λ (r : Row). terminal_status r.type ≡ none) (rows_of m.store.events own)
              ran.rows unfinished ran.unfinished)
            ended.short);
    }

Drives-from :
    {own : String} {s t u : Store}
    → t.events ≡ s.events
    → (IsSound s → IsSound t)
    → Drives own t u
    → Drives own s u
Drives-from {own} {s} {t} {u} same sound h = record {
  sound = λ k. h.sound (sound k);
  rows = h.rows;
  events = rw (← same) h.events;
  belong = h.belong;
  final = rw (← same) h.final;
}

resume-Drives :
    (env : Env) (w : Workflow) (es : List Event) (m : Machine)
    → rows_to_events (rows_of m.store.events m.engine.run_id) ≡ ok es
    → Drives m.engine.run_id m.store (resume env w es m).1.store
unfolding resume ◌>>=◌ Store.set_status
resume-Drives env w es m read = elim (Option-cases (recorded_terminal_status es)) [
  | inr (status, ended) ↦ rw (ended, resume) (Drives-same refl (same_rows refl refl))
  | inl unended ↦ elim (Result-cases (load_journal es m.engine)) [
    | inr (x, failed) ↦ rw (unended, failed, resume) (Drives-same refl (same_rows refl refl))
    | inl (g, loaded) ↦
        let same : g.run_id ≡ m.engine.run_id = load_journal-run_id es m.engine g loaded in
        let driven =
          run-finish-Drives env w (record m { engine = g })
            (rw same
              (read-IsUnfinished (rows_of m.store.events m.engine.run_id) es read unended)) in
        rw (unended, loaded, resume)
          (subst
            (λ own.
              Drives own m.store
                (finish env (run env w (record m { engine = g })).0
                  (run env w (record m { engine = g })).1).1.store)
            same driven)
  ]
]

pub drive-Drives :
    (env : Env) (w : Workflow) (m : Machine)
    → IsSound m.store
    → Drives m.engine.run_id m.store (drive env w m).1.store
unfolding drive ◌>>=◌
drive-Drives env w m sound =
    let own = m.engine.run_id in
    let reads = (read_events-eq-journal m.store own sound.numbered sound.coherent).0 in
    let same = events-read_events m.store own in
    elim (Result-cases (Store.read_events m.store own).0) [
      | inr (x, failed) ↦ rw failed (Drives-same same (read-IsSound m.store own))
      | inl (es, read) ↦
          let n : Machine = record m { store = (Store.read_events m.store own).1 } in
          rw read (
            Drives-from same (read-IsSound m.store own)
              (resume-Drives env w es n (rw same (sym reads ∙ read))))
    ]

-- From a store in order, driving a run, wherever a crash or an error stops it, leaves the store in
-- order, only adds rows to its own journal and leaves every other run's rows alone; and where no
-- event of the journal follows a terminal one before, none does afterwards.
pub drive-Final :
    (env : Env) (w : Workflow) (m : Machine)
    → IsSound m.store
    → Final (rows_of m.store.events m.engine.run_id)
    → IsSound (drive env w m).1.store
      × Final (rows_of (drive env w m).1.store.events m.engine.run_id)
      × ((rows : List Row) × (rows_of (drive env w m).1.store.events m.engine.run_id
            ≡ rows_of m.store.events m.engine.run_id ++ rows))
      × ((j : String)
          → j ≢ m.engine.run_id
          → rows_of (drive env w m).1.store.events j ≡ rows_of m.store.events j)
drive-Final env w m sound final =
    let h = drive-Drives env w m sound in
    let own = m.engine.run_id in
    let at = λ (j : String).
      ap (λ xs. rows_of xs j) h.events
      ∙ filter-append (λ (r : Row). r.run_id == j) m.store.events h.rows in
    let mine =
      at own
      ∙ ap (λ xs. rows_of m.store.events own ++ xs)
          (rows_of-own h.rows own own h.belong ∙ rw (==_refl own) refl) in
    (
      h.sound sound,
      rw mine (h.final final),
      (h.rows, mine),
      λ j other.
          at j
          ∙ ap (λ xs. rows_of m.store.events j ++ xs)
              (rows_of-own h.rows own j h.belong ∙ rw (==_ne own j (λ e. other (sym e))) refl)
          ∙ append-nil _,
    )
