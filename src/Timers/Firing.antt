-- ===== src/Timers/Firing.antt =====
-- A timer fires once, however often it is found due (timers/__init__.py).
use satay_runtime.Prelude.{
  ℕ, ◌+◌, ◌≡◌, refl, ◌∙◌, Bool, true, false, ◌&&◌, ◌||◌, List, [], ◌∷◌, ◌++◌, any, any-append,
  arith, Bool-cases, inl, inr, ==_refl, string_eq, length,
}
use satay_runtime.Value.{get}
use satay_runtime.Errors.{Result, ok, raise}
use satay_runtime.Journal.Events.{Event, TimerRecord, kind_value}
use satay_runtime.Journal.Store
use satay_runtime.Journal.Store.{Store, journal, rows_of}
use satay_runtime.Journal.Store.Append.{journal-append, append-IsNumbered, recorded}
use satay_runtime.Journal.Store.Cache.{
  read_events-eq-journal, events-read_events, append-IsCoherent,
}
use satay_runtime.Journal.Store.Reach.{IsSound, same_rows, read-IsSound}
use satay_runtime.Timers.{
  fire_one, fire_read, is_timer_fired, is_text, settle, has_timer_fired,
  has_external_event_received, fired_event, is_event_timeout,
}

-- A timer whose wait is over, by its event or by a firing, is only settled.
abbrev is_over : TimerRecord → List Event → Bool
is_over t events =
    (is_event_timeout t.kind && has_external_event_received events t.identity)
    || has_timer_fired events t.identity t.kind

fire_one-read :
    (t : TimerRecord) (now : ℕ) (s : Store) (events : List Event)
    → IsSound s
    → journal s t.run_id ≡ ok events
    → fire_one t now s ≡ fire_read t now events (Store.read_events s t.run_id).1
unfolding fire_one
fire_one-read t now s events h read =
    let reads = (read_events-eq-journal s t.run_id h.numbered h.coherent).0 ∙ read in
    rw (reads, fire_one) refl

fire_read-over :
    (t : TimerRecord) (now : ℕ) (events : List Event) (s : Store)
    → is_over t events ≡ true
    → ((fire_read t now events s).0 ≡ ok false) × ((fire_read t now events s).1.events ≡ s.events)
unfolding fire_read Store.set_timer_status
fire_read-over t now events s over =
    elim (Bool-cases (is_event_timeout t.kind && has_external_event_received events t.identity)) [
      | inl resolved ↦ rw (resolved, fire_read) (refl, refl)
      | inr unresolved ↦
          let done : has_timer_fired events t.identity t.kind ≡ true = ground arith in
          rw (unresolved, done, fire_read) (refl, refl)
    ]

fire_one-over :
    (t : TimerRecord) (now : ℕ) (s : Store) (events : List Event)
    → IsSound s
    → journal s t.run_id ≡ ok events
    → is_over t events ≡ true
    → ((fire_one t now s).0 ≡ ok false) × ((fire_one t now s).1.events ≡ s.events)
fire_one-over t now s events h read over =
    let (r, same) = fire_read-over t now events (Store.read_events s t.run_id).1 over in
    rw (fire_one-read t now s events h read) (r, same ∙ events-read_events s t.run_id)

-- The event of a timer that is read back shows it as fired.
fired-is_over :
    (t : TimerRecord) (now n : ℕ) (events : List Event)
    → is_over t (events ++ recorded (fired_event t now) n ∷ []) ≡ true
unfolding has_timer_fired get
fired-is_over t now n events =
    let shows = λ (e : Event).
      is_timer_fired e.type
      && (is_text e.payload "identity" t.identity
          && is_text e.payload "kind" (kind_value t.kind)) in
    let found : any shows (recorded (fired_event t now) n ∷ []) ≡ true =
      rw (==_refl t.identity, ==_refl (kind_value t.kind)) refl in
    rw (any-append shows events (recorded (fired_event t now) n ∷ []), found) (ground arith)

settle-IsSound :
    (t : TimerRecord) (r : Result Event) (s : Store) → IsSound s → IsSound (settle t (r, s)).1
unfolding Store.set_timer_status
settle-IsSound t (raise e) s h = h
settle-IsSound t (ok stored) s h = same_rows refl refl h

fire_read-IsSound :
    (t : TimerRecord) (now : ℕ) (events : List Event) (s : Store)
    → IsSound s
    → IsSound (fire_read t now events s).1
unfolding fire_read Store.set_timer_status
fire_read-IsSound t now events s h =
    elim (Bool-cases (is_event_timeout t.kind && has_external_event_received events t.identity)) [
      | inl resolved ↦ rw (resolved, fire_read) (same_rows refl refl h)
      | inr unresolved ↦ elim (Bool-cases (has_timer_fired events t.identity t.kind)) [
        | inl done ↦ rw (unresolved, done, fire_read) (same_rows refl refl h)
        | inr undone ↦
            let e = fired_event t now in
            rw (unresolved, undone, fire_read)
              (settle-IsSound t (Store.append s e).0 (Store.append s e).1 (record {
                numbered = append-IsNumbered s e h.numbered;
                coherent = append-IsCoherent s e h.coherent;
              }))
      ]
    ]

-- The first firing leaves a journal that shows the timer as over.
fire_read-leaves :
    (t : TimerRecord) (now : ℕ) (events : List Event) (s : Store)
    → IsSound s
    → journal s t.run_id ≡ ok events
    → (after : List Event) × (journal (fire_read t now events s).1 t.run_id ≡ ok after)
      × (is_over t after ≡ true)
unfolding fire_read Store.set_timer_status get
fire_read-leaves t now events s h read =
    elim (Bool-cases (is_event_timeout t.kind && has_external_event_received events t.identity)) [
      | inl resolved ↦ (events, rw (resolved, fire_read) read, rw resolved refl)
      | inr unresolved ↦ elim (Bool-cases (has_timer_fired events t.identity t.kind)) [
        | inl done ↦ (events, rw (unresolved, done, fire_read) read, rw (unresolved, done) refl)
        | inr undone ↦
            let e = fired_event t now in
            let n = length (rows_of s.events t.run_id) + 1 in
            let (stored, all) = journal-append s e h.numbered refl (tt, (tt, (tt, (tt, tt)))) in
            (
              events ++ recorded e n ∷ [],
              rw (unresolved, undone, fire_read, stored)
                  (all t.run_id ∙ rw (==_refl t.run_id, read) refl),
              fired-is_over t now n events,
            )
      ]
    ]

-- Firing a timer once more returns false and appends nothing, for a store in order whose run can be
-- read.
pub fire_one-twice :
    (t : TimerRecord) (now later : ℕ) (s : Store) (events : List Event)
    → IsSound s
    → journal s t.run_id ≡ ok events
    → ((fire_one t later (fire_one t now s).1).0 ≡ ok false)
      × ((fire_one t later (fire_one t now s).1).1.events ≡ (fire_one t now s).1.events)
fire_one-twice t now later s events h read =
    let s1 = (Store.read_events s t.run_id).1 in
    let h1 = read-IsSound s t.run_id h in
    let read1 : journal s1 t.run_id ≡ ok events = rw (events-read_events s t.run_id) read in
    let (after, left, over) = fire_read-leaves t now events s1 h1 read1 in
    rw (fire_one-read t now s events h read) (
      fire_one-over t later (fire_read t now events s1).1 after
        (fire_read-IsSound t now events s1 h1) left over)
