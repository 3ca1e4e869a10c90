-- ===== src/Journal/Store/Reach.antt =====
-- Sequences of calls of the store's methods that write (journal/store.py), from an empty database.
use satay_runtime.Prelude.{ℕ, String, ◌≡◌, refl, List, [], ◌∷◌}
use satay_runtime.Journal.Events.{
  Event, RunRecord, RunStatus, TimerRecord, TimerStatus, InboxEventRecord,
}
use satay_runtime.Journal.Store.{
  Store, empty, create_run, append, set_status, read_events, delete_run, add_timer,
  set_timer_status, add_inbox_event, consume_inbox_event, rows_to_events, journal,
}
use satay_runtime.Journal.Store.Rows.{IsNumbered}
use satay_runtime.Journal.Store.Append.{append-IsNumbered}
use satay_runtime.Journal.Store.Cache.{
  IsCoherent, read_events-eq-journal, events-read_events, append-IsCoherent,
}
use satay_runtime.Journal.Store.Deletion.{delete_run-IsNumbered, delete_run-IsCoherent}
use satay_runtime.Prelude.Dict
use satay_runtime.Prelude.{arith}

pub data Call : Type 0 where
  creates : RunRecord → Call
  appends : Event → Call
  sets_status : String → RunStatus → Call
  reads deletes : String → Call
  adds_timer : TimerRecord → Call
  sets_timer_status : String → TimerStatus → Call
  adds_inbox_event : InboxEventRecord → Call
  consumes : ℕ → Call

unfoldable pub perform : Store → Call → Store
perform s (creates r) = create_run s r
perform s (appends e) = (append s e).1
perform s (sets_status run_id status) = set_status s run_id status
perform s (reads run_id) = (read_events s run_id).1
perform s (deletes run_id) = (delete_run s run_id).1
perform s (adds_timer t) = add_timer s t
perform s (sets_timer_status timer_id status) = set_timer_status s timer_id status
perform s (adds_inbox_event e) = (add_inbox_event s e).1
perform s (consumes row_id) = consume_inbox_event s row_id

unfoldable pub after : Store → List Call → Store
unfolding perform
after s [] = s
after s (c ∷ cs) = after (perform s c) cs

-- The numbers and the cache are in order.
pub record IsSound (s : Store) : Type 0 where
  pub numbered : IsNumbered s
  pub coherent : IsCoherent s

-- Both speak of the rows and the cache alone.
pub same_rows :
    {s t : Store} → s.events ≡ t.events → s.event_cache ≡ t.event_cache → IsSound s → IsSound t
same_rows e c h = record {
  numbered = record { at = λ j. rw (← e) (h.numbered.at j) };
  coherent = record { at = λ j. rw (← e, ← c) (h.coherent.at j) };
}

pub read-IsSound : (s : Store) (run_id : String) → IsSound s → IsSound (read_events s run_id).1
read-IsSound s run_id h = record {
  numbered = record { at = λ j. rw (events-read_events s run_id) (h.numbered.at j) };
  coherent = (read_events-eq-journal s run_id h.numbered h.coherent).1;
}

pub append-IsSound : (s : Store) (e : Event) → IsSound s → IsSound (append s e).1
append-IsSound s e h = record {
  numbered = append-IsNumbered s e h.numbered;
  coherent = append-IsCoherent s e h.coherent;
}

perform-IsSound : (s : Store) (c : Call) → IsSound s → IsSound (perform s c)
unfolding perform
perform-IsSound s (creates r) h = unfold create_run in same_rows (ground arith) (ground arith) h
perform-IsSound s (appends e) h = append-IsSound s e h
perform-IsSound s (sets_status run_id status) h = unfold set_status in same_rows refl refl h
perform-IsSound s (reads run_id) h = read-IsSound s run_id h
perform-IsSound s (deletes run_id) h = record {
  numbered = delete_run-IsNumbered s run_id h.numbered;
  coherent = delete_run-IsCoherent s run_id h.coherent;
}
perform-IsSound s (adds_timer t) h = unfold add_timer in same_rows (ground arith) (ground arith) h
perform-IsSound s (sets_timer_status timer_id status) h =
    unfold set_timer_status in same_rows refl refl h
perform-IsSound s (adds_inbox_event e) h = unfold add_inbox_event in same_rows refl refl h
perform-IsSound s (consumes row_id) h = unfold consume_inbox_event in same_rows refl refl h

pub after-IsSound : (cs : List Call) (s : Store) → IsSound s → IsSound (after s cs)
unfolding after
after-IsSound [] s h = h
after-IsSound (c ∷ cs) s h = after-IsSound cs (perform s c) (perform-IsSound s c h)

pub empty-IsSound : IsSound empty
empty-IsSound = record {
  numbered = record { at = λ j. tt };
  coherent = record {
    at = λ j. record {
      pre = [];
      post = [];
      split = refl;
      decoded = unfold rows_to_events Dict.get in refl;
    };
  };
}

-- After any sequence of the store's calls on an empty database, deletions and refused appends
-- included, the rows of each run are numbered 1, 2, 3, … and read_events returns, cache or no cache,
-- what decoding all rows of the run returns, errors included.
pub reachable_reads :
    (cs : List Call) (run_id : String)
    → IsNumbered (after empty cs)
      × ((read_events (after empty cs) run_id).0 ≡ journal (after empty cs) run_id)
reachable_reads cs run_id =
    let h = after-IsSound cs empty empty-IsSound in
    (h.numbered, (read_events-eq-journal (after empty cs) run_id h.numbered h.coherent).0)
