-- ===== src/Timers/Growth.antt =====
-- The worker's poll loop (timers/__init__.py and control/commands.py) only adds to the journals.
use satay_runtime.Prelude.{String, ℕ, ◌≡◌, refl, List, [], ◌∷◌, ◌++◌, ◌&&◌, inl, inr, Bool-cases}
use satay_runtime.Errors.{Result, ok, raise, Result-cases}
use satay_runtime.Journal.Events.{is_terminal, TimerRecord, TimerStatus, Event}
use satay_runtime.Journal.Store
use satay_runtime.Journal.Store.{Store, rows_of, Row}
use satay_runtime.Journal.Store.Reach.{IsSound}
use satay_runtime.Replay.Appends.{
  Extends, Appends, Extends-refl, Extends-trans, Extends-same, Extends-read, Extends-append,
  Extends-rows_of, Appends-bind, Appends-return, Appends-lift, Appends-if, Appends-option,
  Appends-state, Appends-query,
}
use satay_runtime.Api.Runner.{Process}
use satay_runtime.Api.Growth.{read_run-Appends}
use satay_runtime.Control.Commands.{Command}
use satay_runtime.Timers.{
  fire_one, fire_read, settle, fired_event, has_timer_fired, has_external_event_received,
  is_event_timeout,
}
use satay_runtime.Timers.Worker.{
  Worker, tick, work, redrive, deliver_to, deliver_one, deliver_to_all, deliver_events, fire_all,
  resume_one, resume_all, fire_timers, noted,
}
use satay_runtime.Control.Writes.{
  Every, on_store-Appends, drive_recorded-Appends, apply_commands-Appends,
}

set_timer_status_same :
    (timer_id : String) (status : TimerStatus) {s t : Store}
    → Extends Every s t
    → Extends Every s (Store.set_timer_status t timer_id status)
unfolding Store.set_timer_status
set_timer_status_same timer_id status h = Extends-trans h (Extends-same refl refl h.sound)

fire_read-Extends :
    (t : TimerRecord) (now : ℕ) (events : List Event) (s : Store)
    → IsSound s
    → Extends Every s (fire_read t now events s).1
unfolding fire_read
fire_read-Extends t now events s h =
    elim (Bool-cases (is_event_timeout t.kind && has_external_event_received events t.identity)) [
      | inl resolved ↦
          rw (resolved, fire_read) (set_timer_status_same t.timer_id _ (Extends-refl h))
      | inr open_wait ↦ elim (Bool-cases (has_timer_fired events t.identity t.kind)) [
        | inl again ↦
            rw (open_wait, again, fire_read) (set_timer_status_same t.timer_id _ (Extends-refl h))
        | inr first ↦
            rw (open_wait, first, fire_read)
              (settle-Extends _ (Extends-append s (fired_event t now) tt h))
      ]
    ]
  where
    settle-Extends :
        (r : Result Event × Store) → Extends Every s r.1 → Extends Every s (settle t r).1
    settle-Extends (raise e, u) k = k
    settle-Extends (ok e, u) k = set_timer_status_same t.timer_id _ k

fire_one-Extends :
    (t : TimerRecord) (now : ℕ) (s : Store) → IsSound s → Extends Every s (fire_one t now s).1
unfolding fire_one
fire_one-Extends t now s h =
    let seen = Extends-read s t.run_id h in
    elim (Result-cases (Store.read_events s t.run_id).0) [
      | inr (x, failed) ↦ rw (failed, fire_one) seen
      | inl (events, read) ↦
          rw (read, fire_one) (Extends-trans seen (fire_read-Extends t now events _ seen.sound))
    ]

fire_all-Appends : (ts : List TimerRecord) (runs : List String) → Appends Every (fire_all ts runs)
unfolding fire_all
fire_all-Appends [] runs = Appends-return _
fire_all-Appends (t ∷ ts) runs =
    Appends-bind _ _
      (Appends-state _
        (λ m. on_store-Appends (fire_one t m.now) (λ s h. fire_one-Extends t m.now s h)))
      (λ again. fire_all-Appends ts (noted again t.run_id runs))

module _ (p : Process) where
  redrive-Appends : (run_id : String) → Appends Every (redrive p run_id)
  unfolding redrive
  redrive-Appends run_id = Appends-state _ (λ m.
      Appends-option (Store.get_run m.store run_id) _ _ (Appends-return _) (λ r.
        Appends-if (is_terminal r.status) _ _ (Appends-return _) (
          Appends-option (p.get_workflow r.workflow_name) _ _ (Appends-return _)
            (λ w. drive_recorded-Appends p run_id w))))

  deliver_to-Appends : (run_id : String) → Appends Every (deliver_to p run_id)
  unfolding deliver_to
  deliver_to-Appends run_id = Appends-bind _ _ (read_run-Appends run_id) (λ events.
      Appends-bind _ _ (Appends-lift _) (λ waits. Appends-bind _ _ (Appends-query _) (λ matched.
        Appends-if matched _ _ (Appends-bind _ _ (redrive-Appends run_id) (λ u. Appends-return _))
          (Appends-return _))))

  deliver_one-Appends : (run_id : String) → Appends Every (deliver_one p run_id)
  unfolding deliver_one
  deliver_one-Appends run_id = Appends-state _ (λ m.
      Appends-option (Store.get_run m.store run_id) _ _ (Appends-return _)
        (λ r. Appends-if (is_terminal r.status) _ _ (Appends-return _) (deliver_to-Appends run_id)))

  deliver_to_all-Appends : (run_ids : List String) → Appends Every (deliver_to_all p run_ids)
  unfolding deliver_to_all
  deliver_to_all-Appends [] = Appends-return _
  deliver_to_all-Appends (run_id ∷ run_ids) =
      Appends-bind _ _ (deliver_one-Appends run_id)
        (λ n. Appends-bind _ _ (deliver_to_all-Appends run_ids) (λ k. Appends-return _))

  resume_one-Appends : (run_id : String) → Appends Every (resume_one p run_id)
  unfolding resume_one
  resume_one-Appends run_id = Appends-state _ (λ m.
      Appends-option (Store.get_run m.store run_id) _ _ (Appends-return _) (λ r.
        Appends-if (is_terminal r.status) _ _ (Appends-return _)
          (Appends-bind _ _ (redrive-Appends run_id) (λ u. Appends-return _))))

  resume_all-Appends : (run_ids : List String) → Appends Every (resume_all p run_ids)
  unfolding resume_all
  resume_all-Appends [] = Appends-return _
  resume_all-Appends (run_id ∷ run_ids) =
      Appends-bind _ _ (resume_one-Appends run_id)
        (λ n. Appends-bind _ _ (resume_all-Appends run_ids) (λ k. Appends-return _))

  work-Appends :
      (arrange : List String → List String) (cs : List Command) → Appends Every (work p arrange cs)
  unfolding work deliver_events fire_timers
  work-Appends arrange cs = Appends-bind _ _ (apply_commands-Appends p cs) (λ u.
      Appends-bind _ _
        (Appends-bind _ _ (Appends-query _) (λ run_ids. deliver_to_all-Appends run_ids))
        (λ n.
          Appends-bind _ _
            (Appends-bind _ _ (record { at = λ m h. Extends-refl h })
              (λ due.
                Appends-bind _ _ (fire_all-Appends due [])
                  (λ runs. resume_all-Appends (arrange runs))))
            (λ k. Appends-return _)))

-- One turn of the poll loop, whatever commands it applies, runs it drives and timers it fires, and
-- wherever an error or a crash stops it, leaves a store that was in order in order, and the rows of
-- each run's journal are those that it had, followed by new ones.
pub tick-append_only :
    (p : Process) (arrange : List String → List String) (w : Worker)
    → IsSound w.machine.store
    → IsSound (tick p arrange w).1.machine.store
      × ((j : String)
          → (rows : List Row) × (rows_of (tick p arrange w).1.machine.store.events j
              ≡ rows_of w.machine.store.events j ++ rows))
unfolding tick
tick-append_only p arrange w h =
    let all = (work-Appends p arrange w.queue).at w.machine h in
    (all.sound, λ j. (rows_of all.rows j, Extends-rows_of all j))
