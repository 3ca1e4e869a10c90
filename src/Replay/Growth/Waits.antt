-- ===== src/Replay/Growth/Waits.antt =====
-- A durable sleep or event wait only adds events of its run to the journal.
use satay_runtime.Prelude.{ℕ, String, ◌≡◌, refl, Option, arith, string_eq}
use satay_runtime.Prelude.Dict
use satay_runtime.Prelude.Dict.{member}
use satay_runtime.Value.{Value, Fields, null}
use satay_runtime.Journal.Events.{
  TimerKind, event_timeout, sleep, timer_created, event_wait_started, external_event_received,
  workflow_waiting,
}
use satay_runtime.Journal.Store
use satay_runtime.Journal.Store.{Store}
use satay_runtime.Replay.Machine.{Env, Exec, parked, with_store}
use satay_runtime.Replay.Growth.{
  Keeps, Keeps-still, Keeps-return, Keeps-lift, Keeps-if, Keeps-pure, Keeps-set, Keeps-engine,
  Keeps-option, Keeps-bind, Keeps-record,
}
use satay_runtime.Replay.Waits.{
  next_ordinal, ensure_timer_row, create_timer, timer_for, record_waiting, durable_sleep,
  start_wait, wait_and_park, take_event, durable_wait_for_event, sleep_identity, event_identity,
  has_timed_out,
}

module _ {run : String} where
  still :
      (f : Store → Store)
      → ((s : Store)
          → ((f s).events ≡ s.events) × ((f s).event_cache ≡ s.event_cache) × ((f s).runs ≡ s.runs))
      → Keeps run (with_store f)
  still f same = Keeps-still _ (λ m. let (e, c, r) = same m.store in (e, c, r, refl))

  next_ordinal-Keeps : (name : String) → Keeps run (next_ordinal name)
  next_ordinal-Keeps name =
      Keeps-engine _ (λ g own. Keeps-bind _ _ (Keeps-set _ own) (λ v. Keeps-pure _))

  ensure_timer_row-Keeps : (d : Fields) → Keeps run (ensure_timer_row d)
  unfolding ensure_timer_row Store.add_timer
  ensure_timer_row-Keeps d = Keeps-engine _ (λ g own. Keeps-bind _ _ (Keeps-lift _) (λ id.
      Keeps-bind _ _ (Keeps-lift _) (λ text. Keeps-bind _ _ (Keeps-lift _) (λ kind.
        Keeps-bind _ _ (Keeps-lift _) (λ identity. Keeps-bind _ _ (Keeps-lift _) (λ fire_at.
          Keeps-bind _ _ (Keeps-still _ (λ m. (refl, refl, refl, refl)))
            (λ now. still _ (λ s. (ground arith, ground arith, ground arith)))))))))

  timer_for-Keeps :
      (env : Env) (kind : TimerKind) (identity : String) (duration : ℕ)
      → Keeps run (timer_for env kind identity duration)
  unfolding create_timer
  timer_for-Keeps env kind identity duration = Keeps-engine _ (λ g own.
      Keeps-option (Dict.get g.timers_created identity) _ _
        (Keeps-engine _ (λ g own.
          Keeps-bind _ _ (Keeps-still _ (λ m. (refl, refl, refl, refl))) (λ id.
            Keeps-bind _ _ (Keeps-still _ (λ m. (refl, refl, refl, refl))) (λ now.
              Keeps-bind _ _ (Keeps-record timer_created _ refl own) (λ v.
                Keeps-engine _ (λ g' own'.
                  Keeps-bind _ _ (Keeps-set _ own')
                    (λ w. Keeps-bind _ _ (ensure_timer_row-Keeps _) (λ x. Keeps-pure _))))))))
        (λ recorded. Keeps-bind _ _ (ensure_timer_row-Keeps recorded) (λ v. Keeps-pure recorded)))

  record_waiting-Keeps : (identity : String) (d : Fields) → Keeps run (record_waiting identity d)
  unfolding record_waiting
  record_waiting-Keeps identity d = Keeps-engine _ (λ g own.
      Keeps-if (member g.waiting_recorded identity) _ _ (Keeps-pure tt) (
        Keeps-bind _ _ (Keeps-record workflow_waiting _ refl own)
          (λ v. Keeps-engine _ (λ g' own'. Keeps-set _ own'))))

  pub durable_sleep-Keeps : (env : Env) (duration : ℕ) → Keeps run (durable_sleep env duration)
  unfolding durable_sleep
  durable_sleep-Keeps env duration = Keeps-bind _ _ (next_ordinal-Keeps "sleep") (λ n.
      Keeps-engine _ (λ g own.
        Keeps-option (Dict.get g.timers_fired (sleep_identity n)) _ _
          (Keeps-bind _ _ (timer_for-Keeps env sleep _ duration)
            (λ d. Keeps-bind _ _ (record_waiting-Keeps _ _) (λ v. Keeps-return parked)))
          (λ kind. Keeps-pure null)))

  start_wait-Keeps :
      (identity event_type : String) (key : Option String) (timer_id : Value)
      → Keeps run (start_wait identity event_type key timer_id)
  unfolding start_wait
  start_wait-Keeps identity event_type key timer_id = Keeps-engine _ (λ g own.
      Keeps-if (member g.waits_started identity) _ _ (Keeps-pure tt) (
        Keeps-bind _ _ (Keeps-record event_wait_started _ refl own)
          (λ v. Keeps-engine _ (λ g' own'. Keeps-set _ own'))))

  wait_and_park-Keeps :
      (env : Env) (identity event_type : String) (key : Option String) (timeout : Option ℕ)
      → Keeps run (wait_and_park env identity event_type key timeout)
  unfolding wait_and_park
  wait_and_park-Keeps env identity event_type key timeout =
      Keeps-bind _ _
        (Keeps-option timeout _ _ (Keeps-pure null) (λ duration.
          Keeps-bind _ _ (timer_for-Keeps env event_timeout identity duration)
            (λ d. Keeps-bind _ _ (Keeps-lift _) (λ id. Keeps-pure _))))
        (λ timer_id.
          Keeps-bind _ _ (start_wait-Keeps identity event_type key timer_id)
            (λ v. Keeps-bind _ _ (record_waiting-Keeps _ _) (λ w. Keeps-return parked)))

  take_event-Keeps :
      (env : Env) (identity event_type : String) (key : Option String) (annotation : String)
      (otherwise : Exec Value)
      → Keeps run otherwise
      → Keeps run (take_event env identity event_type key annotation otherwise)
  unfolding take_event Store.consume_inbox_event
  take_event-Keeps env identity event_type key annotation otherwise h =
      Keeps-bind _ _ (Keeps-still _ (λ m. (refl, refl, refl, refl))) (λ found.
        Keeps-option found _ _ h (λ match. Keeps-engine _ (λ g own.
          Keeps-bind _ _ (still _ (λ s. (refl, refl, refl))) (λ v.
            Keeps-bind _ _ (Keeps-record external_event_received _ refl own) (λ w. Keeps-lift _)))))

  pub durable_wait_for_event-Keeps :
      (env : Env) (event_type : String) (key : Option String) (timeout : Option ℕ)
      (annotation : String)
      → Keeps run (durable_wait_for_event env event_type key timeout annotation)
  unfolding durable_wait_for_event
  durable_wait_for_event-Keeps env event_type key timeout annotation =
      Keeps-bind _ _ (next_ordinal-Keeps _) (λ n. Keeps-engine _ (λ g own.
        Keeps-option (Dict.get g.events_received (event_identity n)) _ _
          (Keeps-if (has_timed_out (Dict.get g.timers_fired (event_identity n))) _ _
            (Keeps-pure null)
            (take_event-Keeps env _ event_type key annotation _
              (wait_and_park-Keeps env _ event_type key timeout)))
          (λ recorded. Keeps-lift _)))
