-- ===== src/Control/Writes.antt =====
-- What the worker writes for a command (control/commands.py).
use satay_runtime.Prelude.{String, ℕ, ◌≡◌, refl, List, [], ◌∷◌}
use satay_runtime.Errors.{Result}
use satay_runtime.Journal.Events.{InboxEventRecord}
use satay_runtime.Journal.Store
use satay_runtime.Journal.Store.{Store, rows_of, Row}
use satay_runtime.Journal.Store.Reach.{IsSound}
use satay_runtime.Replay.Appends.{
  Extends, Appends, Extends-refl, Appends-bind, Appends-return, Appends-lift, Appends-option,
  Appends-store,
}
use satay_runtime.Api.Runner.{Process, WorkflowDefinition}
use satay_runtime.Api.Growth.{read_run-Appends, drive_run-Appends, result-Extends, lift-Extends}
use satay_runtime.Control.Commands.{Command, start_run, cancel_run, send_event, fork_run, Override}
use satay_runtime.Control.Apply.{
  on_store, drive_recorded, drive_forked_run, apply_fork, apply_command, apply_commands,
}
use satay_runtime.Control.Growth.{append_cancellation-Appends, create_fork-Extends}

-- The journals of all runs.
abbrev pub Every : String → Type 0
Every run_id = Unit

pub on_store-Appends :
    {A : Type 0} (f : Store → Result A × Store)
    → ((s : Store) → IsSound s → Extends Every s (f s).1)
    → Appends Every (on_store f)
on_store-Appends f k = record {
  at = λ m h. lift-Extends (f m.store).0 (record m { store = (f m.store).1 }) (k m.store h);
}

module _ (p : Process) where
  pub drive_recorded-Appends :
      (run_id : String) (workflow : WorkflowDefinition)
      → Appends Every (drive_recorded p run_id workflow)
  unfolding drive_recorded
  drive_recorded-Appends run_id workflow = Appends-bind _ _ (read_run-Appends run_id) (λ events.
      Appends-bind _ _ (Appends-lift _) (λ input. drive_run-Appends p run_id workflow input tt))

  drive_forked_run-Appends : (run_id name : String) → Appends Every (drive_forked_run p run_id name)
  unfolding drive_forked_run
  drive_forked_run-Appends run_id name =
      Appends-option (p.get_workflow name) _ _ (Appends-return _)
        (λ w. drive_recorded-Appends run_id w)

  apply_fork-Appends :
      (source : String) (point : ℕ) (new : String) (input : Override)
      → Appends Every (apply_fork p source point new input)
  unfolding apply_fork
  apply_fork-Appends source point new input =
      Appends-bind _ _ (record { at = λ m h. Extends-refl h })
        (λ now.
          Appends-bind _ _
            (on_store-Appends _
              (λ s h. create_fork-Extends s source point new now p.code_version input tt h))
            (λ name. drive_forked_run-Appends new name))

  add_inbox_event_same :
      (e : InboxEventRecord) (s : Store)
      → ((Store.add_inbox_event s e).1.events ≡ s.events)
        × ((Store.add_inbox_event s e).1.event_cache ≡ s.event_cache)
  unfolding Store.add_inbox_event
  add_inbox_event_same e s = (refl, refl)

  apply_command-Appends : (c : Command) → Appends Every (apply_command p c)
  unfolding apply_command
  apply_command-Appends (cancel_run run_id) =
      Appends-bind _ _ (append_cancellation-Appends run_id tt) (λ u. Appends-return _)
  apply_command-Appends (send_event event_type key payload run_id) =
      Appends-bind _ _ (record { at = λ m h. Extends-refl h })
        (λ now. Appends-store _ (λ s. add_inbox_event_same _ s))
  apply_command-Appends (fork_run source point new input) =
      apply_fork-Appends source point new input
  apply_command-Appends (start_run name input run_id key) =
      Appends-option (p.get_workflow name) _ _ (Appends-return _) (λ w.
        Appends-bind _ _ (record { at = λ m h. result-Extends p _ m tt h }) (λ a. Appends-return _))

  pub apply_commands-Appends : (cs : List Command) → Appends Every (apply_commands p cs)
  unfolding apply_commands
  apply_commands-Appends [] = Appends-return _
  apply_commands-Appends (c ∷ cs) =
      Appends-bind _ _ (apply_command-Appends c) (λ u. apply_commands-Appends cs)
