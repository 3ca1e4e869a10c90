-- ===== src/Control/Growth.antt =====
-- What the commands write (control/commands.py): rows of certain runs only, and never over a row.
use satay_runtime.Prelude.{
  String, ℕ, ◌≡◌, refl, none, arith, List, [], ◌∷◌, ◌&&◌, not, Option-cases, inl, inr, Bool-cases,
  any,
}
use satay_runtime.Value.{Fields, has}
use satay_runtime.Errors.{Result, ok, raise, Result-cases}
use satay_runtime.Journal.Events.{
  RunRecord, RunStatus, is_terminal, workflow_cancelled, cancelled, Event, new_event, run_forked,
  running,
}
use satay_runtime.Journal.Store
use satay_runtime.Journal.Store.{Store}
use satay_runtime.Journal.Store.Reach.{IsSound}
use satay_runtime.Replay.Appends.{
  Extends, Appends, Extends-refl, Extends-trans, Extends-same, Extends-read, Extends-append,
  Appends-bind, Appends-return, Appends-if, Appends-option, Appends-state, Appends-store,
  Appends-record,
}
use satay_runtime.Control.Commands.{Override, append_cancellation, cancel_now}
use satay_runtime.Control.Forks.{
  copied, seed, seal, overrides, write_fork, fork_prefix, create_fork, prefix, ends_run,
  lineage_fields,
}

set_status_same :
    (run_id : String) (status : RunStatus) (s : Store)
    → ((Store.set_status s run_id status).events ≡ s.events)
      × ((Store.set_status s run_id status).event_cache ≡ s.event_cache)
unfolding Store.set_status
set_status_same run_id status s = (refl, refl)

pub create_run_same :
    (r : RunRecord) (s : Store)
    → ((Store.create_run s r).events ≡ s.events)
      × ((Store.create_run s r).event_cache ≡ s.event_cache)
unfolding Store.create_run
create_run_same r s = ground arith

module _ {P : String → Type 0} where
  cancel_now-Appends : (run_id : String) → P run_id → Appends P (cancel_now run_id)
  unfolding cancel_now
  cancel_now-Appends run_id mine =
      Appends-bind _ _ (Appends-record run_id workflow_cancelled _ mine) (λ u.
        Appends-bind _ _ (Appends-store _ (set_status_same run_id cancelled))
          (λ v. Appends-return _))

  pub append_cancellation-Appends :
      (run_id : String) → P run_id → Appends P (append_cancellation run_id)
  unfolding append_cancellation
  append_cancellation-Appends run_id mine = Appends-state _ (λ m.
      Appends-option (Store.get_run m.store run_id) _ _ (Appends-return _) (λ r.
        Appends-if (is_terminal r.status) _ _ (Appends-return _) (cancel_now-Appends run_id mine)))

  seed-Extends :
      (input : Override) (new : String) (es : List Event) (lineage : Fields) (s : Store)
      → P new
      → IsSound s
      → Extends P s (seed input new es lineage s).1
  unfolding seed
  seed-Extends input new [] lineage s mine h = Extends-refl h
  seed-Extends input new (e ∷ es) lineage s mine h = elim (Result-cases (copied input e lineage)) [
    | inr (x, refused) ↦ rw (refused, seed) (Extends-refl h)
    | inl ((payload, lineage'), done) ↦
        let written = Extends-append s (new_event new e.type payload e.ts) mine h in
        elim (Result-cases (Store.append s (new_event new e.type payload e.ts)).0) [
          | inr (x, failed) ↦ rw (done, failed, seed) written
          | inl (stored, added) ↦
              rw (done, added, seed)
                (Extends-trans written (seed-Extends input new es lineage' _ mine written.sound))
        ]
  ]

  seal-Extends :
      (input : Override) (source new : String) (now : ℕ) (s : Store) (r : Result Fields × Store)
      → P new
      → Extends P s r.1
      → Extends P s (seal input source new now r).1
  seal-Extends input source new now s (raise x, t) mine h = h
  seal-Extends input source new now s (ok lineage, t) mine h =
      elim (Bool-cases (overrides input && not (has lineage "input_overridden"))) [
        | inl refused ↦ rw refused h
        | inr fine ↦
            rw fine (
              Extends-trans h
                (Extends-append t (new_event new run_forked lineage now) mine h.sound))
      ]

  write_fork-Extends :
      (source name : String) (point : ℕ) (new : String) (now : ℕ) (version : String)
      (input : Override) (copies : List Event) (s : Store)
      → P new
      → IsSound s
      → Extends P s (write_fork source name point new now version input copies s).1
  unfolding write_fork
  write_fork-Extends source name point new now version input copies s mine h =
      let row : RunRecord = record {
        run_id = new;
        workflow_name = name;
        status = running;
        code_version = version;
        created_at = now;
        idempotency_key = none;
      } in
      let same = create_run_same row s in
      let created : Extends P s (Store.create_run s row) = Extends-same same.0 same.1 h in
      seal-Extends input source new now s _ mine (
        Extends-trans created
          (seed-Extends input new copies (lineage_fields source point) _ mine created.sound))

  fork_prefix-Extends :
      (source name : String) (point : ℕ) (new : String) (now : ℕ) (version : String)
      (input : Override) (copies : List Event) (s : Store)
      → P new
      → IsSound s
      → Extends P s (fork_prefix source name point new now version input copies s).1
  unfolding fork_prefix
  fork_prefix-Extends source name point new now version input [] s mine h = Extends-refl h
  fork_prefix-Extends source name point new now version input (e ∷ es) s mine h =
      elim (Bool-cases (overrides input && any (λ (c : Event). ends_run c.type) (e ∷ es))) [
        | inl refused ↦ rw (refused, fork_prefix) (Extends-refl h)
        | inr fine ↦
            rw (fine, fork_prefix)
              (write_fork-Extends source name point new now version input (e ∷ es) s mine h)
      ]

  pub create_fork-Extends :
      (s : Store) (source : String) (point : ℕ) (new : String) (now : ℕ) (version : String)
      (input : Override)
      → P new
      → IsSound s
      → Extends P s (create_fork s source point new now version input).1
  unfolding create_fork
  create_fork-Extends s source point new now version input mine h =
      elim (Option-cases (Store.get_run s source)) [
        | inl absent ↦ rw (absent, create_fork) (Extends-refl h)
        | inr (r, found) ↦ elim (Result-cases (Store.read_events s source).0) [
          | inr (x, failed) ↦ rw (found, failed, create_fork) (Extends-read s source h)
          | inl (events, read) ↦
              let seen = Extends-read s source h in
              rw (found, read, create_fork)
                (Extends-trans seen (
                  fork_prefix-Extends source r.workflow_name point new now version input
                    (prefix point events) _ mine seen.sound))
        ]
      ]
