-- ===== src/Journal/Wire/RoundTrip.antt =====
-- `parse_shipment` reads back what `project_run` wrote (journal/wire.py).
use satay_runtime.Prelude.{
  ℕ, String, ◌≡◌, refl, none, some, Option, List, [], ◌∷◌, map, filter, All, All-filter,
}
use satay_runtime.Prelude.Int.{ℤ, int_ltb}
use satay_runtime.Value.{get, literal, merge}
use satay_runtime.Errors.{ok}
use satay_runtime.Journal.Events.{
  RunRecord, RunStatus, status_value, running, waiting, completed, failed, cancelled,
}
use satay_runtime.Journal.Wire.{
  RawEvent, RedactionMode, on, off, Lineage, lineage_of, project_run, parse_shipment, parse_status,
  parse_run, parse_lineage, header_of, parse_mode, mode_value, event_to_wire, wire_to_event,
  wire_to_events, require, items, values, shipment_contract_version,
}

parse_status-status_value : (s : RunStatus) → parse_status (status_value s) ≡ ok s
unfolding parse_status status_value
parse_status-status_value running = refl
parse_status-status_value waiting = refl
parse_status-status_value completed = refl
parse_status-status_value failed = refl
parse_status-status_value cancelled = refl

parse_mode-mode_value : (r : RedactionMode) → parse_mode (mode_value r) ≡ ok r
parse_mode-mode_value on = refl
parse_mode-mode_value off = refl

module _ (isoformat : ℕ → String) where
  parse_run-header :
      (run : RunRecord) (l : Option Lineage)
      → parse_run isoformat (header_of run l) ≡ ok (record run { idempotency_key = none })
  unfolding parse_run header_of require get literal merge
  parse_run-header run l = rw (parse_status-status_value run.status)

  parse_lineage-header :
      (run : RunRecord) (l : Option Lineage) → parse_lineage isoformat (header_of run l) ≡ ok l
  unfolding parse_lineage header_of require get literal merge
  parse_lineage-header run none = refl
  parse_lineage-header run (some l) = refl

  wire_to_events-map :
      (run_id : String) (es : List RawEvent)
      → All (λ (e : RawEvent). e.run_id ≡ run_id) es
      → wire_to_events isoformat run_id (values (items (map event_to_wire es))) ≡ ok es
  unfolding wire_to_events wire_to_event event_to_wire require get literal
  wire_to_events-map run_id [] h = refl
  wire_to_events-map run_id (e ∷ es) h = rw (wire_to_events-map run_id es h.1, ← h.0)

-- Reading back the shipment of a run's events gives what went in: the run without its idempotency
-- key, the lineage, and the events behind since_seq, in order.
pub parse_shipment-project_run :
    (isoformat : ℕ → String) (run : RunRecord) (events : List RawEvent) (producer tenant : String)
    (redaction : RedactionMode) (since_seq : ℤ)
    → All (λ (e : RawEvent). e.run_id ≡ run.run_id) events
    → parse_shipment isoformat
        (project_run isoformat run events producer tenant redaction since_seq)
      ≡ ok (record {
        contract_version = shipment_contract_version;
        producer = producer;
        tenant = tenant;
        redaction = redaction;
        run = record run { idempotency_key = none };
        events = filter (λ e. int_ltb since_seq e.seq) events;
        lineage = lineage_of isoformat events;
      })
unfolding parse_shipment project_run require get literal
parse_shipment-project_run isoformat run events producer tenant redaction since_seq h = rw (
  parse_run-header isoformat run (lineage_of isoformat events),
  parse_lineage-header isoformat run (lineage_of isoformat events),
  wire_to_events-map isoformat run.run_id (filter (λ e. int_ltb since_seq e.seq) events)
      (All-filter _ _ events h),
  parse_mode-mode_value redaction,
)
