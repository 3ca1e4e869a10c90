-- ===== src/Journal/Wire/Examples.antt =====
-- Shipments of small runs (journal/wire.py).
use satay_runtime.Prelude.{
  ℕ, String, ◌≡◌, refl, none, some, true, List, [], ◌∷◌, map, filter, All, ◌≢◌, subst,
}
use satay_runtime.Prelude.Text.{◌<>◌, str_nat}
use satay_runtime.Prelude.Int.{pos, int_ltb}
use satay_runtime.Value.{Value, Fields, int, str, list, dict, nil, cons, end, field, get, literal}
use satay_runtime.Errors.{ok, raise, shipment_format_error, type_error}
use satay_runtime.Journal.Events.{type_value}
use satay_runtime.Journal.Store.{rows_of}
use satay_runtime.Journal.Store.Examples.{database, database-IsSound, record_of}
use satay_runtime.Journal.Wire.{
  RawEvent, on, lineage_of, lineage_in, greatest, project_run, parse_shipment, raw_event,
  read_raw_events, shipment_contract_version, require, mapping_in,
}
use satay_runtime.Journal.Wire.RoundTrip.{parse_shipment-project_run}
use satay_runtime.Journal.Wire.Tail.{parse_shipment-tail}
use satay_runtime.Journal.Wire.Refusals.{is_format_error, parse_shipment-refusal}

abbrev isoformat : ℕ → String
isoformat t = "t" <> str_nat t

abbrev event_id : String → ℕ → String
event_id run_id n = run_id <> str_nat n

-- A fork of a fork: its own lineage is the last.
abbrev forked : List RawEvent
forked =
    record {
      run_id = "c";
      seq = pos 2;
      event_id = "x";
      type = "RunForked";
      ts = 5;
      payload = field "source_run_id" (str "a") (field "fork_point_seq" (int (pos 1)) end);
    }
    ∷ record {
      run_id = "c";
      seq = pos 3;
      event_id = "y";
      type = "RunForked";
      ts = 6;
      payload = field "source_run_id" (str "b") (field "fork_point_seq" (int (pos 2)) end);
    }
    ∷ []

lineage_of-forked :
    lineage_of isoformat forked ≡ some (record { source_run_id = "b"; fork_point_seq = pos 2 })
unfolding lineage_of type_value lineage_in get greatest
lineage_of-forked = refl

parse_shipment-project_run_example :
    parse_shipment isoformat (project_run isoformat (record_of "c") forked "p" "t" on (pos 2))
    ≡ ok (record {
      contract_version = shipment_contract_version;
      producer = "p";
      tenant = "t";
      redaction = on;
      run = record (record_of "c") { idempotency_key = none };
      events = filter (λ e. int_ltb (pos 2) e.seq) forked;
      lineage = lineage_of isoformat forked;
    })
parse_shipment-project_run_example =
    parse_shipment-project_run isoformat (record_of "c") forked "p" "t" on (pos 2)
      (refl, (refl, tt))

parse_shipment-tail_example :
    parse_shipment isoformat (
      project_run isoformat
        (record_of "b")
        (read_raw_events event_id database "b")
        "p"
        "t"
        on
        (pos 0))
    ≡ ok (record {
      contract_version = shipment_contract_version;
      producer = "p";
      tenant = "t";
      redaction = on;
      run = record (record_of "b") { idempotency_key = none };
      events = map (raw_event event_id) (rows_of database.events "b");
      lineage = lineage_of isoformat (map (raw_event event_id) (rows_of database.events "b"));
    })
parse_shipment-tail_example =
    parse_shipment-tail isoformat event_id database (record_of "b") "p" "t" on []
      (rows_of database.events "b") database-IsSound.numbered refl

-- An element of `events` that is a number ends in a TypeError.
abbrev header : Value
header = dict (
    literal (
      ("run_id", str "c")
      ∷ ("workflow_name", str "w")
      ∷ ("status", str "running")
      ∷ ("code_version", str "1")
      ∷ ("created_at", Value.iso 0)
      ∷ []))

number_element :
    parse_shipment isoformat
      (field "run" header (field "events" (list (cons (int (pos 1)) nil)) end))
    ≡ raise (type_error "argument of type 'int' is not iterable")
unfolding parse_shipment get literal
number_element = refl

abbrev headless : Fields
headless = field "run" (dict end) (field "events" (list (cons (dict end) nil)) end)

parse_shipment-refusal_example :
    is_format_error (shipment_format_error "shipment missing required key 'run_id'") ≡ true
unfolding parse_shipment get require
parse_shipment-refusal_example =
    parse_shipment-refusal isoformat headless
      (shipment_format_error "shipment missing required key 'run_id'")
      (λ vs found.
        let same : dict end ∷ [] ≡ vs = cc in
        subst (All (λ v. mapping_in v ≢ none)) same ((λ e. cc), tt))
      refl
