-- ===== src/Journal/Wire/Tail.antt =====
-- A shipment with `since_seq` carries the rows behind that number (journal/wire.py and
-- journal/store.py).
use satay_runtime.Prelude.{
  ℕ, String, ◌≡◌, none, List, [], ◌∷◌, ◌++◌, map, filter, arith, All, filter-map, length, ap,
  str_eq_iff,
}
use satay_runtime.Prelude.Int.{pos, int_ltb}
use satay_runtime.Errors.{ok}
use satay_runtime.Journal.Events.{RunRecord}
use satay_runtime.Journal.Store.{Store, Row, rows_of}
use satay_runtime.Journal.Store.Rows.{IsNumbered, sort-Numbered, after_split}
use satay_runtime.Journal.Wire.{
  RawEvent, RedactionMode, lineage_of, project_run, parse_shipment, read_raw_events, raw_event,
  shipment_contract_version,
}
use satay_runtime.Journal.Wire.RoundTrip.{parse_shipment-project_run}

module _ (event_id : String → ℕ → String) (s : Store) (run_id : String)
    (numbered : IsNumbered s) where
  -- The raw events of a run in a store in order are its rows, in the order of insertion.
  pub read_raw_events-rows :
      read_raw_events event_id s run_id ≡ map (raw_event event_id) (rows_of s.events run_id)
  unfolding read_raw_events
  read_raw_events-rows =
      ap (map (raw_event event_id)) (sort-Numbered 0 (rows_of s.events run_id) (numbered.at run_id))

  pub raw_events_after :
      (pre post : List Row)
      → rows_of s.events run_id ≡ pre ++ post
      → filter (λ e. int_ltb (pos (length pre)) e.seq) (read_raw_events event_id s run_id)
        ≡ map (raw_event event_id) post
  raw_events_after pre post split =
      rw
        (
          read_raw_events-rows,
          split,
          filter-map (raw_event event_id) (λ (e : RawEvent). int_ltb (pos (length pre)) e.seq)
              (pre ++ post),
        )
        (ap (map (raw_event event_id)) (after_split pre post (rw split at (numbered.at run_id))))

  rows_of_run :
      (rows : List Row)
      → All (λ (e : RawEvent). e.run_id ≡ run_id) (map (raw_event event_id) (rows_of rows run_id))
  rows_of_run [] = tt
  rows_of_run (r ∷ rows) = ground (arith, rows_of_run rows, str_eq_iff r.run_id run_id)

  read_raw_events_run :
      All (λ (e : RawEvent). e.run_id ≡ run_id) (read_raw_events event_id s run_id)
  read_raw_events_run = rw read_raw_events-rows (rows_of_run s.events)

-- In a store in order, the shipment of a run with since_seq at the end of a prefix of its rows is
-- read back as the run without its key, the lineage that all its events have, and the events of the
-- rows behind the prefix, in order and with the stored payloads.
pub parse_shipment-tail :
    (isoformat : ℕ → String) (event_id : String → ℕ → String) (s : Store) (run : RunRecord)
    (producer tenant : String) (redaction : RedactionMode) (pre post : List Row)
    → IsNumbered s
    → rows_of s.events run.run_id ≡ pre ++ post
    → parse_shipment isoformat (
        project_run isoformat run
          (read_raw_events event_id s run.run_id)
          producer
          tenant
          redaction
          (pos (length pre)))
      ≡ ok (record {
        contract_version = shipment_contract_version;
        producer = producer;
        tenant = tenant;
        redaction = redaction;
        run = record run { idempotency_key = none };
        events = map (raw_event event_id) post;
        lineage = lineage_of isoformat (map (raw_event event_id) (pre ++ post));
      })
parse_shipment-tail isoformat event_id s run producer tenant redaction pre post numbered split =
    let rows = read_raw_events-rows event_id s run.run_id numbered in
    rw (
      parse_shipment-project_run isoformat run (read_raw_events event_id s run.run_id) producer
          tenant redaction (pos (length pre)) (read_raw_events_run event_id s run.run_id numbered),
      raw_events_after event_id s run.run_id numbered pre post split,
      rows,
      split,
    )
