-- ===== src/Journal/Wire/Refusals.antt =====
-- How `parse_shipment` refuses a shipment (journal/wire.py).
use satay_runtime.Prelude.{
  ℕ, String, ◌≡◌, ◌≢◌, Bool-cases, refl, none, Option, Bool, true, false, List, [], ◌∷◌, arith, All,
  Option-cases, inl, inr,
}
use satay_runtime.Value.{Value, Fields, get, has}
use satay_runtime.Errors.{Exn, Result, ok, raise, ◌>>=◌, shipment_format_error}
use satay_runtime.Journal.Wire.{
  parse_shipment, parse_status, parse_run, parse_lineage, wire_to_event, wire_to_events, parse_mode,
  parse_ts, require, text_in, mapping_in, list_in,
}

abbrev pub is_format_error : Exn → Bool
is_format_error (shipment_format_error t) = true
is_format_error _ = false

-- The computation returns, or raises a ShipmentFormatError.
abbrev pub Formatted : {A : Type 0} → Result A → Type 0
Formatted r = (e : Exn) → r ≡ raise e → is_format_error e ≡ true

Formatted-bind :
    {A B : Type 0} (r : Result A) (f : A → Result B)
    → Formatted r
    → ((a : A) → r ≡ ok a → Formatted (f a))
    → Formatted (r >>= f)
Formatted-bind (ok a) f h k e raised = k a refl e raised
Formatted-bind (raise x) f h k e raised = let same : x ≡ e = cc in rw (← same) (h x refl)

require-Formatted :
    {A : Type 0} (kind : Value → Option A) (d : Fields) (key : String)
    → Formatted (require kind d key)
unfolding require
require-Formatted kind d key e h = elim (Option-cases (get d key)) [
  | inl absent ↦ ground (arith, absent)
  | inr (v, present) ↦ ground (arith, present)
]

parse_status-Formatted : (t : String) → Formatted (parse_status t)
unfolding parse_status
parse_status-Formatted t e h = ground arith

parse_ts-Formatted : (d : Fields) (key : String) → Formatted (parse_ts d key)
unfolding require
parse_ts-Formatted d key e h = elim (Option-cases (get d key)) [
  | inl absent ↦ ground (arith, absent)
  | inr (v, present) ↦ ground (arith, present)
]

parse_mode-Formatted : (t : String) → Formatted (parse_mode t)
parse_mode-Formatted t e h = ground arith

ok-Formatted : {A : Type 0} (a : A) → Formatted (ok a)
ok-Formatted a e h = cc

module _ (isoformat : ℕ → String) where
  parse_run-Formatted : (header : Fields) → Formatted (parse_run isoformat header)
  unfolding parse_run
  parse_run-Formatted header = Formatted-bind _ _ (require-Formatted _ header "run_id") (λ run_id _.
      Formatted-bind _ _ (require-Formatted _ header "workflow_name") (λ name _.
        Formatted-bind _ _ (require-Formatted _ header "status") (λ value _.
          Formatted-bind _ _ (parse_status-Formatted value) (λ status _.
            Formatted-bind _ _ (require-Formatted _ header "code_version") (λ version _.
              Formatted-bind _ _ (parse_ts-Formatted header "created_at")
                (λ at _. ok-Formatted _))))))

  wire_to_event-Formatted :
      (run_id : String) (d : Fields) → Formatted (wire_to_event isoformat run_id d)
  unfolding wire_to_event
  wire_to_event-Formatted run_id d = Formatted-bind _ _ (require-Formatted _ d "seq") (λ seq _.
      Formatted-bind _ _ (require-Formatted _ d "event_id") (λ event_id _.
        Formatted-bind _ _ (require-Formatted _ d "type") (λ type _.
          Formatted-bind _ _ (parse_ts-Formatted d "ts") (λ ts _.
            Formatted-bind _ _ (require-Formatted _ d "payload") (λ payload _. ok-Formatted _)))))

  parse_lineage-Formatted : (header : Fields) → Formatted (parse_lineage isoformat header)
  unfolding parse_lineage
  parse_lineage-Formatted header = elim (Bool-cases (has header "lineage")) [
    | inl present ↦ rw present (
        Formatted-bind _ _ (require-Formatted _ header "lineage") (λ raw_lineage _.
          Formatted-bind _ _ (require-Formatted _ raw_lineage "source_run_id") (λ source _.
            Formatted-bind _ _ (require-Formatted _ raw_lineage "fork_point_seq")
              (λ seq _. ok-Formatted _))))
    | inr absent ↦ rw absent (ok-Formatted _)
  ]

  wire_to_events-Formatted :
      (run_id : String) (vs : List Value)
      → All (λ v. mapping_in v ≢ none) vs
      → Formatted (wire_to_events isoformat run_id vs)
  unfolding wire_to_events
  wire_to_events-Formatted run_id [] h = ok-Formatted _
  wire_to_events-Formatted run_id (v ∷ vs) h = elim (Option-cases (mapping_in v)) [
    | inl absent ↦ absurd (h.0 absent)
    | inr (d, present) ↦
        rw (present, wire_to_events)
          (Formatted-bind _ _ (wire_to_event-Formatted run_id d) (λ e _.
            Formatted-bind _ _ (wire_to_events-Formatted run_id vs h.1) (λ es _. ok-Formatted _)))
  ]

  -- The last three keys.
  texts-Formatted :
      {A : Type 0} (shipment : Fields) (f : String → String → String → A)
      → Formatted (
          require (text_in isoformat) shipment "contract_version" >>= λ contract_version.
          require (text_in isoformat) shipment "producer" >>= λ producer.
          require (text_in isoformat) shipment "tenant" >>= λ tenant.
          ok (f contract_version producer tenant))
  texts-Formatted shipment f =
      Formatted-bind _ _ (require-Formatted _ shipment "contract_version") (λ version _.
        Formatted-bind _ _ (require-Formatted _ shipment "producer") (λ producer _.
          Formatted-bind _ _ (require-Formatted _ shipment "tenant") (λ tenant _. ok-Formatted _)))

-- Whatever keys it lacks and whatever they hold, a shipment whose events, if they are a list, are
-- mappings only is either read or refused with a ShipmentFormatError.
pub parse_shipment-refusal :
    (isoformat : ℕ → String) (shipment : Fields) (e : Exn)
    → ((vs : List Value)
        → require list_in shipment "events" ≡ ok vs
        → All (λ v. mapping_in v ≢ none) vs)
    → parse_shipment isoformat shipment ≡ raise e
    → is_format_error e ≡ true
unfolding parse_shipment
parse_shipment-refusal isoformat shipment e mappings =
    Formatted-bind _ _ (require-Formatted _ shipment "run")
      (λ header _. Formatted-bind _ _ (parse_run-Formatted isoformat header) (λ run _.
        Formatted-bind _ _ (parse_lineage-Formatted isoformat header) (λ lineage _.
          Formatted-bind _ _ (require-Formatted _ shipment "events") (λ raws found.
            Formatted-bind _ _
              (wire_to_events-Formatted isoformat run.run_id raws (mappings raws found))
              (λ events _. Formatted-bind _ _ (require-Formatted _ shipment "redaction") (λ value _.
                Formatted-bind _ _ (parse_mode-Formatted value)
                  (λ redaction _. texts-Formatted isoformat shipment _)))))))
      e
