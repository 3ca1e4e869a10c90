-- ===== src/Journal/Wire.antt =====
-- journal/wire.py: a run and its raw events on the ingest wire, and back; and the read of the raw
-- events (journal/store.py). An event's id is a text that the caller gives for a run and a number.
pub mod RoundTrip
pub mod Tail
pub mod Refusals
mod Examples
use satay_runtime.Prelude.{
  ℕ, String, Bool, true, false, ◌&&◌, ◌||◌, Option, none, some, List, [], ◌∷◌, map, any, filter,
  and_then, ◌==◌, string_eq, if◌then◌else◌, sort_by,
}
use satay_runtime.Prelude.Text.{◌<>◌, contains}
use satay_runtime.Prelude.Int.{ℤ, pos, int_ltb}
use satay_runtime.Value.{
  Value, Items, Fields, null, bool, int, float, str, iso, datetime, timedelta, enum, list, tuple,
  dict, tagged, dataclass, model, object, nil, cons, get, has, literal, end, field, merge,
}
use satay_runtime.Errors.{Exn, Result, ok, raise, type_error, ◌>>=◌, shipment_format_error}
use satay_runtime.Journal.Events.{
  RunRecord, RunStatus, type_value, status_value, run_forked, running, waiting, completed, failed,
  cancelled,
}
use satay_runtime.Journal.Store.{Store, Row, by_seq, rows_of}

pub record RawEvent : Type 0 where
  pub run_id : String
  pub seq : ℤ
  pub event_id : String
  pub type : String
  pub ts : ℕ
  pub payload : Fields

pub data RedactionMode : Type 0 where
  on off : RedactionMode

abbrev pub mode_value : RedactionMode → String
mode_value on = "on"
mode_value off = "off"

pub record Lineage : Type 0 where
  pub source_run_id : String
  pub fork_point_seq : ℤ

pub record ParsedShipment : Type 0 where
  pub contract_version : String
  pub producer : String
  pub tenant : String
  pub redaction : RedactionMode
  pub run : RunRecord
  pub events : List RawEvent
  pub lineage : Option Lineage

abbrev pub shipment_contract_version : String
shipment_contract_version = "1.0.0"

-- json.loads(row["payload_json"]): the stored form of a payload is an object.
abbrev pub fields_of : Value → Fields
fields_of (dict d) = d
fields_of _ = end

abbrev pub raw_event : (String → ℕ → String) → Row → RawEvent
raw_event event_id r = record {
  run_id = r.run_id;
  seq = pos r.seq;
  event_id = event_id r.run_id r.seq;
  type = type_value r.type;
  ts = r.ts;
  payload = fields_of r.payload_json;
}

-- `read_raw_events`: SELECT … WHERE run_id = ? ORDER BY seq
unfoldable pub read_raw_events : (String → ℕ → String) → Store → String → List RawEvent
read_raw_events event_id s run_id =
    map (raw_event event_id) (sort_by by_seq (rows_of s.events run_id))

abbrev pub is_forked : RawEvent → Bool
is_forked e = e.type == type_value run_forked

-- max(forked, key=lambda e: e.seq): the first of the greatest
unfoldable pub greatest : RawEvent → List RawEvent → RawEvent
greatest best [] = best
greatest best (e ∷ es) = greatest (if int_ltb best.seq e.seq then e else best) es

-- A bool is an int too.
abbrev pub int_in : Value → Option ℤ
int_in (int n) = some n
int_in (bool true) = some (pos 1)
int_in (bool false) = some (pos 0)
int_in _ = none

module _ (isoformat : ℕ → String) where
  abbrev pub text_in : Value → Option String
  text_in (str s) = some s
  text_in (iso t) = some (isoformat t)
  text_in _ = none

  -- The lineage that a `RunForked` records.
  unfoldable pub lineage_in : Fields → Option Lineage
  lineage_in d = and_then (and_then (get d "source_run_id") text_in) (λ source.
      and_then (and_then (get d "fork_point_seq") int_in)
        (λ seq. some (record { source_run_id = source; fork_point_seq = seq })))

  unfoldable pub lineage_of : List RawEvent → Option Lineage
  lineage_of events = elim (filter is_forked events) [
    | [] ↦ none
    | e ∷ es ↦ lineage_in (greatest e es).payload
  ]

unfoldable pub event_to_wire : RawEvent → Value
event_to_wire e = dict (
    literal (
      ("seq", int e.seq)
      ∷ ("event_id", str e.event_id)
      ∷ ("type", str e.type)
      ∷ ("ts", iso e.ts)
      ∷ ("payload", dict e.payload)
      ∷ []))

abbrev pub items : List Value → Items
items [] = nil
items (v ∷ vs) = cons v (items vs)

abbrev pub lineage_fields : Option Lineage → Fields
lineage_fields none = end
lineage_fields (some l) =
    field "lineage"
      (dict (
        literal
          (("source_run_id", str l.source_run_id) ∷ ("fork_point_seq", int l.fork_point_seq) ∷ [])))
      end

unfoldable pub header_of : RunRecord → Option Lineage → Fields
header_of run lineage =
    merge
      (literal (
        ("run_id", str run.run_id)
        ∷ ("workflow_name", str run.workflow_name)
        ∷ ("status", str (status_value run.status))
        ∷ ("code_version", str run.code_version)
        ∷ ("created_at", iso run.created_at)
        ∷ []))
      (lineage_fields lineage)

unfoldable pub project_run :
    (ℕ → String) → RunRecord → List RawEvent → String → String → RedactionMode → ℤ → Fields
unfolding header_of
project_run isoformat run events producer tenant redaction since_seq = literal (
    ("contract_version", str shipment_contract_version)
    ∷ ("producer", str producer)
    ∷ ("tenant", str tenant)
    ∷ ("redaction", str (mode_value redaction))
    ∷ ("run", dict (header_of run (lineage_of isoformat events)))
    ∷ ("events", list (items (map event_to_wire (filter (λ e. int_ltb since_seq e.seq) events))))
    ∷ [])

-- type(value).__name__
type_name : Value → String
type_name null = "NoneType"
type_name (bool b) = "bool"
type_name (int n) = "int"
type_name (float x) = "float"
type_name (str s) = "str"
type_name (iso t) = "str"
type_name (datetime t) = "datetime"
type_name (timedelta d) = "timedelta"
type_name (enum class v) = class
type_name (list vs) = "list"
type_name (tuple vs) = "tuple"
type_name (dict d) = "dict"
type_name (tagged kind type d) = "TaggedDict"
type_name (dataclass class d) = class
type_name (model class v) = class
type_name (object class) = class

-- `_require`, for a kind: what a value of the kind holds.
unfoldable pub require : {A : Type 0} → (Value → Option A) → Fields → String → Result A
unfolding type_name
require kind d key = elim (get d key) [
  | none ↦ raise (shipment_format_error ("shipment missing required key '" <> key <> "'"))
  | some v ↦ elim (kind v) [
    | none ↦
        raise
          (shipment_format_error ("shipment key '" <> key <> "' has wrong type " <> type_name v))
    | some a ↦ ok a
  ]
]

abbrev pub values : Items → List Value
values nil = []
values (cons v vs) = v ∷ values vs

abbrev is_seq : Value → Bool
is_seq (str s) = s == "seq"
is_seq _ = false

-- `_require(raw, "seq", int)` where `raw` is no mapping: a list or a text can lack the key, and
-- is not indexed by it.
refused_element : Value → Exn
unfolding type_name contains
refused_element v =
    let missing = shipment_format_error "shipment missing required key 'seq'" in
    elim v [
      | list vs ↦ if any is_seq (values vs) then type_error "list indices" else missing
      | str s ↦ if contains s "seq" then type_error "string indices" else missing
      | iso t ↦ missing
      | other ↦ type_error ("argument of type '" <> type_name other <> "' is not iterable")
    ]

abbrev pub mapping_in : Value → Option Fields
mapping_in (dict d) = some d
mapping_in (tagged kind type d) = some d
mapping_in _ = none

abbrev pub list_in : Value → Option (List Value)
list_in (list vs) = some (values vs)
list_in _ = none

unfoldable pub parse_status : String → Result RunStatus
parse_status value =
    if value == "running"
    then ok running
    else if value == "waiting"
    then ok waiting
    else if value == "completed"
    then ok completed
    else if value == "failed"
    then ok failed
    else if value == "cancelled"
    then ok cancelled
    else raise (shipment_format_error ("unknown run status '" <> value <> "'"))

-- A str, as a text that `isoformat` prints for an instant, or as another text.
abbrev pub stamp_in : Value → Option (Result ℕ)
stamp_in (iso t) = some (ok t)
stamp_in (str s) = some (raise (shipment_format_error ("invalid timestamp '" <> s <> "'")))
stamp_in _ = none

-- _parse_ts(_require(d, key, str))
abbrev pub parse_ts : Fields → String → Result ℕ
parse_ts d key = require stamp_in d key >>= λ r. r

abbrev pub parse_mode : String → Result RedactionMode
parse_mode value =
    if value == "on"
    then ok on
    else if value == "off"
    then ok off
    else raise
        (shipment_format_error ("shipment redaction must be 'on' or 'off', got '" <> value <> "'"))

module _ (isoformat : ℕ → String) where
  unfoldable pub wire_to_event : String → Fields → Result RawEvent
  unfolding require
  wire_to_event run_id d = do
    seq ← require int_in d "seq"
    event_id ← require (text_in isoformat) d "event_id"
    type ← require (text_in isoformat) d "type"
    ts ← parse_ts d "ts"
    payload ← require mapping_in d "payload"
    ok (record {
      run_id = run_id;
      seq = seq;
      event_id = event_id;
      type = type;
      ts = ts;
      payload = payload;
    })

  unfoldable pub wire_to_events : String → List Value → Result (List RawEvent)
  unfolding refused_element wire_to_event
  wire_to_events run_id [] = ok []
  wire_to_events run_id (v ∷ vs) = elim (mapping_in v) [
    | none ↦ raise (refused_element v)
    | some d ↦ do e ← wire_to_event run_id d; es ← wire_to_events run_id vs; ok (e ∷ es)
  ]

  -- The header's lineage, if it has one.
  unfoldable pub parse_lineage : Fields → Result (Option Lineage)
  unfolding require
  parse_lineage header =
      if has header "lineage"
      then (do
        raw_lineage ← require mapping_in header "lineage"
        source_run_id ← require (text_in isoformat) raw_lineage "source_run_id"
        fork_point_seq ← require int_in raw_lineage "fork_point_seq"
        ok (some (record { source_run_id = source_run_id; fork_point_seq = fork_point_seq })))
      else ok none

  -- The run of a header.
  unfoldable pub parse_run : Fields → Result RunRecord
  unfolding require parse_status
  parse_run header = do
    run_id ← require (text_in isoformat) header "run_id"
    workflow_name ← require (text_in isoformat) header "workflow_name"
    value ← require (text_in isoformat) header "status"
    status ← parse_status value
    code_version ← require (text_in isoformat) header "code_version"
    created_at ← parse_ts header "created_at"
    ok (record {
      run_id = run_id;
      workflow_name = workflow_name;
      status = status;
      code_version = code_version;
      created_at = created_at;
      idempotency_key = none;
    })

  unfoldable pub parse_shipment : Fields → Result ParsedShipment
  unfolding require parse_lineage parse_run wire_to_events
  parse_shipment shipment = do
    header ← require mapping_in shipment "run"
    run ← parse_run header
    lineage ← parse_lineage header
    raws ← require list_in shipment "events"
    events ← wire_to_events run.run_id raws
    value ← require (text_in isoformat) shipment "redaction"
    redaction ← parse_mode value
    contract_version ← require (text_in isoformat) shipment "contract_version"
    producer ← require (text_in isoformat) shipment "producer"
    tenant ← require (text_in isoformat) shipment "tenant"
    ok (record {
      contract_version = contract_version;
      producer = producer;
      tenant = tenant;
      redaction = redaction;
      run = run;
      events = events;
      lineage = lineage;
    })
