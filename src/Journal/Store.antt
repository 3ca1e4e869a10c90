-- ===== src/Journal/Store.antt =====
-- journal/store.py: the SQLite journal store. A table is its rows in insertion order; a query selects
-- and sorts them as its SQL says. Spill to blobs and write-time redaction are off here, as they are
-- for an in-memory store that is opened with the defaults.
pub mod Examples
pub mod Rows
pub mod Append
pub mod Cache
pub mod Deletion
pub mod Reach
pub mod Runs
use Prim.Native.Nat.{max}
use Prim.Native.String.{compare}
use Prim.Native.Nat.{Ordering}
use satay_runtime.Prelude.{
  ℕ, suc, ◌+◌, String, Bool, true, false, ◌&&◌, ◌||◌, not, Option, none, some, List, [], ◌∷◌, ◌++◌,
  map, any, filter, sort_by, get_last?, ltb, leb, ◌==◌, string_eq, number_eq, nat_eq, if◌then◌else◌,
}
use satay_runtime.Prelude.Dict
use satay_runtime.Prelude.Dict.{Dict}
use satay_runtime.Value.{Value, Fields, dict, tagged}
use satay_runtime.Errors.{Result, ok, raise, ◌>>=◌, lookup_error, value_error, type_error}
use satay_runtime.Journal.Codec.{encode, decode}
use satay_runtime.Journal.Events.{
  EventType, Event, with_seq, RunRecord, RunStatus, is_terminal, TimerRecord, TimerStatus,
  is_pending, InboxEventRecord,
}

-- A row of the `events` table: `payload_json` is the JSON value that the text stands for.
pub record Row : Type 0 where
  pub run_id : String
  pub seq : ℕ
  pub type : EventType
  pub ts : ℕ
  pub payload_json : Value

pub record Store : Type 0 where
  pub runs : List RunRecord
  pub events : List Row
  pub timers : List TimerRecord
  pub inbox : List InboxEventRecord
  -- the row id that the inbox's AUTOINCREMENT gives next
  pub next_row_id : ℕ
  pub event_cache : Dict String (List Event)

abbrev pub empty : Store
empty = record {
  runs = [];
  events = [];
  timers = [];
  inbox = [];
  next_row_id = 1;
  event_cache = [];
}

-- INSERT OR IGNORE INTO runs
unfoldable pub create_run : Store → RunRecord → Store
create_run s r =
    if any (λ q. q.run_id == r.run_id) s.runs then s else record s { runs = s.runs ++ r ∷ [] }

-- The rows of a run.
abbrev pub rows_of : List Row → String → List Row
rows_of rows run_id = filter (λ r. r.run_id == run_id) rows

-- SELECT COALESCE(MAX(seq), 0)
abbrev pub max_seq : List Row → ℕ
max_seq [] = 0
max_seq (r ∷ rows) = max r.seq (max_seq rows)

-- `append`: an error while the payload is encoded rolls the transaction back.
unfoldable pub append : Store → Event → Result Event × Store
append s e =
    let seq = max_seq (rows_of s.events e.run_id) + 1 in
    elim (encode "$" (dict e.payload)) [
      | raise x ↦ (raise x, s)
      | ok json ↦ (
        ok (with_seq e seq),
        record s {
          events =
              s.events
              ++ record {
                run_id = e.run_id;
                seq = seq;
                type = e.type;
                ts = e.ts;
                payload_json = json;
              }
                ∷ [];
        },
      )
    ]

-- UPDATE runs SET status
unfoldable pub set_status : Store → String → RunStatus → Store
set_status s run_id status = record s {
  runs = map (λ r. if r.run_id == run_id then record r { status = status } else r) s.runs;
}

-- The decoded payload of a row is an object, since `append` encodes a dict without the tag.
abbrev pub payload_of : Value → Result Fields
payload_of (dict d) = ok d
payload_of (tagged kind type d) = ok d
payload_of _ = raise (type_error "the payload is no object")

-- `_row_to_event`
unfoldable pub row_to_event : Row → Result Event
row_to_event r = do
  v ← decode r.payload_json
  d ← payload_of v
  ok (record { run_id = r.run_id; type = r.type; payload = d; ts = r.ts; seq = r.seq })

unfoldable pub rows_to_events : List Row → Result (List Event)
rows_to_events [] = ok []
rows_to_events (r ∷ rows) = do e ← row_to_event r; es ← rows_to_events rows; ok (e ∷ es)

abbrev pub by_seq : Row → Row → Bool
by_seq a b = leb a.seq b.seq

-- SELECT … WHERE run_id = ? AND seq > ? ORDER BY seq
unfoldable pub rows_after : Store → String → ℕ → List Row
rows_after s run_id after_seq =
    sort_by by_seq (filter (λ r. r.run_id == run_id && ltb after_seq r.seq) s.events)

abbrev pub cached : Store → String → List Event
cached s run_id = elim (Dict.get s.event_cache run_id) [ none ↦ [] | some es ↦ es ]

abbrev pub last_seq : List Event → ℕ
last_seq es = elim (get_last? es) [ none ↦ 0 | some e ↦ e.seq ]

-- What the journal of a run says, with no cache: the decoded rows in order.
abbrev pub journal : Store → String → Result (List Event)
journal s run_id = rows_to_events (rows_of s.events run_id)

-- `read_events`: only the rows behind the cached ones are decoded.
unfoldable pub read_events : Store → String → Result (List Event) × Store
unfolding rows_after
read_events s run_id =
    let old = cached s run_id in
    elim (rows_after s run_id (last_seq old)) [
      | [] ↦ (ok old, s)
      | r ∷ rows ↦ elim (rows_to_events (r ∷ rows)) [
        | raise x ↦ (raise x, s)
        | ok new ↦
            (ok (old ++ new), record s { event_cache = Dict.put s.event_cache run_id (old ++ new) })
      ]
    ]

unfoldable pub find_run : List RunRecord → String → Option RunRecord
find_run [] run_id = none
find_run (r ∷ rs) run_id = if r.run_id == run_id then some r else find_run rs run_id

unfoldable pub get_run : Store → String → Option RunRecord
unfolding find_run
get_run s run_id = find_run s.runs run_id

abbrev pub by_created_at : RunRecord → RunRecord → Bool
by_created_at a b = leb a.created_at b.created_at

unfoldable pub list_runs : Store → List String
list_runs s = map (λ r. r.run_id) (sort_by by_created_at s.runs)

unfoldable pub delete_run : Store → String → Result (Unit {0}) × Store
delete_run s run_id = elim (get_run s run_id) [
  | none ↦ (raise (lookup_error run_id), s)
  | some r ↦
      if is_terminal r.status
      then (
        ok tt,
        record s {
          runs = filter (λ q. not (q.run_id == run_id)) s.runs;
          events = filter (λ q. not (q.run_id == run_id)) s.events;
          event_cache = Dict.remove s.event_cache run_id;
        },
      )
      else (raise (value_error run_id), s)
]

abbrev pub has_key : String → RunRecord → Bool
has_key k r = elim r.idempotency_key [ none ↦ false | some j ↦ j == k ]

abbrev pub head? {ℓ} : {A : Type ℓ} → List A → Option A
head? [] = none
head? (x ∷ xs) = some x

-- … WHERE idempotency_key = ? ORDER BY created_at LIMIT 1
unfoldable pub get_run_by_idempotency_key : Store → String → Option RunRecord
get_run_by_idempotency_key s k = head? (sort_by by_created_at (filter (has_key k) s.runs))

-- INSERT OR IGNORE INTO timers
unfoldable pub add_timer : Store → TimerRecord → Store
add_timer s t =
    if any (λ u. u.timer_id == t.timer_id) s.timers
    then s
    else record s { timers = s.timers ++ t ∷ [] }

abbrev pub text_leb : String → String → Bool
text_leb a b = elim (compare a b) [ Ordering.gt ↦ false | _ ↦ true ]

-- ORDER BY fire_at, timer_id
abbrev pub by_fire_at : TimerRecord → TimerRecord → Bool
by_fire_at a b =
    ltb a.fire_at b.fire_at || (nat_eq a.fire_at b.fire_at && text_leb a.timer_id b.timer_id)

unfoldable pub due_timers : Store → ℕ → List TimerRecord
due_timers s now =
    sort_by by_fire_at (filter (λ t. is_pending t.status && leb t.fire_at now) s.timers)

unfoldable pub set_timer_status : Store → String → TimerStatus → Store
set_timer_status s timer_id status = record s {
  timers = map (λ t. if t.timer_id == timer_id then record t { status = status } else t) s.timers;
}

unfoldable pub add_inbox_event : Store → InboxEventRecord → InboxEventRecord × Store
add_inbox_event s e =
    let row = record e { row_id = s.next_row_id } in
    (row, record s { inbox = s.inbox ++ row ∷ []; next_row_id = s.next_row_id + 1 })

-- key IS NULL, or key = ?
abbrev pub key_matches : Option String → Option String → Bool
key_matches none none = true
key_matches (some a) (some b) = a == b
key_matches _ _ = false

abbrev pub is_match : String → Option String → InboxEventRecord → Bool
is_match event_type key e = e.event_type == event_type && key_matches e.key key && not e.consumed

-- ORDER BY received_at, row_id
abbrev pub by_received_at : InboxEventRecord → InboxEventRecord → Bool
by_received_at a b =
    ltb a.received_at b.received_at || (nat_eq a.received_at b.received_at && leb a.row_id b.row_id)

unfoldable pub match_inbox_event : Store → String → Option String → Option InboxEventRecord
match_inbox_event s event_type key =
    head? (sort_by by_received_at (filter (is_match event_type key) s.inbox))

unfoldable pub consume_inbox_event : Store → ℕ → Store
consume_inbox_event s row_id = record s {
  inbox = map (λ e. if nat_eq e.row_id row_id then record e { consumed = true } else e) s.inbox;
}

-- `list_inbox_events`: both filters are optional.
unfoldable pub list_inbox_events : Store → Option String → Bool → List InboxEventRecord
list_inbox_events s event_type include_consumed = sort_by by_received_at (
    filter
      (λ e.
        (elim event_type [ none ↦ true | some t ↦ e.event_type == t ])
        && (include_consumed || not e.consumed))
      s.inbox)
