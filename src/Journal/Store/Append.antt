-- ===== src/Journal/Store/Append.antt =====
-- `append` of journal/store.py: the number that an event gets, and the journal afterwards.
use satay_runtime.Prelude.{
  ℕ, ◌+◌, String, ◌≡◌, refl, none, List, [], ◌∷◌, ◌++◌, append-nil, arith, length, filter-append,
  Bool-cases, str_eq_iff, inl, inr, ◌==◌, string_eq, if◌then◌else◌,
}
use satay_runtime.Value.{Value, dict, get}
use satay_runtime.Errors.{Exn, ok, raise, ◌>>=◌, >>=-eq-ok, Result-cases}
use satay_runtime.Journal.Codec.{encode, decode, tag_key}
use satay_runtime.Journal.Codec.Plain.{CleanFields, plain_fields}
use satay_runtime.Journal.Codec.RoundTrip.{decode-encode}
use satay_runtime.Journal.Events.{Event, with_seq}
use satay_runtime.Journal.Store.{
  Row, Store, append, rows_of, max_seq, rows_to_events, row_to_event, journal,
}
use satay_runtime.Journal.Store.Rows.{
  Numbered, IsNumbered, Numbered-snoc, max_seq-Numbered, rows_to_events-append,
}

-- The row that `append` inserts for a payload with this encoded form.
abbrev pub row_for : Store → Event → Value → Row
row_for s e json = record {
  run_id = e.run_id;
  seq = max_seq (rows_of s.events e.run_id) + 1;
  type = e.type;
  ts = e.ts;
  payload_json = json;
}

pub append-encoded :
    (s : Store) (e : Event) (json : Value)
    → encode "$" (dict e.payload) ≡ ok json
    → append s e ≡ (
      ok (with_seq e (max_seq (rows_of s.events e.run_id) + 1)),
      record s { events = s.events ++ row_for s e json ∷ [] },
    )
unfolding append
append-encoded s e json h = rw (h, append)

pub append-refused :
    (s : Store) (e : Event) (x : Exn)
    → encode "$" (dict e.payload) ≡ raise x
    → append s e ≡ (raise x, s)
unfolding append
append-refused s e x h = rw (h, append)

pub rows_of-snoc :
    (rows : List Row) (r : Row) (run_id : String)
    → rows_of (rows ++ r ∷ []) run_id
      ≡ (if r.run_id == run_id then rows_of rows run_id ++ r ∷ [] else rows_of rows run_id)
rows_of-snoc rows r run_id =
    rw (filter-append (λ (q : Row). q.run_id == run_id) rows (r ∷ []))
      (ground (arith, append-nil (rows_of rows run_id)))

snoc-Numbered :
    (s : Store) (e : Event) (json : Value) (run_id : String)
    → IsNumbered s
    → Numbered 0 (rows_of (s.events ++ row_for s e json ∷ []) run_id)
snoc-Numbered s e json run_id h =
    rw (rows_of-snoc s.events (row_for s e json) run_id) (elim (Bool-cases (e.run_id == run_id)) [
      | inl same ↦
          let this : e.run_id ≡ run_id = (str_eq_iff e.run_id run_id).0 same in
          rw same (
            Numbered-snoc 0 (rows_of s.events run_id) (row_for s e json) (h.at run_id)
              (rw this (omega (arith, max_seq-Numbered (rows_of s.events run_id) (h.at run_id)))))
      | inr other ↦ rw other (h.at run_id)
    ])

-- Whatever the event, and whether or not its payload can be encoded, every run's rows stay numbered
-- 1, 2, 3, … in the order of insertion.
pub append-IsNumbered : (s : Store) (e : Event) → IsNumbered s → IsNumbered (append s e).1
append-IsNumbered s e h = elim (Result-cases (encode "$" (dict e.payload))) [
  | inl (json, done) ↦
      rw (append-encoded s e json done) (record { at = λ run_id. snoc-Numbered s e json run_id h })
  | inr (x, refused) ↦ rw (append-refused s e x refused) h
]

-- What a reader of the journal sees of an appended event.
abbrev pub recorded : Event → ℕ → Event
recorded e n = record e { seq = n; payload = plain_fields e.payload }

read_row_for :
    (s : Store) (e : Event) (json : Value)
    → decode json ≡ ok (dict (plain_fields e.payload))
    → row_to_event (row_for s e json) ≡ ok (recorded e (max_seq (rows_of s.events e.run_id) + 1))
unfolding row_to_event
read_row_for s e json h = rw h

journal-snoc :
    (s : Store) (e : Event) (json : Value) (run_id : String)
    → decode json ≡ ok (dict (plain_fields e.payload))
    → rows_to_events (rows_of (s.events ++ row_for s e json ∷ []) run_id) ≡ (
        if e.run_id == run_id
        then (journal s run_id >>= λ es.
            ok (es ++ recorded e (max_seq (rows_of s.events e.run_id) + 1) ∷ []))
        else journal s run_id)
unfolding rows_to_events
journal-snoc s e json run_id h =
    rw (rows_of-snoc s.events (row_for s e json) run_id) (elim (Bool-cases (e.run_id == run_id)) [
      | inl same ↦ rw (
        same,
        rows_to_events-append (rows_of s.events run_id) (row_for s e json ∷ []),
        read_row_for s e json h,
      )
      | inr other ↦ rw other
    ])

-- In a numbered store, an event with a clean, untagged payload gets the next number of its run, the
-- journal of the run gains exactly it at its end, with the plain form of its payload, and no other
-- journal changes.
pub journal-append :
    (s : Store) (e : Event)
    → IsNumbered s
    → get e.payload tag_key ≡ none
    → CleanFields e.payload
    → ((append s e).0 ≡ ok (with_seq e (length (rows_of s.events e.run_id) + 1)))
      × ((run_id : String)
          → journal (append s e).1 run_id ≡ (
              if e.run_id == run_id
              then (journal s run_id >>= λ es.
                  ok (es ++ recorded e (length (rows_of s.events e.run_id) + 1) ∷ []))
              else journal s run_id))
journal-append s e h untagged clean =
    let (json, encoded, decoded) =
      >>=-eq-ok (encode "$" (dict e.payload)) decode
        (decode-encode "$" (dict e.payload) (untagged, clean)) in
    let next = max_seq-Numbered (rows_of s.events e.run_id) (h.at e.run_id) in
    rw (append-encoded s e json encoded, ← next)
      (refl, λ run_id. journal-snoc s e json run_id decoded)
