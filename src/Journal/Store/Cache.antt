-- ===== src/Journal/Store/Cache.antt =====
-- The event cache of journal/store.py: `read_events` decodes only what is new, and returns what
-- decoding the whole journal would return.
use satay_runtime.Prelude.{
  String, ◌≡◌, sym, ◌∙◌, not, List, [], ◌∷◌, ◌++◌, append-nil, append_assoc, arith, length, filter,
  Bool-cases, str_eq_iff, inl, inr, ◌==◌, string_eq, if◌then◌else◌,
}
use satay_runtime.Prelude.Dict
use satay_runtime.Prelude.Dict.{get-put, get-remove}
use satay_runtime.Value.{dict}
use satay_runtime.Errors.{Exn, Result, ok, raise, ◌>>=◌, Result-cases}
use satay_runtime.Journal.Codec.{encode}
use satay_runtime.Journal.Events.{Event}
use satay_runtime.Journal.Store.{
  Row, Store, append, rows_of, rows_after, rows_to_events, journal, cached, last_seq, read_events,
}
use satay_runtime.Journal.Store.Rows.{
  IsNumbered, rows_after-split, last_seq-Numbered, Numbered-append, rows_to_events-append,
}
use satay_runtime.Journal.Store.Append.{row_for, append-encoded, append-refused, rows_of-snoc}

-- The cached events of a run are the decoded first rows of the run.
pub record Split (rows : List Row) (es : List Event) : Type 0 where
  pub pre : List Row
  pub post : List Row
  pub split : rows ≡ pre ++ post
  pub decoded : rows_to_events pre ≡ ok es

pub record IsCoherent (s : Store) : Type 0 where
  pub at : (run_id : String) → Split (rows_of s.events run_id) (cached s run_id)

module _ (s : Store) (run_id : String) (pre post : List Row) (numbered : IsNumbered s)
    (split : rows_of s.events run_id ≡ pre ++ post)
    (decoded : rows_to_events pre ≡ ok (cached s run_id)) where
  fetched : rows_after s run_id (last_seq (cached s run_id)) ≡ post
  fetched =
      rw
        (last_seq-Numbered pre (cached s run_id)
          (Numbered-append 0 (length pre) pre post (rw split at (numbered.at run_id))
            (omega arith)).0
          decoded)
        (rows_after-split s run_id pre post (numbered.at run_id) split)

  whole : journal s run_id ≡ (rows_to_events post >>= λ fs. ok (cached s run_id ++ fs))
  whole = rw (split, rows_to_events-append pre post, decoded)

-- The three ways in which a read ends.
read_nothing :
    (s : Store) (run_id : String)
    → rows_after s run_id (last_seq (cached s run_id)) ≡ []
    → read_events s run_id ≡ (ok (cached s run_id), s)
unfolding read_events
read_nothing s run_id h = rw (h, read_events)

read_new :
    (s : Store) (run_id : String) (q : Row) (qs : List Row) (new : List Event)
    → rows_after s run_id (last_seq (cached s run_id)) ≡ q ∷ qs
    → rows_to_events (q ∷ qs) ≡ ok new
    → read_events s run_id ≡ (
      ok (cached s run_id ++ new),
      record s { event_cache = Dict.put s.event_cache run_id (cached s run_id ++ new) },
    )
unfolding read_events
read_new s run_id q qs new h d = rw (h, read_events, d)

read_corrupt :
    (s : Store) (run_id : String) (q : Row) (qs : List Row) (x : Exn)
    → rows_after s run_id (last_seq (cached s run_id)) ≡ q ∷ qs
    → rows_to_events (q ∷ qs) ≡ raise x
    → read_events s run_id ≡ (raise x, s)
unfolding read_events
read_corrupt s run_id q qs x h d = rw (h, read_events, d)

-- The cache after `new` events were added to it for one run.
extended : Store → String → List Event → Store
extended s run_id new = record s {
  event_cache = Dict.put s.event_cache run_id (cached s run_id ++ new);
}

cached-extended :
    (s : Store) (run_id j : String) (new : List Event)
    → cached (extended s run_id new) j
      ≡ (if run_id == j then cached s run_id ++ new else cached s j)
unfolding extended
cached-extended s run_id j new =
    ground (arith, get-put s.event_cache run_id j (cached s run_id ++ new))

extended-IsCoherent :
    (s : Store) (run_id : String) (pre post : List Row) (new : List Event)
    → IsCoherent s
    → rows_of s.events run_id ≡ pre ++ post
    → rows_to_events pre ≡ ok (cached s run_id)
    → rows_to_events post ≡ ok new
    → IsCoherent (extended s run_id new)
unfolding extended
extended-IsCoherent s run_id pre post new c e d d' = record {
  at = λ j. rw (cached-extended s run_id j new) (elim (Bool-cases (run_id == j)) [
    | inl same ↦
        rw (same, ← (str_eq_iff run_id j).0 same)
          (record {
            pre = pre ++ post;
            post = [];
            split = e ∙ sym (append-nil (pre ++ post));
            decoded = rw (rows_to_events-append pre post, d, d');
          })
    | inr other ↦ rw other (c.at j)
  ]);
}

-- What a read does: the answer, and the store afterwards.
abbrev Reads : Store → String → Result (List Event) × Store → Type 0
Reads s run_id r = (r.0 ≡ journal s run_id) × IsCoherent r.1

module _ (s : Store) (run_id : String) (n : IsNumbered s) (c : IsCoherent s) where
  fetched_anew :
      (pre : List Row) (q : Row) (qs : List Row)
      → rows_of s.events run_id ≡ pre ++ (q ∷ qs)
      → rows_to_events pre ≡ ok (cached s run_id)
      → Reads s run_id (read_events s run_id)
  fetched_anew pre q qs e d =
      let found = fetched s run_id pre (q ∷ qs) n e d in
      elim (Result-cases (rows_to_events (q ∷ qs))) [
        | inl (new, decoded) ↦ rw (read_new s run_id q qs new found decoded) (
          sym (rw decoded at (whole s run_id pre (q ∷ qs) n e d)),
          unfold extended in extended-IsCoherent s run_id pre (q ∷ qs) new c e d decoded,
        )
        | inr (x, corrupt) ↦
            rw (read_corrupt s run_id q qs x found corrupt)
              (sym (rw corrupt at (whole s run_id pre (q ∷ qs) n e d)), c)
      ]

  reads :
      (pre post : List Row)
      → rows_of s.events run_id ≡ pre ++ post
      → rows_to_events pre ≡ ok (cached s run_id)
      → Reads s run_id (read_events s run_id)
  reads pre [] e d =
      rw (read_nothing s run_id (fetched s run_id pre [] n e d)) (sym (rw (e, append-nil pre) d), c)
  reads pre (q ∷ qs) e d = fetched_anew pre q qs e d

-- From a store whose numbers and cache are in order, read_events returns what decoding all of the
-- run's rows returns, errors included, and leaves a cache that is in order.
pub read_events-eq-journal :
    (s : Store) (run_id : String)
    → IsNumbered s
    → IsCoherent s
    → ((read_events s run_id).0 ≡ journal s run_id) × IsCoherent (read_events s run_id).1
read_events-eq-journal s run_id n c =
    let split = c.at run_id in reads s run_id n c split.pre split.post split.split split.decoded

-- Reading changes no table.
pub events-read_events : (s : Store) (run_id : String) → (read_events s run_id).1.events ≡ s.events
unfolding read_events
events-read_events s run_id = ground arith

snoc-Split :
    (rows : List Row) (r : Row) (run_id : String) (es : List Event)
    → Split (rows_of rows run_id) es
    → Split (rows_of (rows ++ r ∷ []) run_id) es
snoc-Split rows r run_id es h =
    rw (rows_of-snoc rows r run_id) (elim (Bool-cases (r.run_id == run_id)) [
      | inl same ↦ rw same (record {
        pre = h.pre;
        post = h.post ++ r ∷ [];
        split = rw (h.split, append_assoc);
        decoded = h.decoded;
      })
      | inr other ↦ rw other h
    ])

-- An append, accepted or refused, leaves the cache in order.
pub append-IsCoherent : (s : Store) (e : Event) → IsCoherent s → IsCoherent (append s e).1
append-IsCoherent s e c = elim (Result-cases (encode "$" (dict e.payload))) [
  | inl (json, done) ↦
      rw (append-encoded s e json done)
        (record { at = λ j. snoc-Split s.events (row_for s e json) j (cached s j) (c.at j) })
  | inr (x, refused) ↦ rw (append-refused s e x refused) c
]

-- The rows of a run when those of another are deleted.
pub rows_of-without :
    (rows : List Row) (run_id j : String)
    → rows_of (filter (λ q. not (q.run_id == run_id)) rows) j
      ≡ (if run_id == j then [] else rows_of rows j)
rows_of-without [] run_id j = ground arith
rows_of-without (r ∷ rows) run_id j = ground (
  arith,
  rows_of-without rows run_id j,
  str_eq_iff run_id j,
  str_eq_iff r.run_id run_id,
  str_eq_iff r.run_id j,
)
