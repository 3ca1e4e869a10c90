-- ===== src/Redaction/Journals.antt =====
-- The replay engine (replay/engine.py) loads the structure of a payload, whatever its value slots hold.
use satay_runtime.Prelude.{
  String, ◌≡◌, refl, ap, ◌∙◌, true, false, none, some, Option-cases, inl, inr, List, [], ◌∷◌, map,
  Eq, ◌==◌, Bool-cases, string_eq,
}
use satay_runtime.Prelude.Dict
use satay_runtime.Prelude.Dict.{Dict}
use satay_runtime.Value.{Value, Fields, get, has}
use satay_runtime.Errors.{Result, ok, raise, ◌>>=◌, Result-cases}
use satay_runtime.Journal.Events.{
  EventType, Event, workflow_created, task_scheduled, task_attempt_started, task_attempt_failed,
  task_completed, timer_created, timer_fired, event_wait_started, external_event_received,
  workflow_waiting, child_workflow_scheduled, task_failed,
}
use satay_runtime.Replay.Identity.{identity_eq, is_keyed, from_payload, text_at, int_at, key_at}
use satay_runtime.Replay.Machine.{Engine}
use satay_runtime.Replay.Load.{
  load_payload, load_journal, attempt_of, value_at, is_given, parked_identity, timer_kind,
}
use satay_runtime.Redaction.{is_value_slot}
use satay_runtime.Redaction.Slots.{map_slots, structure_stays, get-map_slots}

abbrev map_values {ℓ κ μ} : {K : Type ℓ} {V : Type κ} {W : Type μ} → (V → W) → Dict K V → Dict K W
map_values f [] = []
map_values f ((k, v) ∷ d) = (k, f v) ∷ map_values f d

put-map_values {ℓ κ μ} :
    {K : Type ℓ} {V : Type κ} {W : Type μ} ⦃e : Eq K⦄ (f : V → W) (d : Dict K V) (k : K) (v : V)
    → Dict.put (map_values f d) k (f v) ≡ map_values f (Dict.put d k v)
unfolding Dict.put
put-map_values f [] k v = refl
put-map_values f ((j, w) ∷ d) k v = elim (Bool-cases (j == k)) [
  | inl e ↦ rw e
  | inr e ↦ rw e (ap (λ t. (j, f w) ∷ t) (put-map_values f d k v))
]

-- The engine with `mask` applied to the recorded values, and to the value slots of the payloads that
-- it keeps.
abbrev pub map_view : (Value → Value) → Engine → Engine
map_view mask g = record g {
  completed = map_values mask g.completed;
  failed = map_values (map_slots mask) g.failed;
  timers_created = map_values (map_slots mask) g.timers_created;
  events_received = map_values mask g.events_received;
}

abbrev pub map_loaded : (Value → Value) → Result Engine → Result Engine
map_loaded mask (ok g) = ok (map_view mask g)
map_loaded mask (raise x) = raise x

module _ (mask : Value → Value) (d : Fields) where
  text_stays : (k : String) → is_value_slot k ≡ false → text_at (map_slots mask d) k ≡ text_at d k
  unfolding text_at
  text_stays k h = rw (structure_stays mask d k h, text_at)

  int_stays : (k : String) → is_value_slot k ≡ false → int_at (map_slots mask d) k ≡ int_at d k
  unfolding int_at
  int_stays k h = rw (structure_stays mask d k h, int_at)

  has_stays : (k : String) → is_value_slot k ≡ false → has (map_slots mask d) k ≡ has d k
  has_stays k h = rw (structure_stays mask d k h, has)

  key_stays : (k : String) → is_value_slot k ≡ false → key_at (map_slots mask d) k ≡ key_at d k
  unfolding key_at
  key_stays k h = rw (structure_stays mask d k h, key_at)

  given_stays :
      (k : String) → is_value_slot k ≡ false → is_given (map_slots mask d) k ≡ is_given d k
  given_stays k h = rw (structure_stays mask d k h, is_given)

  attempt_stays : attempt_of (map_slots mask d) ≡ attempt_of d
  unfolding is_value_slot
  attempt_stays = rw (structure_stays mask d "attempt" refl, attempt_of)

  identity_stays : from_payload (map_slots mask d) ≡ from_payload d
  unfolding is_value_slot from_payload
  identity_stays = rw (
    has_stays "key" refl,
    text_stays "task_name" refl,
    key_stays "key" refl,
    int_stays "ordinal" refl,
    from_payload,
  )

  value_in_slot :
      (k : String)
      → is_value_slot k ≡ true
      → value_at (map_slots mask d) k ≡ (value_at d k >>= λ v. ok (mask v))
  value_in_slot k h = elim (Option-cases (get d k)) [
    | inl e ↦
        let missing : get (map_slots mask d) k ≡ none = get-map_slots mask d k ∙ rw e in
        rw (missing, e, value_at)
    | inr (v, e) ↦
        let there : get (map_slots mask d) k ≡ some (mask v) = get-map_slots mask d k ∙ rw (e, h) in
        rw (there, e, value_at)
  ]

parked_stays :
    (mask : Value → Value) (d : Fields) → parked_identity (map_slots mask d) ≡ parked_identity d
unfolding is_value_slot
parked_stays mask d = rw (structure_stays mask d "identity" refl, parked_identity)

-- One payload.
load_payload-map :
    (mask : Value → Value) (t : EventType) (d : Fields) (g : Engine)
    → load_payload t (map_slots mask d) (map_view mask g) ≡ map_loaded mask (load_payload t d g)
unfolding load_payload is_value_slot
load_payload-map mask workflow_created d g = rw (given_stays mask d "idempotency_key" refl)
load_payload-map mask task_scheduled d g =
    rw (identity_stays mask d) (elim (Result-cases (from_payload d)) [
      | inl (i, e) ↦ elim (Bool-cases (is_keyed i)) [ inl k ↦ rw (e, k) | inr k ↦ rw (e, k) ]
      | inr (x, e) ↦ rw e
    ])
load_payload-map mask task_attempt_started d g =
    rw (identity_stays mask d, attempt_stays mask d)
      (elim (Result-cases (from_payload d)) [
        | inl (i, e) ↦ elim (Result-cases (attempt_of d)) [
          | inl (n, f) ↦ rw (e, f)
          | inr (x, f) ↦ rw (e, f)
        ]
        | inr (x, e) ↦ rw e
      ])
load_payload-map mask task_attempt_failed d g =
    rw (identity_stays mask d, attempt_stays mask d)
      (elim (Result-cases (from_payload d)) [
        | inl (i, e) ↦ elim (Result-cases (attempt_of d)) [
          | inl (n, f) ↦ rw (e, f)
          | inr (x, f) ↦ rw (e, f)
        ]
        | inr (x, e) ↦ rw e
      ])
load_payload-map mask task_completed d g =
    rw (identity_stays mask d, value_in_slot mask d "output_ref" refl)
      (elim (Result-cases (from_payload d)) [
        | inl (i, e) ↦ elim (Result-cases (value_at d "output_ref")) [
          | inl (v, f) ↦ rw (e, f, put-map_values mask g.completed i v)
          | inr (x, f) ↦ rw (e, f)
        ]
        | inr (x, e) ↦ rw e
      ])
load_payload-map mask task_failed d g =
    rw (identity_stays mask d) (elim (Result-cases (from_payload d)) [
      | inl (i, e) ↦ rw (e, put-map_values (map_slots mask) g.failed i d)
      | inr (x, e) ↦ rw e
    ])
load_payload-map mask child_workflow_scheduled d g =
    rw (identity_stays mask d, text_stays mask d "child_run_id" refl)
      (elim (Result-cases (from_payload d)) [
        | inl (i, e) ↦ elim (Result-cases (text_at d "child_run_id")) [
          | inl (n, f) ↦ rw (e, f)
          | inr (x, f) ↦ rw (e, f)
        ]
        | inr (x, e) ↦ rw e
      ])
load_payload-map mask timer_created d g =
    rw (text_stays mask d "identity" refl) (elim (Result-cases (text_at d "identity")) [
      | inl (i, e) ↦ rw (e, put-map_values (map_slots mask) g.timers_created i d)
      | inr (x, e) ↦ rw e
    ])
load_payload-map mask timer_fired d g =
    rw (text_stays mask d "identity" refl, text_stays mask d "kind" refl)
      (elim (Result-cases (text_at d "identity")) [
        | inl (i, e) ↦ elim (Result-cases (text_at d "kind")) [
          | inl (t, f) ↦ elim (Result-cases (timer_kind t)) [
            | inl (k, h) ↦ rw (e, f, h)
            | inr (x, h) ↦ rw (e, f, h)
          ]
          | inr (x, f) ↦ rw (e, f)
        ]
        | inr (x, e) ↦ rw e
      ])
load_payload-map mask event_wait_started d g =
    rw (text_stays mask d "identity" refl)
      (elim (Result-cases (text_at d "identity")) [ inl (i, e) ↦ rw e | inr (x, e) ↦ rw e ])
load_payload-map mask workflow_waiting d g = elim (Option-cases (parked_identity d)) [
  | inl e ↦ rw (parked_stays mask d, e)
  | inr (i, e) ↦ rw (parked_stays mask d, e)
]
load_payload-map mask external_event_received d g =
    rw (text_stays mask d "identity" refl, value_in_slot mask d "event_ref" refl)
      (elim (Result-cases (text_at d "identity")) [
        | inl (i, e) ↦ elim (Result-cases (value_at d "event_ref")) [
          | inl (v, f) ↦ rw (e, f, put-map_values mask g.events_received i v)
          | inr (x, f) ↦ rw (e, f)
        ]
        | inr (x, e) ↦ rw e
      ])
load_payload-map mask _ d g = refl

abbrev pub map_event : (Value → Value) → Event → Event
map_event mask e = record e { payload = map_slots mask e.payload }

pub load_journal-map :
    (mask : Value → Value) (es : List Event) (g : Engine)
    → load_journal (map (map_event mask) es) (map_view mask g) ≡ map_loaded mask (load_journal es g)
unfolding load_journal
load_journal-map mask [] g = refl
load_journal-map mask (e ∷ es) g =
    rw (load_payload-map mask e.type e.payload g)
      (elim (Result-cases (load_payload e.type e.payload g)) [
        | inl (g', f) ↦ rw f (load_journal-map mask es g')
        | inr (x, f) ↦ rw f
      ])
