-- ===== src/Redaction/Rows.antt =====
-- A journal whose payloads were redacted when they were encoded (`_encode_payload` of
-- journal/store.py) is read and loaded like the original, up to the recorded values.
use satay_runtime.Prelude.{
  String, ◌≡◌, refl, sym, ap, ap₂, subst, ◌∙◌, false, Bool-cases, if◌then◌else◌, inl, inr, Option,
  none, some, List, [], ◌∷◌, map, ◌==◌, string_eq, str_eq_iff,
}
use satay_runtime.Value.{Value, Fields, null, str, dict, tagged, end, field, odd, get}
use satay_runtime.Prelude.Text.{◌<>◌}
use satay_runtime.Errors.{decode_error, Result, ok, raise, ◌>>=◌, >>=-eq-ok}
use satay_runtime.Journal.Codec.{
  decode, decode_fields, decode_at, decode_object, untag, tag_key, parse_datetime, parse_timedelta,
}
use satay_runtime.Journal.Events.{Event}
use satay_runtime.Journal.Store.{Row, row_to_event, rows_to_events, payload_of}
use satay_runtime.Replay.Machine.{Engine}
use satay_runtime.Replay.Load.{load_journal}
use satay_runtime.Redaction.{Redactor, redact_slots, redact_value_slots, redact, is_value_slot}
use satay_runtime.Redaction.Slots.{map_slots, structure_stays}
use satay_runtime.Redaction.Journals.{map_event, map_view, map_loaded, load_journal-map}

-- The row with its payload as the store writes it with write-time redaction on.
unfoldable pub redact_row : Redactor → Row → Row
redact_row r row = record row { payload_json = redact_value_slots r row.payload_json }

abbrev blank : Value → Value
blank v = null

-- What is left without the recorded values: names, identities, order, counts, failures.
abbrev pub without_values : Result Engine → Result Engine
without_values = map_loaded blank

redact_slots-map : (r : Redactor) (d : Fields) → redact_slots r d ≡ map_slots (redact r) d
unfolding redact_slots map_slots
redact_slots-map r end = refl
redact_slots-map r (field k v d) =
    ap (λ t. field k (if is_value_slot k then redact r v else v) t) (redact_slots-map r d)
redact_slots-map r (odd k v d) = ap (λ t. odd k v t) (redact_slots-map r d)

-- An item that was decoded.
item_of :
    (c : Value → Fields → Fields) (v : Value) (d : Fields) {p : Fields}
    → (decode v >>= λ e. decode_fields d >>= λ es. ok (c e es)) ≡ ok p
    → (e : Value) × (es : Fields) × (decode v ≡ ok e) × (decode_fields d ≡ ok es) × (c e es ≡ p)
item_of c v d h =
    let (e, first, rest) = >>=-eq-ok (decode v) (λ e. decode_fields d >>= λ es. ok (c e es)) h in
    let (es, second, last) = >>=-eq-ok (decode_fields d) (λ es. ok (c e es)) rest in
    (e, es, first, second, cc last)

bare_event : {a b : Event} → ok a ≡ ok b → a ≡ b
bare_event h = cc

bare_list : {a b : List Event} → ok a ≡ ok b → a ≡ b
bare_list h = cc

bare_events : {a b : List Event} {m : Result (List Event)} → m ≡ ok a → m ≡ ok b → a ≡ b
bare_events h k = cc

same_payload : {a b : Fields} {m : Result Fields} → m ≡ ok a → m ≡ ok b → b ≡ a
same_payload h k = cc

same_ok : {a b : Value} {m : Result Value} → m ≡ ok a → m ≡ ok b → a ≡ b
same_ok h k = cc

bare : (p p' : Fields) → ok end ≡ ok p → ok end ≡ ok p' → p ≡ p'
bare p p' h h' = cc

-- With a tag that is a text, what the items decode to makes no difference.
untag-text :
    (tag : String) (d d' : Fields) (plain plain' : Result Fields) (v : Result Value)
    (fields : Result Fields)
    → get d' "v" ≡ get d "v"
    → get d' "type" ≡ get d "type"
    → untag (some (str tag)) d' plain' v fields ≡ untag (some (str tag)) d plain v fields
untag-text tag d d' plain plain' v fields ev et =
    ap₂
      (λ (q : Option Value) (t : Option Value).
        if tag == "datetime"
        then parse_datetime q
        else if tag == "timedelta"
        then parse_timedelta q
        else if tag == "enum"
        then v
        else if tag == "dataclass"
        then (fields >>= λ es. ok (tagged tag (elim t [ none ↦ null | some u ↦ u ]) es))
        else if tag == "model"
        then (fields >>= λ es. ok (tagged tag (elim t [ none ↦ null | some u ↦ u ]) es))
        else raise (decode_error ("unknown tagged kind " <> tag)))
      ev et

-- What is read of an object without a tag.
plain_payload :
    (m : Result Fields) {p : Fields} → ((m >>= λ es. ok (dict es)) >>= payload_of) ≡ ok p → m ≡ ok p
plain_payload (ok es) h = h
plain_payload (raise x) h = cc

module _ (mask : Value → Value) where
  slot-alike :
      (k : String) (v : Value) {e e' : Value}
      → decode v ≡ ok e
      → decode (if is_value_slot k then mask v else v) ≡ ok e'
      → (if is_value_slot k then null else e) ≡ (if is_value_slot k then null else e')
  slot-alike k v {e} {e'} h h' = elim (Bool-cases (is_value_slot k)) [
    | inl q ↦ rw q
    | inr q ↦ let plain : decode v ≡ ok e' = rw q at h' in rw q (same_ok h plain)
  ]

  -- Decoding the items of a payload, masked or not, gives the same structure.
  fields-alike :
      (d : Fields) {p p' : Fields}
      → decode_fields d ≡ ok p
      → decode_fields (map_slots mask d) ≡ ok p'
      → map_slots blank p ≡ map_slots blank p'
  unfolding decode_fields map_slots
  fields-alike end {p} {p'} h h' = ap (map_slots blank) (bare p p' h h')
  fields-alike (field k v d) h h' =
      let (e, es, one, rest, out) = item_of (field k) v d h in
      let (e', es', one', rest', out') =
        item_of (field k) (if is_value_slot k then mask v else v) (map_slots mask d) h' in
      ap (map_slots blank) (sym out)
      ∙ ap₂ (λ t u. field k t u) (slot-alike k v one one') (fields-alike d rest rest')
      ∙ ap (map_slots blank) out'
  fields-alike (odd k v d) h h' =
      let (e, es, one, rest, out) = item_of (odd k) v d h in
      let (e', es', one', rest', out') = item_of (odd k) v (map_slots mask d) h' in
      ap (map_slots blank) (sym out)
      ∙ ap₂ (λ t u. odd k t u) (same_ok one one') (fields-alike d rest rest')
      ∙ ap (map_slots blank) out'

  decode_at-stays :
      (k : String) (d : Fields)
      → is_value_slot k ≡ false
      → decode_at k (map_slots mask d) ≡ decode_at k d
  unfolding decode_at map_slots
  decode_at-stays k end h = refl
  decode_at-stays k (odd j v d) h = decode_at-stays k d h
  decode_at-stays k (field j v d) h = elim (Bool-cases (j == k)) [
    | inl e ↦
        let shut : is_value_slot j ≡ false =
          subst (λ t. is_value_slot t ≡ false) (sym ((str_eq_iff j k).0 e)) h in
        rw (e, shut)
    | inr e ↦ rw e (decode_at-stays k d h)
  ]

  decode_object-stays :
      (k : String) (d : Fields)
      → is_value_slot k ≡ false
      → decode_object k (map_slots mask d) ≡ decode_object k d
  unfolding decode_object map_slots
  decode_object-stays k end h = refl
  decode_object-stays k (odd j v d) h = decode_object-stays k d h
  decode_object-stays k (field j v d) h = elim (Bool-cases (j == k)) [
    | inl e ↦
        let shut : is_value_slot j ≡ false =
          subst (λ t. is_value_slot t ≡ false) (sym ((str_eq_iff j k).0 e)) h in
        rw (e, shut)
    | inr e ↦ rw e (decode_object-stays k d h)
  ]

  -- The payload of a row, masked or not.
  tags-alike :
      (o : Option Value) (d : Fields) (v : Result Value) (fields : Result Fields) {p p' : Fields}
      → (untag o d (decode_fields d) v fields >>= payload_of) ≡ ok p
      → (untag o (map_slots mask d) (decode_fields (map_slots mask d)) v fields >>= payload_of)
        ≡ ok p'
      → map_slots blank p ≡ map_slots blank p'
  unfolding is_value_slot
  tags-alike none d v fields h h' =
      fields-alike d (plain_payload (decode_fields d) h)
        (plain_payload (decode_fields (map_slots mask d)) h')
  tags-alike (some null) d v fields h h' =
      fields-alike d (plain_payload (decode_fields d) h)
        (plain_payload (decode_fields (map_slots mask d)) h')
  tags-alike (some (str tag)) d v fields {p} {p'} h h' =
      let same =
        untag-text tag d (map_slots mask d) (decode_fields d) (decode_fields (map_slots mask d)) v
          fields (structure_stays mask d "v" refl) (structure_stays mask d "type" refl) in
      let read : (untag (some (str tag)) d (decode_fields d) v fields >>= payload_of) ≡ ok p' =
        rw same at h' in
      ap (map_slots blank) (same_payload read h)
  tags-alike (some _) d v fields h h' = cc

  dict-alike :
      (d : Fields) {p p' : Fields}
      → (decode (dict d) >>= payload_of) ≡ ok p
      → (decode (dict (map_slots mask d)) >>= payload_of) ≡ ok p'
      → map_slots blank p ≡ map_slots blank p'
  unfolding decode is_value_slot
  dict-alike d {p} {p'} h h' =
      tags-alike (get d tag_key) d (decode_at "v" d) (decode_object "fields" d) h (
        rw
          (
            structure_stays mask d tag_key refl,
            decode_at-stays "v" d refl,
            decode_object-stays "fields" d refl,
          )
          at h')

mapping-alike :
    (r : Redactor) (v : Value) {p p' : Fields}
    → (decode v >>= payload_of) ≡ ok p
    → (decode (redact_value_slots r v) >>= payload_of) ≡ ok p'
    → map_slots blank p ≡ map_slots blank p'
unfolding redact_value_slots decode
mapping-alike r (dict d) {p} {p'} h h' =
    dict-alike (redact r) d h
      (subst (λ t. (decode (dict t) >>= payload_of) ≡ ok p') (redact_slots-map r d) h')
mapping-alike r (tagged kind type d) {p} {p'} h h' =
    dict-alike (redact r) d h
      (subst (λ t. (decode (dict t) >>= payload_of) ≡ ok p') (redact_slots-map r d) h')
mapping-alike r _ h h' = ap (map_slots blank) (sym (same_payload h h'))

row-alike :
    (r : Redactor) (row : Row) {e e' : Event}
    → row_to_event row ≡ ok e
    → row_to_event (redact_row r row) ≡ ok e'
    → map_event blank e ≡ map_event blank e'
unfolding row_to_event redact_row
row-alike r row h h' =
    let (v, dv, rest) = >>=-eq-ok (decode row.payload_json) _ h in
    let (p, dp, out) = >>=-eq-ok (payload_of v) _ rest in
    let (v', dv', rest') = >>=-eq-ok (decode (redact_value_slots r row.payload_json)) _ h' in
    let (p', dp', out') = >>=-eq-ok (payload_of v') _ rest' in
    let whole : (decode row.payload_json >>= payload_of) ≡ ok p =
      ap (λ t. t >>= payload_of) dv ∙ dp in
    let whole' : (decode (redact_value_slots r row.payload_json) >>= payload_of) ≡ ok p' =
      ap (λ t. t >>= payload_of) dv' ∙ dp' in
    let same = mapping-alike r row.payload_json whole whole' in
    sym (ap (map_event blank) (bare_event out))
    ∙ ap
        (λ d. record {
          run_id = row.run_id;
          type = row.type;
          payload = d;
          ts = row.ts;
          seq = row.seq;
        })
        same
    ∙ ap (map_event blank) (bare_event out')

rows-alike :
    (r : Redactor) (rows : List Row) {es es' : List Event}
    → rows_to_events rows ≡ ok es
    → rows_to_events (map (redact_row r) rows) ≡ ok es'
    → map (map_event blank) es ≡ map (map_event blank) es'
unfolding rows_to_events
rows-alike r [] h h' = ap (map (map_event blank)) (bare_events h h')
rows-alike r (row ∷ rows) h h' =
    let (e, one, rest) = >>=-eq-ok (row_to_event row) _ h in
    let (es, more, out) = >>=-eq-ok (rows_to_events rows) _ rest in
    let (e', one', rest') = >>=-eq-ok (row_to_event (redact_row r row)) _ h' in
    let (es', more', out') = >>=-eq-ok (rows_to_events (map (redact_row r) rows)) _ rest' in
    ap (map (map_event blank)) (sym (bare_list out))
    ∙ ap₂ (λ t u. t ∷ u) (row-alike r row one one') (rows-alike r rows more more')
    ∙ ap (map (map_event blank)) (bare_list out')

-- If the rows of a journal can be read, and can be read also with each payload as the store writes
-- it with write-time redaction on, then loading the redacted journal raises what loading the
-- original raises, or both give the same view of the run without the recorded values: the same calls
-- are completed, failed, scheduled and counted, in the same order, and the kept payloads differ in
-- value slots only.
pub load_journal-redacted :
    (r : Redactor) (rows : List Row) (g : Engine) {es es' : List Event}
    → rows_to_events rows ≡ ok es
    → rows_to_events (map (redact_row r) rows) ≡ ok es'
    → without_values (load_journal es' g) ≡ without_values (load_journal es g)
load_journal-redacted r rows g {es} {es'} h h' =
    sym (load_journal-map blank es' g)
    ∙ ap (λ t. load_journal t (map_view blank g)) (sym (rows-alike r rows h h'))
    ∙ load_journal-map blank es g
