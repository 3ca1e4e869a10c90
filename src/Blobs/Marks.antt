-- ===== src/Blobs/Marks.antt =====
-- The mark phase finds every reference in a value slot (referenced_blob_ids of journal/store.py).
use satay_runtime.Prelude.{
  ◌≡◌, ◌≢◌, refl, ap, subst, ==_ne, ◌∙◌, String, Bool, true, false, ◌&&◌, ◌||◌, Bool-cases, inl,
  inr, List, [], ◌∷◌, All, ◌==◌, string_eq, str_eq_iff, if◌then◌else◌, arith,
}
use satay_runtime.Prelude.Dict.{member, add, member-add}
use satay_runtime.Value.{Value, Fields, dict, end, field, odd}
use satay_runtime.Errors.{ok, ◌>>=◌, >>=-eq-ok}
use satay_runtime.Redaction.{is_value_slot}
use satay_runtime.Blobs.{is_blob_ref, blob_id_of, referenced_in, referenced_from}

-- The references in the value slots of a payload have their ids among `ids`.
abbrev pub IsCovered : List String → Fields → Type 0
IsCovered ids end = Unit
IsCovered ids (odd k v d) = IsCovered ids d
IsCovered ids (field k v d) =
    (is_value_slot k ≡ true
      → is_blob_ref v ≡ true
      → (i : String) × (blob_id_of v ≡ ok i) × (member ids i ≡ true))
    × IsCovered ids d

-- Every id of the first is in the second.
abbrev pub Within : List String → List String → Type 0
Within ids out = (i : String) → member ids i ≡ true → member out i ≡ true

or_right : (a b : Bool) → b ≡ true → (a || b) ≡ true
or_right a b h = ground arith

or_left : (a b : Bool) → a ≡ true → (a || b) ≡ true
or_left a b h = ground arith

not_both : (a b : Bool) → (a && b) ≡ false → a ≡ true → b ≡ true → ⊥
not_both a b h x y = ground arith

pub clash : (a : Bool) → a ≡ true → a ≡ false → ⊥
clash a h k = ground arith

pub second : {A B : Type 0} {p : A × B} {x : A} {y : B} → ok p ≡ ok (x, y) → p.1 ≡ y
second h = cc

Within-add : (ids : List String) (k : String) → Within ids (add ids k)
Within-add ids k i h = member-add ids k i ∙ or_right (k == i) (member ids i) h

member-add_self : (ids : List String) (k : String) → member (add ids k) k ≡ true
member-add_self ids k =
    member-add ids k k ∙ or_left (k == k) (member ids k) ((str_eq_iff k k).1 refl)

-- One slot.
slot_covers :
    (ids : List String) (k : String) (v : Value) {ids' : List String}
    → (if is_value_slot k && is_blob_ref v then (blob_id_of v >>= λ i. ok (add ids i)) else ok ids)
      ≡ ok ids'
    → Within ids ids'
      × (is_value_slot k ≡ true
          → is_blob_ref v ≡ true
          → (i : String) × (blob_id_of v ≡ ok i) × (member ids' i ≡ true))
slot_covers ids k v {ids'} h = elim (Bool-cases (is_value_slot k && is_blob_ref v)) [
  | inl e ↦
      let step : (blob_id_of v >>= λ i. ok (add ids i)) ≡ ok ids' = rw e at h in
      let (i, found, added) = >>=-eq-ok (blob_id_of v) (λ i. ok (add ids i)) step in
      let out : add ids i ≡ ids' = cc added in
      (
        subst (λ l. Within ids l) out (Within-add ids i),
        λ slot ref. (i, found, subst (λ l. member l i ≡ true) out (member-add_self ids i)),
      )
  | inr e ↦
      let out : ids ≡ ids' = cc (rw e at h) in
      (
        subst (λ l. Within ids l) out (λ i m. m),
        λ slot ref. absurd (not_both (is_value_slot k) (is_blob_ref v) e slot ref),
      )
]

payload-IsCovered :
    (ids : List String) (d : Fields) {out : List String}
    → referenced_in ids d ≡ ok out
    → Within ids out × IsCovered out d
unfolding referenced_in
payload-IsCovered ids end {out} h = (subst (λ l. Within ids l) (cc h) (λ i m. m), tt)
payload-IsCovered ids (odd k v d) h = payload-IsCovered ids d h
payload-IsCovered ids (field k v d) {out} h =
    let (ids', one, rest) =
      >>=-eq-ok
        (if is_value_slot k && is_blob_ref v
          then (blob_id_of v >>= λ i. ok (add ids i))
          else ok ids)
        (λ ids'. referenced_in ids' d) h in
    let (first, slot) = slot_covers ids k v one in
    let (more, others) = payload-IsCovered ids' d rest in
    (
      λ i m. more i (first i m),
      (λ s r. (let (i, found, there) = slot s r in (i, found, more i there)), others),
    )

IsCovered-Within :
    (ids out : List String) (d : Fields) → Within ids out → IsCovered ids d → IsCovered out d
IsCovered-Within ids out end w h = tt
IsCovered-Within ids out (odd k v d) w h = IsCovered-Within ids out d w h
IsCovered-Within ids out (field k v d) w h = (
  λ s r. (let (i, found, there) = h.0 s r in (i, found, w i there)),
  IsCovered-Within ids out d w h.1,
)

abbrev pub RowCovered : List String → Value → Type 0
RowCovered ids v = elim v [ dict d ↦ IsCovered ids d | _ ↦ Unit ]

row-RowCovered :
    (ids : List String) (p : Value) {out : List String}
    → elim p [ dict d ↦ referenced_in ids d | _ ↦ ok ids ] ≡ ok out
    → Within ids out × RowCovered out p
row-RowCovered ids (dict d) h = payload-IsCovered ids d h
row-RowCovered ids _ {out} h = (subst (λ l. Within ids l) (cc h) (λ i m. m), tt)

RowCovered-Within :
    (ids out : List String) (v : Value) → Within ids out → RowCovered ids v → RowCovered out v
RowCovered-Within ids out (dict d) w h = IsCovered-Within ids out d w h
RowCovered-Within ids out _ w h = tt

pub rows-RowCovered :
    (ids : List String) (rows : List Value) {out : List String}
    → referenced_from ids rows ≡ ok out
    → Within ids out × All (λ p. RowCovered out p) rows
unfolding referenced_from
rows-RowCovered ids [] {out} h = (subst (λ l. Within ids l) (cc h) (λ i m. m), tt)
rows-RowCovered ids (p ∷ rows) {out} h =
    let (ids', one, rest) =
      >>=-eq-ok (elim p [ dict d ↦ referenced_in ids d | _ ↦ ok ids ])
        (λ ids'. referenced_from ids' rows) h in
    let (first, row) = row-RowCovered ids p one in
    let (more, others) = rows-RowCovered ids' rows rest in
    (λ i m. more i (first i m), (RowCovered-Within ids' out p more row, others))

-- No value slot of the payload has a reference to the blob `i`.
abbrev pub LeavesOut : String → Fields → Type 0
LeavesOut i end = Unit
LeavesOut i (odd k v d) = LeavesOut i d
LeavesOut i (field k v d) =
    (is_value_slot k ≡ true → is_blob_ref v ≡ true → blob_id_of v ≢ ok i) × LeavesOut i d

abbrev pub RowLeavesOut : String → Value → Type 0
RowLeavesOut i v = elim v [ dict d ↦ LeavesOut i d | _ ↦ Unit ]

both_of : (a b : Bool) → (a && b) ≡ true → (a ≡ true) × (b ≡ true)
both_of a b h = ground arith

member-add_other :
    (ids : List String) (j i : String) → j ≢ i → member ids i ≡ false → member (add ids j) i ≡ false
member-add_other ids j i other h = member-add ids j i ∙ rw (==_ne j i other, h)

slot_omits :
    (ids : List String) (k : String) (v : Value) (i : String) {ids' : List String}
    → member ids i ≡ false
    → (is_value_slot k ≡ true → is_blob_ref v ≡ true → blob_id_of v ≢ ok i)
    → (if is_value_slot k && is_blob_ref v then (blob_id_of v >>= λ j. ok (add ids j)) else ok ids)
      ≡ ok ids'
    → member ids' i ≡ false
slot_omits ids k v i {ids'} m lacks h = elim (Bool-cases (is_value_slot k && is_blob_ref v)) [
  | inl e ↦
      let step : (blob_id_of v >>= λ j. ok (add ids j)) ≡ ok ids' = rw e at h in
      let (j, found, added) = >>=-eq-ok (blob_id_of v) (λ j. ok (add ids j)) step in
      let (slot, ref) = both_of (is_value_slot k) (is_blob_ref v) e in
      subst (λ l. member l i ≡ false) (cc added)
        (member-add_other ids j i (λ same. lacks slot ref (found ∙ ap ok same)) m)
  | inr e ↦ subst (λ l. member l i ≡ false) (cc (rw e at h)) m
]

payload_omits :
    (ids : List String) (d : Fields) (i : String) {out : List String}
    → member ids i ≡ false
    → LeavesOut i d
    → referenced_in ids d ≡ ok out
    → member out i ≡ false
unfolding referenced_in
payload_omits ids end i m lacks h = subst (λ l. member l i ≡ false) (cc h) m
payload_omits ids (odd k v d) i m lacks h = payload_omits ids d i m lacks h
payload_omits ids (field k v d) i m lacks h =
    let (ids', one, rest) =
      >>=-eq-ok
        (if is_value_slot k && is_blob_ref v
          then (blob_id_of v >>= λ j. ok (add ids j))
          else ok ids)
        (λ ids'. referenced_in ids' d) h in
    payload_omits ids' d i (slot_omits ids k v i m lacks.0 one) lacks.1 rest

row_omits :
    (ids : List String) (p : Value) (i : String) {out : List String}
    → member ids i ≡ false
    → RowLeavesOut i p
    → elim p [ dict d ↦ referenced_in ids d | _ ↦ ok ids ] ≡ ok out
    → member out i ≡ false
row_omits ids (dict d) i m lacks h = payload_omits ids d i m lacks h
row_omits ids _ i m lacks h = subst (λ l. member l i ≡ false) (cc h) m

-- What no row names in a slot is not marked.
pub rows_omit :
    (ids : List String) (rows : List Value) (i : String) {out : List String}
    → member ids i ≡ false
    → All (λ p. RowLeavesOut i p) rows
    → referenced_from ids rows ≡ ok out
    → member out i ≡ false
unfolding referenced_from
rows_omit ids [] i m lacks h = subst (λ l. member l i ≡ false) (cc h) m
rows_omit ids (p ∷ rows) i m lacks h =
    let (ids', one, rest) =
      >>=-eq-ok (elim p [ dict d ↦ referenced_in ids d | _ ↦ ok ids ])
        (λ ids'. referenced_from ids' rows) h in
    rows_omit ids' rows i (row_omits ids p i m lacks.0 one) lacks.1 rest
