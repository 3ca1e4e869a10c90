-- ===== src/Redaction/Masking.antt =====
-- What redaction does to a value (Redactor.redact of redaction.py).
use satay_runtime.Prelude.{
  String, ◌≡◌, refl, sym, ap, ap₂, true, Bool-cases, if◌then◌else◌, inl, inr,
}
use satay_runtime.Value.{
  Value, Items, Fields, null, bool, int, float, str, iso, datetime, timedelta, enum, list, tuple,
  dict, tagged, dataclass, model, object, nil, cons, end, field, odd,
}
use satay_runtime.Redaction.{Redactor, redact, redact_items, redact_fields, matches, redacted_text}

-- At no depth does a mapping hold anything but the placeholder under a key that matches, and there
-- is no TaggedDict and no tuple.
abbrev mutual
  pub IsMasked : Redactor → Value → Type 0
  IsMasked r (dict d) = FieldsMasked r d
  IsMasked r (list l) = ItemsMasked r l
  IsMasked r (tagged kind type d) = ⊥
  IsMasked r (tuple l) = ⊥
  IsMasked r _ = Unit

  pub ItemsMasked : Redactor → Items → Type 0
  ItemsMasked r nil = Unit
  ItemsMasked r (cons v l) = IsMasked r v × ItemsMasked r l

  pub FieldsMasked : Redactor → Fields → Type 0
  FieldsMasked r end = Unit
  FieldsMasked r (field k v d) =
      (matches r k ≡ true → v ≡ str redacted_text) × IsMasked r v × FieldsMasked r d
  FieldsMasked r (odd k v d) = IsMasked r v × FieldsMasked r d

slot-IsMasked :
    (r : Redactor) (k : String) (v : Value)
    → IsMasked r v
    → (matches r k ≡ true → (if matches r k then str redacted_text else v) ≡ str redacted_text)
      × IsMasked r (if matches r k then str redacted_text else v)
slot-IsMasked r k v h = elim (Bool-cases (matches r k)) [
  | inl e ↦ rw e ((λ _. refl), tt)
  | inr e ↦ rw e ((λ c. cc), h)
]

mutual
  unfolding redact redact_items redact_fields

  value-IsMasked : (r : Redactor) (v : Value) → IsMasked r (redact r v)
  value-IsMasked r (dict d) = fields-IsMasked r d
  value-IsMasked r (tagged kind type d) = fields-IsMasked r d
  value-IsMasked r (list l) = items-IsMasked r l
  value-IsMasked r (tuple l) = items-IsMasked r l
  value-IsMasked r null = tt
  value-IsMasked r (bool b) = tt
  value-IsMasked r (int n) = tt
  value-IsMasked r (float x) = tt
  value-IsMasked r (str s) = tt
  value-IsMasked r (iso t) = tt
  value-IsMasked r (datetime t) = tt
  value-IsMasked r (timedelta t) = tt
  value-IsMasked r (enum c v) = tt
  value-IsMasked r (dataclass c d) = tt
  value-IsMasked r (model c v) = tt
  value-IsMasked r (object c) = tt

  items-IsMasked : (r : Redactor) (l : Items) → ItemsMasked r (redact_items r l)
  items-IsMasked r nil = tt
  items-IsMasked r (cons v l) = (value-IsMasked r v, items-IsMasked r l)

  fields-IsMasked : (r : Redactor) (d : Fields) → FieldsMasked r (redact_fields r d)
  fields-IsMasked r end = tt
  fields-IsMasked r (field k v d) =
      let (hidden, masked) = slot-IsMasked r k (redact r v) (value-IsMasked r v) in
      (hidden, masked, fields-IsMasked r d)
  fields-IsMasked r (odd k v d) = (value-IsMasked r v, fields-IsMasked r d)

-- What is masked already stays as it is.
mutual
  unfolding redact redact_items redact_fields

  masked_value : (r : Redactor) (v : Value) → IsMasked r v → redact r v ≡ v
  masked_value r (dict d) h = ap dict (masked_fields r d h)
  masked_value r (tagged kind type d) h = absurd h
  masked_value r (list l) h = ap list (masked_items r l h)
  masked_value r (tuple l) h = absurd h
  masked_value r null h = refl
  masked_value r (bool b) h = refl
  masked_value r (int n) h = refl
  masked_value r (float x) h = refl
  masked_value r (str s) h = refl
  masked_value r (iso t) h = refl
  masked_value r (datetime t) h = refl
  masked_value r (timedelta t) h = refl
  masked_value r (enum c v) h = refl
  masked_value r (dataclass c d) h = refl
  masked_value r (model c v) h = refl
  masked_value r (object c) h = refl

  masked_items : (r : Redactor) (l : Items) → ItemsMasked r l → redact_items r l ≡ l
  masked_items r nil h = refl
  masked_items r (cons v l) h = ap₂ cons (masked_value r v h.0) (masked_items r l h.1)

  masked_fields : (r : Redactor) (d : Fields) → FieldsMasked r d → redact_fields r d ≡ d
  masked_fields r end h = refl
  masked_fields r (field k v d) (hidden, masked, rest) = elim (Bool-cases (matches r k)) [
    | inl e ↦ rw e (ap₂ (λ w t. field k w t) (sym (hidden e)) (masked_fields r d rest))
    | inr e ↦ rw e (ap₂ (λ w t. field k w t) (masked_value r v masked) (masked_fields r d rest))
  ]
  masked_fields r (odd k v d) h =
      ap₂ (λ w t. odd k w t) (masked_value r v h.0) (masked_fields r d h.1)

-- Redacting leaves nothing but the placeholder under a key that matches, at any depth, and a second
-- pass with the same patterns changes nothing.
pub redact-IsMasked :
    (r : Redactor) (v : Value) → IsMasked r (redact r v) × (redact r (redact r v) ≡ redact r v)
redact-IsMasked r v = (value-IsMasked r v, masked_value r (redact r v) (value-IsMasked r v))
