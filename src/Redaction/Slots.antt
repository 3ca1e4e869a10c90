-- ===== src/Redaction/Slots.antt =====
-- Payloads that differ in their value slots only (is_value_slot of redaction.py).
use satay_runtime.Prelude.{
  String, ◌≡◌, refl, ◌∙◌, false, Bool-cases, if◌then◌else◌, inl, inr, Option, none, some,
  Option-cases, ◌==◌, string_eq, str_eq_iff,
}
use satay_runtime.Value.{Value, Fields, end, field, odd, get}
use satay_runtime.Redaction.{is_value_slot}

-- The payload with `f` applied to its value slots.
unfoldable pub map_slots : (Value → Value) → Fields → Fields
map_slots f end = end
map_slots f (field k v d) = field k (if is_value_slot k then f v else v) (map_slots f d)
map_slots f (odd k v d) = odd k v (map_slots f d)

abbrev in_slot : (Value → Value) → String → Value → Value
in_slot f k v = if is_value_slot k then f v else v

abbrev pub map_option {ℓ κ} : {A : Type ℓ} {B : Type κ} → (A → B) → Option A → Option B
map_option f none = none
map_option f (some a) = some (f a)

pub get-map_slots :
    (f : Value → Value) (d : Fields) (k : String)
    → get (map_slots f d) k ≡ map_option (in_slot f k) (get d k)
unfolding get map_slots
get-map_slots f end k = refl
get-map_slots f (field j v d) k = elim (Bool-cases (j == k)) [
  | inl e ↦ rw (e, (str_eq_iff j k).0 e) refl
  | inr e ↦ rw e (get-map_slots f d k)
]
get-map_slots f (odd j v d) k = get-map_slots f d k

pub structure_stays :
    (f : Value → Value) (d : Fields) (k : String)
    → is_value_slot k ≡ false
    → get (map_slots f d) k ≡ get d k
structure_stays f d k h = elim (Option-cases (get d k)) [
  | inl e ↦ get-map_slots f d k ∙ rw e
  | inr (v, e) ↦ get-map_slots f d k ∙ rw (e, h)
]
