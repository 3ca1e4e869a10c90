-- ===== src/Journal/Codec/Plain.antt =====
-- What a reader of the journal gets back for a value (journal/codec.py, `decode` after `encode`):
-- tuples as lists, enum members as their values, dataclasses and models as TaggedDicts.
use satay_runtime.Prelude.{◌≡◌, ◌⊎◌, none}
use satay_runtime.Value.{
  Value, Items, Fields, str, enum, list, tuple, dict, tagged, dataclass, model, object, nil, cons,
  end, field, odd, get,
}
use satay_runtime.Journal.Codec.{tag_key}

abbrev mutual
  pub plain : Value → Value
  plain (enum c v) = plain v
  plain (list l) = list (plain_items l)
  plain (tuple l) = list (plain_items l)
  plain (dict d) = dict (plain_fields d)
  plain (tagged kind type d) = tagged kind type (plain_fields d)
  plain (dataclass c d) = tagged "dataclass" (str c) (plain_fields d)
  plain (model c raw) = tagged "model" (str c) (plain_entries raw)
  plain v = v

  pub plain_items : Items → Items
  plain_items nil = nil
  plain_items (cons v l) = cons (plain v) (plain_items l)

  pub plain_fields : Fields → Fields
  plain_fields end = end
  plain_fields (field k v d) = field k (plain v) (plain_fields d)
  plain_fields (odd r v d) = odd r (plain v) (plain_fields d)

  pub plain_entries : Value → Fields
  plain_entries (dict d) = plain_fields d
  plain_entries v = end

-- The values for which the tags are unambiguous: no object without a JSON form, no key that is not a
-- str, no dict of the user's own with the tag's key, and models that dump to objects.
abbrev mutual
  pub IsClean : Value → Type 0
  IsClean (enum c v) = IsClean v
  IsClean (list l) = CleanItems l
  IsClean (tuple l) = CleanItems l
  IsClean (dict d) = (get d tag_key ≡ none) × CleanFields d
  IsClean (tagged kind type d) = ((kind ≡ "dataclass") ⊎ (kind ≡ "model")) × CleanFields d
  IsClean (dataclass c d) = CleanFields d
  IsClean (model c raw) = IsCleanDump raw
  IsClean (object c) = ⊥
  IsClean _ = Unit

  pub CleanItems : Items → Type 0
  CleanItems nil = Unit
  CleanItems (cons v l) = IsClean v × CleanItems l

  pub CleanFields : Fields → Type 0
  CleanFields end = Unit
  CleanFields (field k v d) = IsClean v × CleanFields d
  CleanFields (odd r v d) = ⊥

  pub IsCleanDump : Value → Type 0
  IsCleanDump (dict d) = CleanFields d
  IsCleanDump _ = ⊥

-- No enum member is left anywhere: `decode` drops their class.
abbrev mutual
  pub HasNoEnum : Value → Type 0
  HasNoEnum (enum c v) = ⊥
  HasNoEnum (list l) = ItemsHaveNoEnum l
  HasNoEnum (tuple l) = ItemsHaveNoEnum l
  HasNoEnum (dict d) = FieldsHaveNoEnum d
  HasNoEnum (tagged kind type d) = FieldsHaveNoEnum d
  HasNoEnum (dataclass c d) = FieldsHaveNoEnum d
  HasNoEnum (model c raw) = HasNoEnum raw
  HasNoEnum _ = Unit

  pub ItemsHaveNoEnum : Items → Type 0
  ItemsHaveNoEnum nil = Unit
  ItemsHaveNoEnum (cons v l) = HasNoEnum v × ItemsHaveNoEnum l

  pub FieldsHaveNoEnum : Fields → Type 0
  FieldsHaveNoEnum end = Unit
  FieldsHaveNoEnum (field k v d) = HasNoEnum v × FieldsHaveNoEnum d
  FieldsHaveNoEnum (odd r v d) = ⊥
