-- ===== src/Journal/Codec/Json.antt =====
-- What `encode` of journal/codec.py returns is JSON, and it leaves JSON as it is.
use satay_runtime.Prelude.{ℕ, ◌+◌, String, ◌≡◌, refl}
use satay_runtime.Value.{
  Value, Items, Fields, null, bool, int, float, str, iso, datetime, timedelta, enum, list, tuple,
  dict, tagged, dataclass, model, object, nil, cons, end, field, odd,
}
use satay_runtime.Errors.{ok, Ensures, Ensures-bind}
use satay_runtime.Journal.Codec.{encode, encode_items, encode_fields, path_of, index}

-- A value that `json.dumps` takes and `json.loads` returns.
abbrev mutual
  pub IsJson : Value → Type 0
  IsJson null = Unit
  IsJson (bool b) = Unit
  IsJson (int n) = Unit
  IsJson (float x) = Unit
  IsJson (str s) = Unit
  IsJson (iso t) = Unit
  IsJson (list l) = JsonItems l
  IsJson (dict d) = JsonFields d
  IsJson _ = ⊥

  pub JsonItems : Items → Type 0
  JsonItems nil = Unit
  JsonItems (cons v l) = IsJson v × JsonItems l

  pub JsonFields : Fields → Type 0
  JsonFields end = Unit
  JsonFields (field k v d) = IsJson v × JsonFields d
  JsonFields (odd r v d) = ⊥

-- The discriminator of a TaggedDict is written as it stands, so it has to be JSON too.
abbrev mutual
  pub HasJsonTags : Value → Type 0
  HasJsonTags (enum c v) = HasJsonTags v
  HasJsonTags (list l) = ItemsHaveJsonTags l
  HasJsonTags (tuple l) = ItemsHaveJsonTags l
  HasJsonTags (dict d) = FieldsHaveJsonTags d
  HasJsonTags (tagged kind type d) = IsJson type × FieldsHaveJsonTags d
  HasJsonTags (dataclass c d) = FieldsHaveJsonTags d
  HasJsonTags (model c raw) = HasJsonTags raw
  HasJsonTags _ = Unit

  pub ItemsHaveJsonTags : Items → Type 0
  ItemsHaveJsonTags nil = Unit
  ItemsHaveJsonTags (cons v l) = HasJsonTags v × ItemsHaveJsonTags l

  pub FieldsHaveJsonTags : Fields → Type 0
  FieldsHaveJsonTags end = Unit
  FieldsHaveJsonTags (field k v d) = HasJsonTags v × FieldsHaveJsonTags d
  FieldsHaveJsonTags (odd r v d) = HasJsonTags v × FieldsHaveJsonTags d

mutual
  unfolding encode

  value-IsJson : (p : String) (v : Value) → HasJsonTags v → Ensures IsJson (encode p v)
  value-IsJson p null h = tt
  value-IsJson p (bool b) h = tt
  value-IsJson p (int n) h = tt
  value-IsJson p (float x) h = tt
  value-IsJson p (str s) h = tt
  value-IsJson p (iso t) h = tt
  value-IsJson p (datetime t) h = (tt, (tt, tt))
  value-IsJson p (timedelta d) h = (tt, (tt, tt))
  value-IsJson p (enum c v) h =
      Ensures-bind IsJson IsJson (encode p v) _ (value-IsJson p v h) (λ e k. (tt, (tt, (k, tt))))
  value-IsJson p (list l) h =
      Ensures-bind JsonItems IsJson (encode_items p 0 l) _ (items-IsJson p 0 l h) (λ es k. k)
  value-IsJson p (tuple l) h =
      Ensures-bind JsonItems IsJson (encode_items p 0 l) _ (items-IsJson p 0 l h) (λ es k. k)
  value-IsJson p (tagged kind type d) h =
      Ensures-bind JsonFields IsJson (encode_fields p d) _ (fields-IsJson p d h.1)
        (λ es k. (tt, (h.0, (k, tt))))
  value-IsJson p (dataclass c d) h =
      Ensures-bind JsonFields IsJson (encode_fields p d) _ (fields-IsJson p d h)
        (λ es k. (tt, (tt, (k, tt))))
  value-IsJson p (model c raw) h =
      Ensures-bind IsJson IsJson (encode p raw) _ (value-IsJson p raw h)
        (λ e k. (tt, (tt, (k, tt))))
  value-IsJson p (dict d) h =
      Ensures-bind JsonFields IsJson (encode_fields p d) _ (fields-IsJson p d h) (λ es k. k)
  value-IsJson p (object c) h = tt

  items-IsJson :
      (p : String) (i : ℕ) (l : Items)
      → ItemsHaveJsonTags l
      → Ensures JsonItems (encode_items p i l)
  items-IsJson p i nil h = tt
  items-IsJson p i (cons v l) h =
      Ensures-bind IsJson JsonItems (encode (index p i) v) _ (value-IsJson (index p i) v h.0)
        (λ e k.
          Ensures-bind JsonItems JsonItems (encode_items p (i + 1) l) _
            (items-IsJson p (i + 1) l h.1) (λ es ks. (k, ks)))

  fields-IsJson :
      (p : String) (d : Fields) → FieldsHaveJsonTags d → Ensures JsonFields (encode_fields p d)
  fields-IsJson p end h = tt
  fields-IsJson p (field k v d) h =
      Ensures-bind IsJson JsonFields (encode (path_of p k) v) _ (value-IsJson (path_of p k) v h.0)
        (λ e j.
          Ensures-bind JsonFields JsonFields (encode_fields p d) _ (fields-IsJson p d h.1)
            (λ es js. (j, js)))
  fields-IsJson p (odd r v d) h = tt

mutual
  unfolding encode

  value-fixed : (p : String) (j : Value) → IsJson j → encode p j ≡ ok j
  value-fixed p null h = refl
  value-fixed p (bool b) h = refl
  value-fixed p (int n) h = refl
  value-fixed p (float x) h = refl
  value-fixed p (str s) h = refl
  value-fixed p (iso t) h = refl
  value-fixed p (list l) h = rw (items-fixed p 0 l h)
  value-fixed p (dict d) h = rw (fields-fixed p d h)
  value-fixed p _ h = absurd h

  items-fixed : (p : String) (i : ℕ) (l : Items) → JsonItems l → encode_items p i l ≡ ok l
  items-fixed p i nil h = refl
  items-fixed p i (cons v l) h = rw (value-fixed (index p i) v h.0, items-fixed p (i + 1) l h.1)

  fields-fixed : (p : String) (d : Fields) → JsonFields d → encode_fields p d ≡ ok d
  fields-fixed p end h = refl
  fields-fixed p (field k v d) h = rw (value-fixed (path_of p k) v h.0, fields-fixed p d h.1)
  fields-fixed p (odd r v d) h = absurd h

-- What encode returns, if it returns, is JSON, provided every TaggedDict in its input has a JSON
-- discriminator.
pub encode-IsJson : (p : String) (v : Value) → HasJsonTags v → Ensures IsJson (encode p v)
encode-IsJson p v h = value-IsJson p v h

-- encode returns a JSON value unchanged, whatever the path.
pub encode-fixed : (p : String) (j : Value) → IsJson j → encode p j ≡ ok j
encode-fixed p j h = value-fixed p j h

pub encode_fields-fixed : (p : String) (d : Fields) → JsonFields d → encode_fields p d ≡ ok d
encode_fields-fixed p d h = fields-fixed p d h
