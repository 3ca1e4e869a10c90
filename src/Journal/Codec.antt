-- ===== src/Journal/Codec.antt =====
-- journal/codec.py: `encode` into JSON-compatible values with tagged types, and `decode`.
mod Examples
pub mod Plain
pub mod RoundTrip
pub mod Json
use satay_runtime.Prelude.{
  ℕ, ◌+◌, ◌-◌, ◌*◌, String, Bool, true, false, Option, none, some, ◌==◌, string_eq, if◌then◌else◌,
}
use satay_runtime.Prelude.Text.{◌<>◌, str_nat}
use satay_runtime.Prelude.Int.{ℤ, pos, negsuc}
use satay_runtime.Value.{
  Value, Items, Fields, null, bool, int, float, str, iso, datetime, timedelta, enum, list, tuple,
  dict, tagged, dataclass, model, object, nil, cons, end, field, odd, get, literal,
}
use satay_runtime.Errors.{
  Result, ok, raise, ◌>>=◌, encode_error, decode_error, key_error, type_error, value_error,
}

-- TAG_KEY
abbrev pub tag_key : String
tag_key = "$satay"

unfoldable pub path_of : String → String → String
path_of base key = base <> "." <> key

unfoldable pub index : String → ℕ → String
index base i = base <> "[" <> str_nat i <> "]"

unfoldable mutual
  pub encode : String → Value → Result Value
  encode path null = ok null
  encode path (bool b) = ok (bool b)
  encode path (int n) = ok (int n)
  encode path (float x) = ok (float x)
  encode path (str s) = ok (str s)
  encode path (iso t) = ok (iso t)
  encode path (datetime t) = ok (dict (field tag_key (str "datetime") (field "v" (iso t) end)))
  encode path (timedelta d) = ok (dict (field tag_key (str "timedelta") (field "v" (float d) end)))
  encode path (enum c v) = do
    e ← encode path v
    ok (dict (field tag_key (str "enum") (field "type" (str c) (field "v" e end))))
  encode path (list l) = do es ← encode_items path 0 l; ok (list es)
  encode path (tuple l) = do es ← encode_items path 0 l; ok (list es)
  encode path (tagged kind type d) = do
    es ← encode_fields path d
    ok (dict (field tag_key (str kind) (field "type" type (field "fields" (dict es) end))))
  encode path (dataclass c d) = do
    es ← encode_fields path d
    ok (
        dict
          (field tag_key (str "dataclass") (field "type" (str c) (field "fields" (dict es) end))))
  encode path (model c raw) = do
    e ← encode path raw
    ok (dict (field tag_key (str "model") (field "type" (str c) (field "fields" e end))))
  encode path (dict d) = do es ← encode_fields path d; ok (dict es)
  encode path (object c) =
      raise (encode_error ("cannot encode value of type " <> c <> " at " <> path))

  pub encode_items : String → ℕ → Items → Result Items
  encode_items path i nil = ok nil
  encode_items path i (cons v l) = do
    e ← encode (index path i) v
    es ← encode_items path (i + 1) l
    ok (cons e es)

  pub encode_fields : String → Fields → Result Fields
  encode_fields path end = ok end
  encode_fields path (field k v d) = do
    e ← encode (path_of path k) v
    es ← encode_fields path d
    ok (field k e es)
  encode_fields path (odd r v d) =
      raise (encode_error ("non-string dict key " <> r <> " at " <> path))

-- datetime.fromisoformat(v), where v is data["v"]
abbrev pub parse_datetime : Option Value → Result Value
parse_datetime none = raise (key_error "v")
parse_datetime (some (iso t)) = ok (datetime t)
parse_datetime (some (str s)) = raise (value_error ("Invalid isoformat string: " <> s))
parse_datetime (some _) = raise (type_error "fromisoformat: argument must be str")

abbrev pub seconds : ℤ → ℤ
seconds (pos n) = pos (n * 1000000)
seconds (negsuc n) = negsuc ((n + 1) * 1000000 - 1)

-- timedelta(seconds=v), where v is data["v"]
abbrev pub parse_timedelta : Option Value → Result Value
parse_timedelta none = raise (key_error "v")
parse_timedelta (some (float d)) = ok (timedelta d)
parse_timedelta (some (int n)) = ok (timedelta (seconds n))
parse_timedelta (some (bool true)) = ok (timedelta (pos 1000000))
parse_timedelta (some (bool false)) = ok (timedelta (pos 0))
parse_timedelta (some _) = raise (type_error "unsupported type for timedelta seconds component")

-- data.get("type")
abbrev pub type_entry : Fields → Value
type_entry d = elim (get d "type") [ none ↦ null | some t ↦ t ]

-- What `decode` makes of an object with the tag `tag`, where `plain`, `v` and `fields` are what it
-- gets by decoding the items, the entry "v" and the items of the entry "fields".
abbrev pub untag :
    Option Value → Fields → Result Fields → Result Value → Result Fields → Result Value
untag none d plain v fields = do es ← plain; ok (dict es)
untag (some null) d plain v fields = do es ← plain; ok (dict es)
untag (some (str tag)) d plain v fields =
    if tag == "datetime"
    then parse_datetime (get d "v")
    else if tag == "timedelta"
    then parse_timedelta (get d "v")
    else if tag == "enum"
    then v
    else if tag == "dataclass"
    then (do es ← fields; ok (tagged tag (type_entry d) es))
    else if tag == "model"
    then (do es ← fields; ok (tagged tag (type_entry d) es))
    else raise (decode_error ("unknown tagged kind " <> tag))
untag (some _) d plain v fields = raise (decode_error "unknown tagged kind")

unfoldable mutual
  pub decode : Value → Result Value
  decode (list l) = do vs ← decode_items l; ok (list vs)
  decode (dict d) =
      untag (get d tag_key) d (decode_fields d) (decode_at "v" d) (decode_object "fields" d)
  decode (tagged kind type d) =
      untag (get d tag_key) d (decode_fields d) (decode_at "v" d) (decode_object "fields" d)
  decode v = ok v

  pub decode_items : Items → Result Items
  decode_items nil = ok nil
  decode_items (cons v l) = do e ← decode v; es ← decode_items l; ok (cons e es)

  pub decode_fields : Fields → Result Fields
  decode_fields end = ok end
  decode_fields (field k v d) = do e ← decode v; es ← decode_fields d; ok (field k e es)
  decode_fields (odd r v d) = do e ← decode v; es ← decode_fields d; ok (odd r e es)

  -- decode(data[key])
  pub decode_at : String → Fields → Result Value
  decode_at key end = raise (key_error key)
  decode_at key (field k v d) = if k == key then decode v else decode_at key d
  decode_at key (odd r v d) = decode_at key d

  -- {k: decode(v) for k, v in data[key].items()}, refused where data[key] is no dict
  pub decode_object : String → Fields → Result Fields
  decode_object key end = raise (decode_error "tagged value has a 'NoneType' 'fields' entry")
  decode_object key (field k v d) = if k == key then decode_entries v else decode_object key d
  decode_object key (odd r v d) = decode_object key d

  pub decode_entries : Value → Result Fields
  decode_entries (dict d) = decode_fields d
  decode_entries (tagged kind type d) = decode_fields d
  decode_entries v = raise (decode_error "tagged value has a 'fields' entry that is no object")
