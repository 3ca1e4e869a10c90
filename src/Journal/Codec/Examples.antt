-- ===== src/Journal/Codec/Examples.antt =====
-- Runs of journal/codec.py on concrete values.
use satay_runtime.Prelude.{◌≡◌, refl}
use satay_runtime.Prelude.Int.{pos}
use satay_runtime.Value.{
  Value, int, str, iso, datetime, enum, tuple, dict, dataclass, nil, cons, end, field, get, list,
}
use satay_runtime.Errors.{ok, raise, ◌>>=◌, decode_error, Ensures}
use satay_runtime.Journal.Codec.{encode, decode}
use satay_runtime.Journal.Codec.Plain.{plain, IsClean}
use satay_runtime.Journal.Codec.Json.{IsJson, encode-IsJson}
use satay_runtime.Journal.Codec.RoundTrip.{decode-encode}

abbrev order : Value
order = dict (
    field "at" (datetime 7) (
      field "lines"
        (tuple (cons (int (pos 2)) (cons (dataclass "Line" (field "sku" (str "a") end)) nil))) end))

abbrev coloured : Value
coloured = dict (field "colour" (enum "Colour" (str "red")) end)

order-encoded :
    encode "$" order
    ≡ ok (
        dict (
          field "at" (dict (field "$satay" (str "datetime") (field "v" (iso 7) end))) (
            field "lines"
              (list (
                cons (int (pos 2)) (
                  cons
                    (dict (
                      field "$satay" (str "dataclass") (
                        field "type"
                          (str "Line")
                          (field "fields" (dict (field "sku" (str "a") end)) end))))
                    nil)))
              end)))
unfolding encode
order-encoded = refl

-- A user's own dict with the tag's key is written as it stands, and cannot be read back.
tagged_dict-refused :
    (encode "$" (dict (field "$satay" (str "mine") end)) >>= decode)
    ≡ raise (decode_error "unknown tagged kind mine")
unfolding encode decode get
tagged_dict-refused = refl

order-IsClean : IsClean order
unfolding get
order-IsClean = (refl, (tt, ((tt, ((tt, tt), tt)), tt)))

coloured-IsClean : IsClean coloured
unfolding get
coloured-IsClean = (refl, (tt, tt))

decode-encode_example : (encode "$" coloured >>= decode) ≡ ok (plain coloured)
decode-encode_example = decode-encode "$" coloured coloured-IsClean

encode-IsJson_example : Ensures IsJson (encode "$" order)
encode-IsJson_example = encode-IsJson "$" order (tt, ((tt, ((tt, tt), tt)), tt))
