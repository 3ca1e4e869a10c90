-- ===== src/Journal/Codec/RoundTrip.antt =====
-- `decode` after `encode`, and `encode` again after that (journal/codec.py).
use satay_runtime.Prelude.{ℕ, ◌+◌, String, ◌≡◌, refl, inl, inr, none, Bool-cases, ◌==◌, string_eq}
use satay_runtime.Value.{
  Value, Items, Fields, null, bool, int, float, str, iso, datetime, timedelta, enum, list, tuple,
  dict, tagged, dataclass, model, object, nil, cons, end, field, odd, get,
}
use satay_runtime.Errors.{ok, ◌>>=◌}
use satay_runtime.Journal.Codec.{
  encode, encode_items, encode_fields, decode, decode_items, decode_fields, path_of, index, tag_key,
}
use satay_runtime.Journal.Codec.Plain.{
  plain, plain_items, plain_fields, IsClean, CleanItems, CleanFields, HasNoEnum, ItemsHaveNoEnum,
  FieldsHaveNoEnum,
}

-- The encoded form at one path, what it decodes to, and what that encodes to.
record Recodes (p : String) (v : Value) : Type 0 where
  json : Value
  encoded : encode p v ≡ ok json
  decoded : decode json ≡ ok (plain v)
  again : (q : String) → HasNoEnum v → encode q (plain v) ≡ ok json

record RecodesItems (p : String) (i : ℕ) (l : Items) : Type 0 where
  json : Items
  encoded : encode_items p i l ≡ ok json
  decoded : decode_items json ≡ ok (plain_items l)
  again : (q : String) (j : ℕ) → ItemsHaveNoEnum l → encode_items q j (plain_items l) ≡ ok json

record RecodesFields (p : String) (d : Fields) : Type 0 where
  json : Fields
  encoded : encode_fields p d ≡ ok json
  decoded : decode_fields json ≡ ok (plain_fields d)
  again : (q : String) → FieldsHaveNoEnum d → encode_fields q (plain_fields d) ≡ ok json
  -- no key is added
  absent : (k : String) → get d k ≡ none → get json k ≡ none

absent_field :
    (k j : String) (v w : Value) (d e : Fields)
    → (get d j ≡ none → get e j ≡ none)
    → get (field k v d) j ≡ none
    → get (field k w e) j ≡ none
unfolding get
absent_field k j v w d e h a = elim (Bool-cases (k == j)) [
  | inl same ↦ let a' = rw same at a in cc
  | inr other ↦ let a' = rw other at a in rw other (h a')
]

mutual
  unfolding encode decode get

  recodes : (p : String) (v : Value) → IsClean v → Recodes p v
  recodes p null h = record { json = null; encoded = refl; decoded = refl; again = λ q n. refl }
  recodes p (bool b) h = record {
    json = bool b;
    encoded = refl;
    decoded = refl;
    again = λ q n. refl;
  }
  recodes p (int x) h = record { json = int x; encoded = refl; decoded = refl; again = λ q n. refl }
  recodes p (float x) h = record {
    json = float x;
    encoded = refl;
    decoded = refl;
    again = λ q n. refl;
  }
  recodes p (str s) h = record { json = str s; encoded = refl; decoded = refl; again = λ q n. refl }
  recodes p (iso t) h = record { json = iso t; encoded = refl; decoded = refl; again = λ q n. refl }
  recodes p (datetime t) h = record {
    json = dict (field tag_key (str "datetime") (field "v" (iso t) end));
    encoded = refl;
    decoded = refl;
    again = λ q n. refl;
  }
  recodes p (timedelta x) h = record {
    json = dict (field tag_key (str "timedelta") (field "v" (float x) end));
    encoded = refl;
    decoded = refl;
    again = λ q n. refl;
  }
  recodes p (enum c v) h =
      let r = recodes p v h in
      record {
        json = dict (field tag_key (str "enum") (field "type" (str c) (field "v" r.json end)));
        encoded = rw r.encoded;
        decoded = r.decoded;
        again = λ q n. absurd n;
      }
  recodes p (list l) h =
      let r = recodes_items p 0 l h in
      record {
        json = list r.json;
        encoded = rw r.encoded;
        decoded = rw r.decoded;
        again = λ q n. rw (r.again q 0 n);
      }
  recodes p (tuple l) h =
      let r = recodes_items p 0 l h in
      record {
        json = list r.json;
        encoded = rw r.encoded;
        decoded = rw r.decoded;
        again = λ q n. rw (r.again q 0 n);
      }
  recodes p (tagged kind type d) (inl e, h) =
      let r = recodes_fields p d h in
      record {
        json =
            dict (field tag_key (str kind) (field "type" type (field "fields" (dict r.json) end)));
        encoded = rw r.encoded;
        decoded = rw (e, r.decoded);
        again = λ q n. rw (r.again q n);
      }
  recodes p (tagged kind type d) (inr e, h) =
      let r = recodes_fields p d h in
      record {
        json =
            dict (field tag_key (str kind) (field "type" type (field "fields" (dict r.json) end)));
        encoded = rw r.encoded;
        decoded = rw (e, r.decoded);
        again = λ q n. rw (r.again q n);
      }
  recodes p (dataclass c d) h =
      let r = recodes_fields p d h in
      record {
        json = dict (
            field tag_key (str "dataclass")
              (field "type" (str c) (field "fields" (dict r.json) end)));
        encoded = rw r.encoded;
        decoded = rw r.decoded;
        again = λ q n. rw (r.again q n);
      }
  recodes p (model c (dict d)) h =
      let r = recodes_fields p d h in
      record {
        json =
            dict (
              field tag_key (str "model")
                (field "type" (str c) (field "fields" (dict r.json) end)));
        encoded = rw r.encoded;
        decoded = rw r.decoded;
        again = λ q n. rw (r.again q n);
      }
  recodes p (model c _) h = absurd h
  recodes p (dict d) h =
      let r = recodes_fields p d h.1 in
      record {
        json = dict r.json;
        encoded = rw r.encoded;
        decoded = rw (r.absent tag_key h.0, r.decoded);
        again = λ q n. rw (r.again q n);
      }
  recodes p (object c) h = absurd h

  recodes_items : (p : String) (i : ℕ) (l : Items) → CleanItems l → RecodesItems p i l
  recodes_items p i nil h = record {
    json = nil;
    encoded = refl;
    decoded = refl;
    again = λ q j n. refl;
  }
  recodes_items p i (cons v l) h =
      let r = recodes (index p i) v h.0 in
      let s = recodes_items p (i + 1) l h.1 in
      record {
        json = cons r.json s.json;
        encoded = rw (r.encoded, s.encoded);
        decoded = rw (r.decoded, s.decoded);
        again = λ q j n. rw (r.again (index q j) n.0, s.again q (j + 1) n.1);
      }

  recodes_fields : (p : String) (d : Fields) → CleanFields d → RecodesFields p d
  recodes_fields p end h = record {
    json = end;
    encoded = refl;
    decoded = refl;
    again = λ q n. refl;
    absent = λ k e. refl;
  }
  recodes_fields p (field k v d) h =
      let r = recodes (path_of p k) v h.0 in
      let s = recodes_fields p d h.1 in
      record {
        json = field k r.json s.json;
        encoded = rw (r.encoded, s.encoded);
        decoded = rw (r.decoded, s.decoded);
        again = λ q n. rw (r.again (path_of q k) n.0, s.again q n.1);
        absent = λ j e. absent_field k j v r.json d s.json (s.absent j) e;
      }
  recodes_fields p (odd r v d) h = absurd h

-- For a clean value encode returns, and decoding the result gives the plain form of the value.
pub decode-encode : (p : String) (v : Value) → IsClean v → (encode p v >>= decode) ≡ ok (plain v)
decode-encode p v h = let r = recodes p v h in rw (r.encoded, r.decoded)

-- For a clean value without enum members, encoding its plain form gives the JSON that encoding the
-- value gives, whatever the paths.
pub encode-plain :
    (p q : String) (v : Value) → IsClean v → HasNoEnum v → encode q (plain v) ≡ encode p v
encode-plain p q v h n = let r = recodes p v h in rw (r.encoded, r.again q n)
