-- ===== src/Diff.antt =====
-- The structural diff of two recorded values (valuediff.py).
-- `==` on Python values is written out: numbers compare by value whatever their type, and mappings
-- without regard to order. A key that is not a str has the text of its repr for str(key).
mod Keeps
mod Quiet
pub mod Equality
pub mod Silence
pub mod Bounds
mod Examples
use satay_runtime.Prelude.{
  ℕ, zero, suc, ◌+◌, ◌-◌, ◌*◌, String, Bool, true, false, ◌&&◌, ◌||◌, not, Option, none, some, List,
  [], ◌∷◌, ◌++◌, length, ltb, leb, nat_eq, str_eq, ◌==◌, string_eq, if◌then◌else◌,
}
use satay_runtime.Prelude.Int.{ℤ, pos, negsuc, int_beq}
use satay_runtime.Prelude.Text.{◌<>◌, str_nat, starts_with}
use satay_runtime.Value.{
  Value, Items, Fields, null, bool, int, float, str, iso, datetime, timedelta, enum, list, tuple,
  dict, tagged, dataclass, model, object, nil, cons, end, field, odd, get,
}
use satay_runtime.Redaction.{redacted_text}

-- A whole number in millionths.
abbrev scale : ℤ → ℤ
scale (pos n) = pos (n * 1000000)
scale (negsuc n) = negsuc (suc n * 1000000 - 1)

-- A number of any of the three types, in millionths.
abbrev number : Value → Option ℤ
number (bool b) = some (if b then pos 1000000 else pos 0)
number (int n) = some (scale n)
number (float x) = some x
number _ = none

abbrev number_eq_to : ℤ → Value → Bool
number_eq_to x b = elim (number b) [ none ↦ false | some y ↦ int_beq x y ]

-- isinstance(value, Mapping), and the mapping
abbrev pub mapping : Value → Option Fields
mapping (dict d) = some d
mapping (tagged kind type d) = some d
mapping _ = none

-- _is_sequence, and the sequence
abbrev pub sequence : Value → Option Items
sequence (list l) = some l
sequence (tuple l) = some l
sequence _ = none

-- d.get(k) for a key that is not a str
unfoldable pub get_odd : Fields → String → Option Value
get_odd end r = none
get_odd (field k v d) r = get_odd d r
get_odd (odd q v d) r = if q == r then some v else get_odd d r

abbrev pub size : Items → ℕ
size nil = 0
size (cons v l) = suc (size l)

abbrev is_some : Option Value → Bool
is_some none = false
is_some (some v) = true

-- Every key of the second mapping is in the first.
unfoldable pub keys_in : Fields → Fields → Bool
keys_in d end = true
keys_in d (field k v e) = is_some (get d k) && keys_in d e
keys_in d (odd r v e) = is_some (get_odd d r) && keys_in d e

-- a == b
unfoldable mutual
  unfolding get_odd keys_in

  pub py_eq : Value → Value → Bool
  py_eq null b = elim b [ null ↦ true | _ ↦ false ]
  py_eq (bool x) b = number_eq_to (if x then pos 1000000 else pos 0) b
  py_eq (int n) b = number_eq_to (scale n) b
  py_eq (float x) b = number_eq_to x b
  py_eq (str s) b = elim b [ str t ↦ s == t | _ ↦ false ]
  py_eq (iso s) b = elim b [ iso t ↦ nat_eq s t | _ ↦ false ]
  py_eq (datetime s) b = elim b [ datetime t ↦ nat_eq s t | _ ↦ false ]
  py_eq (timedelta s) b = elim b [ timedelta t ↦ int_beq s t | _ ↦ false ]
  py_eq (enum c v) b = elim b [ enum d u ↦ c == d && py_eq v u | _ ↦ false ]
  py_eq (list l) b = elim b [ list m ↦ items_eq l m | _ ↦ false ]
  py_eq (tuple l) b = elim b [ tuple m ↦ items_eq l m | _ ↦ false ]
  py_eq (dict d) b = elim (mapping b) [ none ↦ false | some e ↦ fields_eq d e && keys_in d e ]
  py_eq (tagged kind type d) b = elim (mapping b) [
    | none ↦ false
    | some e ↦ fields_eq d e && keys_in d e
  ]
  py_eq (dataclass c d) b = elim b [
    | dataclass c' e ↦ c == c' && fields_eq d e && keys_in d e
    | _ ↦ false
  ]
  py_eq (model c v) b = elim b [ model c' u ↦ c == c' && py_eq v u | _ ↦ false ]
  py_eq (object c) b = elim b [ object c' ↦ c == c' | _ ↦ false ]

  pub items_eq : Items → Items → Bool
  items_eq nil m = elim m [ nil ↦ true | cons u m' ↦ false ]
  items_eq (cons v l) m = elim m [ nil ↦ false | cons u m' ↦ py_eq v u && items_eq l m' ]

  -- Every item of the first mapping is in the second, with an equal value.
  pub fields_eq : Fields → Fields → Bool
  fields_eq end e = true
  fields_eq (field k v d) e = elim (get e k) [ none ↦ false | some u ↦ py_eq v u && fields_eq d e ]
  fields_eq (odd r v d) e = elim (get_odd e r) [
    | none ↦ false
    | some u ↦ py_eq v u && fields_eq d e
  ]

abbrev pub max_paths : ℕ
max_paths = 50

abbrev pub max_depth : ℕ
max_depth = 8

abbrev pub root : String
root = "."

-- _join
unfoldable pub join : String → String → String
join prefix segment =
    if prefix == root
    then (if starts_with segment "[" then segment else "." <> segment)
    else if starts_with segment "["
    then prefix <> segment
    else prefix <> ("." <> segment)

-- _Walk
pub record Walk : Type 0 where
  pub paths : List String
  pub redacted : Bool
  pub truncated : Bool

abbrev pub new_walk : Walk
new_walk = record { paths = []; redacted = false; truncated = false }

unfoldable pub add : Walk → String → Walk
add w path =
    if leb max_paths (length w.paths)
    then record w { truncated = true }
    else record w { paths = w.paths ++ path ∷ [] }

unfoldable pub full : Walk → Bool
full w = w.truncated && leb max_paths (length w.paths)

-- The early returns of `_walk`, and the rest of it, `inner`, behind them.
unfoldable pub gate : Value → Value → String → ℕ → (Walk → Walk) → Walk → Walk
unfolding add full
gate a b path depth inner w = elim (full w) [
  | true ↦ w
  | false ↦ elim (py_eq a (str redacted_text) || py_eq b (str redacted_text)) [
    | true ↦ if not (py_eq a b) then add w path else record w { redacted = true }
    | false ↦ elim (leb max_depth depth) [
      | true ↦ if not (py_eq a b) then add (record w { truncated = true }) path else w
      | false ↦ inner w
    ]
  ]
]

-- if a != b: out.add(path)
unfoldable pub leaf : Value → Value → String → Walk → Walk
unfolding add
leaf a b path w = if not (py_eq a b) then add w path else w

-- The keys of the second mapping that the first does not have.
unfoldable pub absent_keys : Fields → Fields → String → Walk → Walk
unfolding add get_odd join
absent_keys d end path w = w
absent_keys d (field k v e) path w =
    absent_keys d e path (if is_some (get d k) then w else add w (join path k))
absent_keys d (odd r v e) path w =
    absent_keys d e path (if is_some (get_odd d r) then w else add w (join path r))

-- _walk
unfoldable mutual
  unfolding gate leaf absent_keys add join

  pub walk : Value → Value → String → ℕ → Walk → Walk
  walk (dict d) b path depth = gate (dict d) b path depth (λ w. elim (mapping b) [
    | none ↦ leaf (dict d) b path w
    | some e ↦ absent_keys d e path (walk_fields d e path (suc depth) w)
  ])
  walk (tagged kind type d) b path depth = gate (tagged kind type d) b path depth (λ w.
      elim (mapping b) [
        | none ↦ leaf (tagged kind type d) b path w
        | some e ↦ absent_keys d e path (walk_fields d e path (suc depth) w)
      ])
  walk (list l) b path depth = gate (list l) b path depth (λ w. elim (sequence b) [
    | none ↦ leaf (list l) b path w
    | some m ↦ elim (nat_eq (size l) (size m)) [
      | false ↦ add w path
      | true ↦ walk_items l m path 0 (suc depth) w
    ]
  ])
  walk (tuple l) b path depth = gate (tuple l) b path depth (λ w. elim (sequence b) [
    | none ↦ leaf (tuple l) b path w
    | some m ↦ elim (nat_eq (size l) (size m)) [
      | false ↦ add w path
      | true ↦ walk_items l m path 0 (suc depth) w
    ]
  ])
  walk a b path depth = gate a b path depth (leaf a b path)

  pub walk_fields : Fields → Fields → String → ℕ → Walk → Walk
  walk_fields end e path depth w = w
  walk_fields (field k v d) e path depth w =
      walk_fields d e path depth
        (elim (get e k) [ none ↦ add w (join path k) | some u ↦ walk v u (join path k) depth w ])
  walk_fields (odd r v d) e path depth w =
      walk_fields d e path depth (elim (get_odd e r) [
        | none ↦ add w (join path r)
        | some u ↦ walk v u (join path r) depth w
      ])

  pub walk_items : Items → Items → String → ℕ → ℕ → Walk → Walk
  walk_items nil m path index depth w = w
  walk_items (cons v l) m path index depth w = elim m [
    | nil ↦ w
    | cons u m' ↦
        walk_items l m' path (suc index) depth
          (walk v u (join path ("[" <> (str_nat index <> "]"))) depth w)
  ]

pub record Difference : Type 0 where
  pub changed : Bool
  pub paths : List String
  pub redacted : Bool
  pub truncated : Bool

unfoldable pub diff_values : Value → Value → Difference
unfolding walk
diff_values a b =
    let w = walk a b root 0 new_walk in
    record {
      changed = ltb 0 (length w.paths);
      paths = w.paths;
      redacted = w.redacted;
      truncated = w.truncated;
    }
