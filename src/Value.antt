-- ===== src/Value.antt =====
-- The Python values that the runtime carries: what user code passes in and returns, their encoded
-- JSON form, and what the codec decodes that form to (journal/codec.py).
-- A float and a timedelta are held in millionths (of one, of a second), a datetime as its instant.
use satay_runtime.Prelude.{
  ℕ, String, Bool, true, false, Option, none, some, List, [], ◌∷◌, ◌==◌, string_eq, if◌then◌else◌,
}
use satay_runtime.Prelude.Int.{ℤ}

mutual
  pub data Value : Type 0 where
    null : Value
    bool : Bool → Value
    int : ℤ → Value
    float : ℤ → Value
    str : String → Value
    -- the text that `datetime.isoformat` prints for an instant
    iso : ℕ → Value
    datetime : ℕ → Value
    timedelta : ℤ → Value
    -- an enum member: its class, and its value
    enum : String → Value → Value
    list : Items → Value
    tuple : Items → Value
    dict : Fields → Value
    -- a TaggedDict: its `satay_kind`, its `satay_type`, its items
    tagged : String → Value → Fields → Value
    -- a dataclass instance: its class, and its fields in order
    dataclass : String → Fields → Value
    -- an object with `model_dump`: its class, and what `model_dump(mode="json")` returns
    model : String → Value → Value
    -- any other object: its class
    object : String → Value

  pub data Items : Type 0 where
    nil : Items
    cons : Value → Items → Items

  -- The items of a mapping in order; `odd` is an item whose key is not a str, with its repr.
  pub data Fields : Type 0 where
    end : Fields
    field : String → Value → Fields → Fields
    odd : String → Value → Fields → Fields

-- d.get(k), on the text keys
unfoldable pub get : Fields → String → Option Value
get end k = none
get (field j v d) k = if j == k then some v else get d k
get (odd r v d) k = get d k

-- k in d
abbrev pub has : Fields → String → Bool
has d k = elim (get d k) [ none ↦ false | some v ↦ true ]

-- d[k] = v
unfoldable pub set : Fields → String → Value → Fields
set end k v = field k v end
set (field j w d) k v = let rest = set d k v in if j == k then field j v d else field j w rest
set (odd r w d) k v = odd r w (set d k v)

-- {**d, **e} for literals with no key in common
unfoldable pub merge : Fields → Fields → Fields
merge end e = e
merge (field k v d) e = field k v (merge d e)
merge (odd r v d) e = odd r v (merge d e)

-- A literal {k: v, ...}.
unfoldable pub literal : List (String × Value) → Fields
literal [] = end
literal ((k, v) ∷ l) = field k v (literal l)
