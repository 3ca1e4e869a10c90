-- ===== src/Replay/Identity.antt =====
-- replay/identity.py: the identity of a durable call, its idempotency key, the keys of a map.
mod Examples
pub mod Payload
pub mod Ordinals
pub mod MapKeys
pub mod Digest
use Prim.Native.Char.{Char}
use satay_runtime.Prelude.{
  ℕ, suc, ◌+◌, String, ◌≡◌, ◌↔◌, Bool, true, false, ◌&&◌, Option, none, some, List, [], ◌∷◌, ◌⊎◌,
  inl, inr, arith, Eq, ◌==◌, string_eq, str_eq, str_eq_iff, if◌then◌else◌,
}
use satay_runtime.Prelude.Dict
use satay_runtime.Prelude.Dict.{Dict, member}
use satay_runtime.Prelude.Text.{◌<>◌}
use satay_runtime.Prelude.Int.{ℤ, pos, negsuc, int_beq, int_beq_iff, str_int}
use satay_runtime.Value.{Value, Fields, null, int, str, end, field, get, has}
use satay_runtime.Errors.{Result, ok, raise, ◌>>=◌, key_error, type_error, value_error}

-- _NO_ORDINAL
abbrev pub no_ordinal : ℤ
no_ordinal = negsuc 0

pub record CallIdentity : Type 0 where
  pub task_name : String
  pub ordinal : ℤ
  pub key : Option String

abbrev pub ordinal_identity : String → ℕ → CallIdentity
ordinal_identity name n = record { task_name = name; ordinal = pos n; key = none }

abbrev pub keyed_identity : String → String → CallIdentity
keyed_identity name k = record { task_name = name; ordinal = no_ordinal; key = some k }

-- The comparison of two optional keys.
abbrev pub key_beq : Option String → Option String → Bool
key_beq none none = true
key_beq (some a) (some b) = str_eq a b
key_beq _ _ = false

abbrev pub identity_beq : CallIdentity → CallIdentity → Bool
identity_beq a b =
    str_eq a.task_name b.task_name && int_beq a.ordinal b.ordinal && key_beq a.key b.key

key_beq_iff : (a b : Option String) → (key_beq a b ≡ true) ↔ (a ≡ b)
key_beq_iff none none = ground arith
key_beq_iff (some a) (some b) = ground (arith, str_eq_iff a b)
key_beq_iff none (some b) = ground arith
key_beq_iff (some a) none = ground arith

pub identity_beq_iff : (a b : CallIdentity) → (identity_beq a b ≡ true) ↔ (a ≡ b)
identity_beq_iff a b = ground (
  arith,
  str_eq_iff a.task_name b.task_name,
  int_beq_iff a.ordinal b.ordinal,
  key_beq_iff a.key b.key,
)

instance abbrev pub identity_eq : Eq CallIdentity
identity_eq = record { test = identity_beq; decides = identity_beq_iff }

abbrev pub is_keyed : CallIdentity → Bool
is_keyed i = elim i.key [ none ↦ false | some k ↦ true ]

-- `ordinal_or_map_key: int | str`
pub data Component : Type 0 where
  ordinal : ℤ → Component
  map_key : String → Component

abbrev pub key_component : CallIdentity → Component
key_component i = elim i.key [ none ↦ Component.ordinal i.ordinal | some k ↦ map_key k ]

unfoldable pub payload_fields : CallIdentity → Fields
payload_fields i = elim i.key [
  | some k ↦ field "task_name" (str i.task_name) (field "key" (str k) end)
  | none ↦ field "task_name" (str i.task_name) (field "ordinal" (int i.ordinal) end)
]

-- payload[k], a text
unfoldable pub text_at : Fields → String → Result String
text_at d k = elim (get d k) [
  | none ↦ raise (key_error k)
  | some v ↦ elim v [ str s ↦ ok s | _ ↦ raise (type_error k) ]
]

-- int(payload[k])
unfoldable pub int_at : Fields → String → Result ℤ
int_at d k = elim (get d k) [
  | none ↦ raise (key_error k)
  | some v ↦ elim v [ int n ↦ ok n | _ ↦ raise (type_error k) ]
]

-- payload[k], a text or None
unfoldable pub key_at : Fields → String → Result (Option String)
key_at d k = elim (get d k) [
  | none ↦ raise (key_error k)
  | some v ↦ elim v [ str s ↦ ok (some s) | null ↦ ok none | _ ↦ raise (type_error k) ]
]

-- `from_payload`. A journal holds a text or null under "key" and an int under "ordinal": another value
-- there, which no code of the runtime writes, is an error here.
unfoldable pub from_payload : Fields → Result CallIdentity
unfolding text_at key_at int_at
from_payload d =
    if has d "key"
    then (do
      name ← text_at d "task_name"
      k ← key_at d "key"
      ok (record { task_name = name; ordinal = no_ordinal; key = k }))
    else (do
      name ← text_at d "task_name"
      n ← int_at d "ordinal"
      ok (record { task_name = name; ordinal = n; key = none }))

-- _KEY_SEP
abbrev pub key_sep : Char
key_sep = Prim.Native.Char.nul

-- str(ordinal_or_map_key)
abbrev pub str_component : Component → String
str_component (Component.ordinal n) = str_int n
str_component (map_key k) = k

-- The text that is hashed: the three parts joined by the separator.
unfoldable pub pre_image : String → String → Component → String
pre_image run_id task_name c =
    run_id <> String.◌∷◌ key_sep (task_name <> String.◌∷◌ key_sep (str_component c))

-- `digest` is the hex SHA-256 of the UTF-8 form of a text (hashlib).
unfoldable pub idempotency_key : (String → String) → String → String → Component → String
unfolding pre_image
idempotency_key digest run_id task_name c = digest (pre_image run_id task_name c)

-- The loop of `resolve_map_keys`: `seen` holds the keys met so far.
unfoldable pub resolve_from :
    (Value → Value) → List String → List Value → Result (List (Value × String))
resolve_from key_fn seen [] = ok []
resolve_from key_fn seen (item ∷ items) = elim (key_fn item) [
  | null ↦ raise (value_error "satay.map: item has no key")
  | str k ↦
      if k == ""
      then raise (value_error "satay.map: item has no key")
      else if member seen k
      then raise (value_error "satay.map: duplicate item key")
      else (do rest ← resolve_from key_fn (k ∷ seen) items; ok ((item, k) ∷ rest))
  | _ ↦ raise (value_error "satay.map: keys must be strings")
]

unfoldable pub resolve_map_keys :
    Option (Value → Value) → List Value → Result (List (Value × String))
unfolding resolve_from
resolve_map_keys none items = raise (value_error "satay.map requires key=")
resolve_map_keys (some key_fn) items = resolve_from key_fn [] items

-- IdentityResolver: its counters, a defaultdict of ints.
abbrev pub Resolver : Type 0
Resolver = Dict String ℕ

abbrev pub counter : Resolver → String → ℕ
counter r name = elim (Dict.get r name) [ none ↦ 0 | some n ↦ n ]

unfoldable pub next : Resolver → String → CallIdentity × Resolver
next r name = let n = counter r name in (ordinal_identity name n, Dict.put r name (n + 1))
