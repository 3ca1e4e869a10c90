-- ===== src/Replay/Identity/Payload.antt =====
-- `payload_fields` and `from_payload` of replay/identity.py, through the journal.
use mathlib.Core.Option
use satay_runtime.Prelude.{
  String, ◌≡◌, refl, ◌∙◌, ap, Option, none, some, arith, Bool-cases, inl, inr, ◌==◌, string_eq,
}
use satay_runtime.Prelude.Int.{ℤ}
use satay_runtime.Value.{Fields, end, field, odd, get, merge}
use satay_runtime.Errors.{ok}
use satay_runtime.Journal.Codec.Plain.{plain, plain_fields}
use satay_runtime.Replay.Identity.{CallIdentity, no_ordinal, payload_fields, from_payload}

-- The two forms of an identity: a keyed one has no ordinal.
abbrev pub IsProper : CallIdentity → Type 0
IsProper i = elim i.key [ none ↦ Unit | some k ↦ i.ordinal ≡ no_ordinal ]

get-merge : (d e : Fields) (k : String) → get d k ≡ none → get (merge d e) k ≡ get e k
unfolding get merge
get-merge end e k h = refl
get-merge (field j v d) e k h = ground (arith, get-merge d e k)
get-merge (odd r v d) e k h = get-merge d e k h

-- A reader finds the same keys, with the plain forms of their values.
get-plain_fields : (d : Fields) (k : String) → get (plain_fields d) k ≡ Option.map plain (get d k)
unfolding get
get-plain_fields end k = refl
get-plain_fields (field j v d) k = elim (Bool-cases (j == k)) [
  | inl same ↦ rw same
  | inr other ↦ rw other (get-plain_fields d k)
]
get-plain_fields (odd r v d) k = get-plain_fields d k

from_payload-merge :
    (name : String) (n : ℤ) (key : Option String) (rest : Fields)
    → IsProper (record { task_name = name; ordinal = n; key = key })
    → get rest "key" ≡ none
    → from_payload (
        plain_fields
          (merge (payload_fields (record { task_name = name; ordinal = n; key = key })) rest))
      ≡ ok (record { task_name = name; ordinal = n; key = key })
unfolding from_payload payload_fields merge get
from_payload-merge name n none rest h absent =
    let unread : get (plain_fields rest) "key" ≡ none =
      get-plain_fields rest "key" ∙ ap (Option.map plain) absent in
    rw (unread, from_payload)
from_payload-merge name n (some k) rest h absent = rw h

-- A proper identity written into a payload is the one that is read back from the journal, as long as
-- no other entry of the payload is a "key".
pub from_payload-payload_fields :
    (i : CallIdentity) (rest : Fields)
    → IsProper i
    → get rest "key" ≡ none
    → from_payload (plain_fields (merge (payload_fields i) rest)) ≡ ok i
from_payload-payload_fields i rest h absent =
    from_payload-merge i.task_name i.ordinal i.key rest h absent
