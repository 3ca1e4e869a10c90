-- ===== src/Diff/Silence.antt =====
-- A diff that finds nothing, and says that it compared everything (valuediff.py).
use satay_runtime.Prelude.{
  ℕ, suc, String, ◌≡◌, refl, subst, ◌↔◌, arith, Bool, true, false, ◌&&◌, Bool-cases, inl, inr,
  Option, none, some, Option-cases, nat_eq, ◌==◌, string_eq,
}
use satay_runtime.Prelude.Text.{◌<>◌, str_nat}
use satay_runtime.Value.{
  Value, Items, Fields, list, tuple, dict, tagged, nil, cons, end, field, odd, get,
}
use satay_runtime.Journal.Codec.Json.{IsJson, JsonItems, JsonFields}
use satay_runtime.Diff.{
  Walk, new_walk, add, leaf, absent_keys, walk, walk_fields, walk_items, join, mapping, sequence,
  size, py_eq, items_eq, fields_eq, keys_in, root, diff_values,
}
use satay_runtime.Diff.Bounds.{diff_values_bounds}
use satay_runtime.Diff.Equality.{diff_values-equal}
use satay_runtime.Diff.Quiet.{
  IsQuiet, loud, leaf-quiet, gate-quiet, before_fields, before_items, before_absent, both,
  absent-quiet,
}

get-IsJson : (e : Fields) (k : String) {u : Value} → JsonFields e → get e k ≡ some u → IsJson u
unfolding get
get-IsJson end k h q = cc
get-IsJson (field j v e) k h q = elim (Bool-cases (j == k)) [
  | inl s ↦
      let same : ◌≡◌ {A = Option Value} (some v) (some _) = rw s at q in subst IsJson (cc same) h.0
  | inr s ↦ get-IsJson e k h.1 (rw s at q)
]
get-IsJson (odd j v e) k h q = absurd h

lists : (l m : Items) → items_eq l m ≡ true → py_eq (list l) (list m) ≡ true
unfolding py_eq
lists l m h = h

first_field :
    (o : Option Value) (f : Value → Bool) (rest : Bool) (u : Value)
    → o ≡ some u
    → f u ≡ true
    → rest ≡ true
    → elim o [ none ↦ false | some v ↦ f v && rest ] ≡ true
first_field o f rest u q h k = rw q (both _ _ h k)

same_fields :
    (o : Option Fields) (d e : Fields)
    → o ≡ some e
    → (fields_eq d e && keys_in d e) ≡ true
    → elim o [ none ↦ false | some e' ↦ fields_eq d e' && keys_in d e' ] ≡ true
same_fields o d e q h = rw q h

not_empty : (n : ℕ) → nat_eq 0 (suc n) ≡ true → ⊥
not_empty n h = ground arith

not_longer : (n : ℕ) → nat_eq (suc n) 0 ≡ true → ⊥
not_longer n h = ground arith

one_less : (m n : ℕ) → nat_eq (suc m) (suc n) ≡ true → nat_eq m n ≡ true
one_less m n h = ground arith

mapping-IsJson : (b : Value) {e : Fields} → IsJson b → mapping b ≡ some e → JsonFields e
mapping-IsJson (dict d) {e} j q = subst JsonFields (cc q) j
mapping-IsJson (tagged kind type d) j q = absurd j
mapping-IsJson _ j q = cc

sequence-IsJson :
    (b : Value) {m : Items} → IsJson b → sequence b ≡ some m → (b ≡ list m) × JsonItems m
sequence-IsJson (list l) {m} j q = (cc, subst JsonItems (cc q) j)
sequence-IsJson (tuple l) j q = absurd j
sequence-IsJson _ j q = cc

mapping-quiet :
    (d : Fields) (b : Value) (path : String) (inside : Fields → Walk → Walk)
    → IsJson b
    → ((e : Fields) (w : Walk) → JsonFields e → IsQuiet (inside e w) → fields_eq d e ≡ true)
    → (w : Walk)
    → IsQuiet (elim (mapping b) [
      | none ↦ leaf (dict d) b path w
      | some e ↦ absent_keys d e path (inside e w)
    ])
    → py_eq (dict d) b ≡ true
unfolding py_eq
mapping-quiet d b path inside j k w h = elim (Option-cases (mapping b)) [
  | inl q ↦
      let said : IsQuiet (leaf (dict d) b path w) = rw q at h in leaf-quiet (dict d) b path w said
  | inr (e, q) ↦
      let rest : IsQuiet (absent_keys d e path (inside e w)) = rw q at h in
      same_fields (mapping b) d e q (
        both _ _ (k e w (mapping-IsJson b j q) (before_absent (inside e w) d e path rest))
          (absent-quiet d e path (inside e w) rest))
]

sequence-quiet :
    (l : Items) (b : Value) (path : String) (inside : Items → Walk → Walk)
    → IsJson b
    → ((m : Items) (w : Walk)
        → nat_eq (size l) (size m) ≡ true
        → JsonItems m
        → IsQuiet (inside m w)
        → items_eq l m ≡ true)
    → (w : Walk)
    → IsQuiet (elim (sequence b) [
      | none ↦ leaf (list l) b path w
      | some m ↦ elim (nat_eq (size l) (size m)) [ false ↦ add w path | true ↦ inside m w ]
    ])
    → py_eq (list l) b ≡ true
sequence-quiet l b path inside j k w h = elim (Option-cases (sequence b)) [
  | inl q ↦
      let said : IsQuiet (leaf (list l) b path w) = rw q at h in leaf-quiet (list l) b path w said
  | inr (m, q) ↦ elim (Bool-cases (nat_eq (size l) (size m))) [
    | inl s ↦
        let rest : IsQuiet (inside m w) = rw (q, s) at h in
        let shape = sequence-IsJson b j q in rw shape.0 (lists l m (k m w s shape.1 rest))
    | inr s ↦ let said : IsQuiet (add w path) = rw (q, s) at h in absurd (loud w path said)
  ]
]

mutual
  unfolding walk walk_fields walk_items py_eq items_eq fields_eq

  walk-quiet :
      (a b : Value) (path : String) (depth : ℕ) (w : Walk)
      → IsJson a
      → IsJson b
      → IsQuiet (walk a b path depth w)
      → py_eq a b ≡ true
  walk-quiet (dict d) b path depth w ja jb h =
      gate-quiet (dict d) b path depth _
        (mapping-quiet d b path (λ e w'. walk_fields d e path (suc depth) w') jb
          (λ e w' je q. fields-quiet d e path (suc depth) w' ja je q))
        w h
  walk-quiet (list l) b path depth w ja jb h =
      gate-quiet (list l) b path depth _
        (sequence-quiet l b path (λ m w'. walk_items l m path 0 (suc depth) w') jb
          (λ m w' s jm q. items-quiet l m path 0 (suc depth) w' s ja jm q))
        w h
  walk-quiet (tagged kind type d) b path depth w ja jb h = absurd ja
  walk-quiet (tuple l) b path depth w ja jb h = absurd ja
  walk-quiet a b path depth w ja jb h =
      gate-quiet a b path depth (leaf a b path) (leaf-quiet a b path) w h

  fields-quiet :
      (d e : Fields) (path : String) (depth : ℕ) (w : Walk)
      → JsonFields d
      → JsonFields e
      → IsQuiet (walk_fields d e path depth w)
      → fields_eq d e ≡ true
  fields-quiet end e path depth w jd je h = refl
  fields-quiet (field k v d) e path depth w jd je h = elim (Option-cases (get e k)) [
    | inl q ↦
        let rest : IsQuiet (walk_fields d e path depth (add w (join path k))) =
          rw (q, walk_fields) at h in
        absurd (loud w (join path k) (before_fields (add w (join path k)) d e path depth rest))
    | inr (u, q) ↦
        let w' : Walk = walk v u (join path k) depth w in
        let rest : IsQuiet (walk_fields d e path depth w') = rw (q, walk_fields) at h in
        first_field (get e k) (py_eq v) (fields_eq d e) u q
          (walk-quiet v u (join path k) depth w jd.0 (get-IsJson e k je q)
            (before_fields w' d e path depth rest))
          (fields-quiet d e path depth w' jd.1 je rest)
  ]
  fields-quiet (odd k v d) e path depth w jd je h = absurd jd

  items-quiet :
      (l m : Items) (path : String) (index depth : ℕ) (w : Walk)
      → nat_eq (size l) (size m) ≡ true
      → JsonItems l
      → JsonItems m
      → IsQuiet (walk_items l m path index depth w)
      → items_eq l m ≡ true
  items-quiet nil nil path index depth w s jl jm h = refl
  items-quiet nil (cons u m) path index depth w s jl jm h = absurd (not_empty (size m) s)
  items-quiet (cons v l) nil path index depth w s jl jm h = absurd (not_longer (size l) s)
  items-quiet (cons v l) (cons u m) path index depth w s jl jm h =
      let at : String = join path ("[" <> (str_nat index <> "]")) in
      let w' : Walk = walk v u at depth w in
      both _ _ (walk-quiet v u at depth w jl.0 jm.0 (before_items w' l m path (suc index) depth h))
        (items-quiet l m path (suc index) depth w' (one_less (size l) (size m) s) jl.1 jm.1 h)

silent :
    (a b : Value)
    → IsJson a
    → IsJson b
    → (diff_values a b).changed ≡ false
    → (diff_values a b).redacted ≡ false
    → (diff_values a b).truncated ≡ false
    → py_eq a b ≡ true
unfolding diff_values
silent a b ja jb unchanged unmasked complete = walk-quiet a b root 0 new_walk ja jb (record {
  no_paths = (diff_values_bounds a b).1.0 unchanged;
  not_redacted = unmasked;
  not_truncated = complete;
})

-- For two JSON values of which no compared leaf is masked, the diff reports neither a change nor a
-- truncation exactly if the values are equal.
pub diff_values_iff :
    (a b : Value)
    → IsJson a
    → IsJson b
    → (diff_values a b).redacted ≡ false
    → ((((diff_values a b).changed ≡ false) × ((diff_values a b).truncated ≡ false))
        ↔ (py_eq a b ≡ true))
diff_values_iff a b ja jb unmasked = (
  λ h. silent a b ja jb h.0 unmasked h.1,
  λ h. let found = diff_values-equal a b h in ((diff_values_bounds a b).1.1 found.0, found.1),
)
