-- ===== src/Diff/Equality.antt =====
-- The diff of equal values (valuediff.py).
use satay_runtime.Prelude.{
  ℕ, suc, String, ◌≡◌, refl, ap, ◌∙◌, arith, Bool, true, false, ◌&&◌, ◌||◌, Bool-cases, inl, inr,
  Option, none, some, Option-cases, nat_eq, nat_eq_iff, leb, [],
}
use satay_runtime.Value.{
  Value, Items, Fields, str, list, tuple, dict, tagged, nil, cons, end, field, odd, get,
}
use satay_runtime.Redaction.{redacted_text}
use satay_runtime.Diff.{
  Walk, new_walk, add, full, gate, leaf, absent_keys, walk, walk_fields, walk_items, join, mapping,
  get_odd, size, py_eq, items_eq, fields_eq, keys_in, is_some, max_depth, root, diff_values,
}

-- The paths and the truncation are the same.
pub record SameFinds (w w' : Walk) : Type 0 where
  pub same_paths : w'.paths ≡ w.paths
  pub same_truncated : w'.truncated ≡ w.truncated

same : (w : Walk) → SameFinds w w
same w = record { same_paths = refl; same_truncated = refl }

same_but_redacted : (w : Walk) → SameFinds w (record w { redacted = true })
same_but_redacted w = record { same_paths = refl; same_truncated = refl }

trans : (u v w : Walk) → SameFinds u v → SameFinds v w → SameFinds u w
trans u v w h k = record {
  same_paths = k.same_paths ∙ h.same_paths;
  same_truncated = k.same_truncated ∙ h.same_truncated;
}

both_left : (a b : Bool) → (a && b) ≡ true → a ≡ true
both_left a b h = ground arith

both_right : (a b : Bool) → (a && b) ≡ true → b ≡ true
both_right a b h = ground arith

leaf-same :
    (a b : Value) (path : String) (w : Walk) → py_eq a b ≡ true → SameFinds w (leaf a b path w)
unfolding leaf
leaf-same a b path w e = rw e (same w)

gate-same :
    (a b : Value) (path : String) (depth : ℕ) (inner : Walk → Walk)
    → ((w : Walk) → SameFinds w (inner w))
    → (w : Walk) → py_eq a b ≡ true
    → SameFinds w (gate a b path depth inner w)
unfolding gate
gate-same a b path depth inner h w q = elim (Bool-cases (full w)) [
  | inl e ↦ rw (e, gate) (same w)
  | inr e ↦
      rw (e, gate)
        (elim (Bool-cases (py_eq a (str redacted_text) || py_eq b (str redacted_text))) [
          | inl m ↦ rw (m, q) (same_but_redacted w)
          | inr m ↦ rw m (elim (Bool-cases (leb max_depth depth)) [
            | inl d ↦ rw (d, q) (same w)
            | inr d ↦ rw d (h w)
          ])
        ])
]

absent-same :
    (d e : Fields) (path : String) (w : Walk)
    → keys_in d e ≡ true
    → SameFinds w (absent_keys d e path w)
unfolding absent_keys keys_in
absent-same d end path w h = same w
absent-same d (field k v e) path w h =
    let there : is_some (get d k) ≡ true = both_left _ _ h in
    rw (there, absent_keys) (absent-same d e path w (both_right _ _ h))
absent-same d (odd k v e) path w h =
    let there : is_some (get_odd d k) ≡ true = both_left _ _ h in
    rw (there, absent_keys) (absent-same d e path w (both_right _ _ h))

size-eq : (l m : Items) → items_eq l m ≡ true → size l ≡ size m
unfolding items_eq
size-eq nil nil h = refl
size-eq nil (cons u m) h = cc
size-eq (cons v l) nil h = cc
size-eq (cons v l) (cons u m) h = ap (λ n. suc n) (size-eq l m (both_right _ _ h))

mapping-same :
    (a : Value) (d : Fields) (b : Value) (path : String) (inside : Fields → Walk → Walk)
    → elim (mapping b) [ none ↦ false | some e ↦ fields_eq d e && keys_in d e ] ≡ true
    → ((e : Fields) (w : Walk) → fields_eq d e ≡ true → SameFinds w (inside e w))
    → (w : Walk)
    → SameFinds w
        (elim (mapping b) [ none ↦ leaf a b path w | some e ↦ absent_keys d e path (inside e w) ])
mapping-same a d b path inside h k w = elim (Option-cases (mapping b)) [
  | inl q ↦ absurd (cc (rw q at h))
  | inr (e, q) ↦
      let both : (fields_eq d e && keys_in d e) ≡ true = rw q at h in
      rw q (
        trans w (inside e w) (absent_keys d e path (inside e w)) (k e w (both_left _ _ both))
          (absent-same d e path (inside e w) (both_right _ _ both)))
]

sequence-same :
    (l m : Items) (path : String) (inside : Walk → Walk)
    → items_eq l m ≡ true
    → ((w : Walk) → SameFinds w (inside w))
    → (w : Walk)
    → SameFinds w (elim (nat_eq (size l) (size m)) [ false ↦ add w path | true ↦ inside w ])
sequence-same l m path inside h k w =
    let sizes : nat_eq (size l) (size m) ≡ true = (nat_eq_iff _ _).1 (size-eq l m h) in
    rw sizes (k w)

field_found :
    (o : Option Value) (f : Value → Bool) (rest : Bool)
    → elim o [ none ↦ false | some u ↦ f u && rest ] ≡ true
    → (u : Value) × (o ≡ some u) × (f u ≡ true) × (rest ≡ true)
field_found none f rest h = cc
field_found (some u) f rest h = (u, refl, both_left _ _ h, both_right _ _ h)

mutual
  unfolding walk walk_fields walk_items py_eq items_eq fields_eq

  walk-same :
      (a b : Value) (path : String) (depth : ℕ) (w : Walk)
      → py_eq a b ≡ true
      → SameFinds w (walk a b path depth w)
  walk-same (dict d) b path depth w h =
      gate-same (dict d) b path depth _
        (mapping-same (dict d) d b path (λ e w'. walk_fields d e path (suc depth) w') h
          (λ e w' k. fields-same d e path (suc depth) w' k))
        w h
  walk-same (tagged kind type d) b path depth w h =
      gate-same (tagged kind type d) b path depth _
        (mapping-same (tagged kind type d) d b path (λ e w'. walk_fields d e path (suc depth) w') h
          (λ e w' k. fields-same d e path (suc depth) w' k))
        w h
  walk-same (list l) (list m) path depth w h =
      gate-same (list l) (list m) path depth _
        (sequence-same l m path (λ w'. walk_items l m path 0 (suc depth) w') h
          (λ w'. items-same l m path 0 (suc depth) w' h))
        w h
  walk-same (tuple l) (tuple m) path depth w h =
      gate-same (tuple l) (tuple m) path depth _
        (sequence-same l m path (λ w'. walk_items l m path 0 (suc depth) w') h
          (λ w'. items-same l m path 0 (suc depth) w' h))
        w h
  walk-same (list l) _ path depth w h = absurd (cc h)
  walk-same (tuple l) _ path depth w h = absurd (cc h)
  walk-same a b path depth w h =
      gate-same a b path depth (leaf a b path) (λ w'. leaf-same a b path w' h) w h

  fields-same :
      (d e : Fields) (path : String) (depth : ℕ) (w : Walk)
      → fields_eq d e ≡ true
      → SameFinds w (walk_fields d e path depth w)
  fields-same end e path depth w h = same w
  fields-same (field k v d) e path depth w h =
      let (u, q, first, rest) = field_found (get e k) (py_eq v) (fields_eq d e) h in
      rw q (
        trans w (walk v u (join path k) depth w) _ (walk-same v u (join path k) depth w first)
          (fields-same d e path depth (walk v u (join path k) depth w) rest))
  fields-same (odd k v d) e path depth w h =
      let (u, q, first, rest) = field_found (get_odd e k) (py_eq v) (fields_eq d e) h in
      rw q (
        trans w (walk v u (join path k) depth w) _ (walk-same v u (join path k) depth w first)
          (fields-same d e path depth (walk v u (join path k) depth w) rest))

  items-same :
      (l m : Items) (path : String) (index depth : ℕ) (w : Walk)
      → items_eq l m ≡ true
      → SameFinds w (walk_items l m path index depth w)
  items-same nil m path index depth w h = same w
  items-same (cons v l) nil path index depth w h = same w
  items-same (cons v l) (cons u m) path index depth w h =
      trans w _ _ (walk-same v u _ depth w (both_left _ _ h))
        (items-same l m path (suc index) depth _ (both_right _ _ h))

-- The diff of two equal values reports no path and no truncation.
pub diff_values-equal :
    (a b : Value)
    → py_eq a b ≡ true
    → ((diff_values a b).paths ≡ []) × ((diff_values a b).truncated ≡ false)
unfolding diff_values
diff_values-equal a b h =
    let found = walk-same a b root 0 new_walk h in (found.same_paths, found.same_truncated)
