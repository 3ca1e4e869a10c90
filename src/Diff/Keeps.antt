-- ===== src/Diff/Keeps.antt =====
-- What adding a path and setting a flag keep, the whole walk of valuediff.py keeps.
use satay_runtime.Prelude.{
  ℕ, suc, String, true, false, ◌||◌, Bool-cases, inl, inr, none, some, Option-cases, nat_eq, leb,
}
use satay_runtime.Value.{
  Value, Items, Fields, null, bool, int, float, str, iso, datetime, timedelta, enum, list, tuple,
  dict, tagged, dataclass, model, object, nil, cons, end, field, odd, get,
}
use satay_runtime.Redaction.{redacted_text}
use satay_runtime.Diff.{
  Walk, add, full, gate, leaf, absent_keys, walk, walk_fields, walk_items, join, mapping, sequence,
  get_odd, size, py_eq, is_some, max_depth,
}

module _ (P : Walk → Type 0) (adds : (w : Walk) (path : String) → P w → P (add w path))
    (marks : (w : Walk) → P w → P (record w { redacted = true }))
    (cuts : (w : Walk) → P w → P (record w { truncated = true })) where
  pub leaf-keeps : (a b : Value) (path : String) (w : Walk) → P w → P (leaf a b path w)
  unfolding leaf
  leaf-keeps a b path w h = elim (Bool-cases (py_eq a b)) [
    | inl e ↦ rw e h
    | inr e ↦ rw e (adds w path h)
  ]

  pub gate-keeps :
      (a b : Value) (path : String) (depth : ℕ) (inner : Walk → Walk)
      → ((w : Walk) → P w → P (inner w))
      → (w : Walk) → P w
      → P (gate a b path depth inner w)
  unfolding gate
  gate-keeps a b path depth inner k w h = elim (Bool-cases (full w)) [
    | inl e ↦ rw (e, gate) h
    | inr e ↦
        rw (e, gate)
          (elim (Bool-cases (py_eq a (str redacted_text) || py_eq b (str redacted_text))) [
            | inl m ↦ rw m (elim (Bool-cases (py_eq a b)) [
              | inl q ↦ rw q (marks w h)
              | inr q ↦ rw q (adds w path h)
            ])
            | inr m ↦ rw m (elim (Bool-cases (leb max_depth depth)) [
              | inl d ↦ rw d (elim (Bool-cases (py_eq a b)) [
                | inl q ↦ rw q h
                | inr q ↦ rw q (adds _ path (cuts w h))
              ])
              | inr d ↦ rw d (k w h)
            ])
          ])
  ]

  pub absent_keys-keeps :
      (d e : Fields) (path : String) (w : Walk) → P w → P (absent_keys d e path w)
  unfolding absent_keys
  absent_keys-keeps d end path w h = h
  absent_keys-keeps d (field k v e) path w h = elim (Bool-cases (is_some (get d k))) [
    | inl q ↦ rw q (absent_keys-keeps d e path w h)
    | inr q ↦ rw q (absent_keys-keeps d e path _ (adds w (join path k) h))
  ]
  absent_keys-keeps d (odd k v e) path w h = elim (Bool-cases (is_some (get_odd d k))) [
    | inl q ↦ rw q (absent_keys-keeps d e path w h)
    | inr q ↦ rw q (absent_keys-keeps d e path _ (adds w (join path k) h))
  ]

  mapping-keeps :
      (a : Value) (d : Fields) (b : Value) (path : String) (inside : Fields → Walk → Walk)
      → ((e : Fields) (w : Walk) → P w → P (inside e w))
      → (w : Walk) → P w
      → P (elim (mapping b) [ none ↦ leaf a b path w | some e ↦ absent_keys d e path (inside e w) ])
  mapping-keeps a d b path inside k w h = elim (Option-cases (mapping b)) [
    | inl q ↦ rw q (leaf-keeps a b path w h)
    | inr (e, q) ↦ rw q (absent_keys-keeps d e path _ (k e w h))
  ]

  sequence-keeps :
      (a : Value) (l : Items) (b : Value) (path : String) (inside : Items → Walk → Walk)
      → ((m : Items) (w : Walk) → P w → P (inside m w))
      → (w : Walk) → P w
      → P (elim (sequence b) [
        | none ↦ leaf a b path w
        | some m ↦ elim (nat_eq (size l) (size m)) [ false ↦ add w path | true ↦ inside m w ]
      ])
  sequence-keeps a l b path inside k w h = elim (Option-cases (sequence b)) [
    | inl q ↦ rw q (leaf-keeps a b path w h)
    | inr (m, q) ↦ rw q (elim (Bool-cases (nat_eq (size l) (size m))) [
      | inl s ↦ rw s (k m w h)
      | inr s ↦ rw s (adds w path h)
    ])
  ]

  plain-keeps :
      (a b : Value) (path : String) (depth : ℕ) (w : Walk)
      → P w
      → P (gate a b path depth (leaf a b path) w)
  plain-keeps a b path depth = gate-keeps a b path depth (leaf a b path) (leaf-keeps a b path)

  mutual
    unfolding walk walk_fields walk_items

    pub walk-keeps :
        (a b : Value) (path : String) (depth : ℕ) (w : Walk) → P w → P (walk a b path depth w)
    walk-keeps (dict d) b path depth = gate-keeps (dict d) b path depth _ (
        mapping-keeps (dict d) d b path (λ e w. walk_fields d e path (suc depth) w)
          (λ e w h. fields-keeps d e path (suc depth) w h))
    walk-keeps (tagged kind type d) b path depth = gate-keeps (tagged kind type d) b path depth _ (
        mapping-keeps (tagged kind type d) d b path (λ e w. walk_fields d e path (suc depth) w)
          (λ e w h. fields-keeps d e path (suc depth) w h))
    walk-keeps (list l) b path depth = gate-keeps (list l) b path depth _ (
        sequence-keeps (list l) l b path (λ m w. walk_items l m path 0 (suc depth) w)
          (λ m w h. items-keeps l m path 0 (suc depth) w h))
    walk-keeps (tuple l) b path depth = gate-keeps (tuple l) b path depth _ (
        sequence-keeps (tuple l) l b path (λ m w. walk_items l m path 0 (suc depth) w)
          (λ m w h. items-keeps l m path 0 (suc depth) w h))
    walk-keeps null b path depth = plain-keeps null b path depth
    walk-keeps (bool x) b path depth = plain-keeps (bool x) b path depth
    walk-keeps (int x) b path depth = plain-keeps (int x) b path depth
    walk-keeps (float x) b path depth = plain-keeps (float x) b path depth
    walk-keeps (str x) b path depth = plain-keeps (str x) b path depth
    walk-keeps (iso x) b path depth = plain-keeps (iso x) b path depth
    walk-keeps (datetime x) b path depth = plain-keeps (datetime x) b path depth
    walk-keeps (timedelta x) b path depth = plain-keeps (timedelta x) b path depth
    walk-keeps (enum c v) b path depth = plain-keeps (enum c v) b path depth
    walk-keeps (dataclass c d) b path depth = plain-keeps (dataclass c d) b path depth
    walk-keeps (model c v) b path depth = plain-keeps (model c v) b path depth
    walk-keeps (object c) b path depth = plain-keeps (object c) b path depth

    pub fields-keeps :
        (d e : Fields) (path : String) (depth : ℕ) (w : Walk)
        → P w
        → P (walk_fields d e path depth w)
    fields-keeps end e path depth w h = h
    fields-keeps (field k v d) e path depth w h = elim (Option-cases (get e k)) [
      | inl q ↦ rw q (fields-keeps d e path depth _ (adds w (join path k) h))
      | inr (u, q) ↦ rw q (fields-keeps d e path depth _ (walk-keeps v u (join path k) depth w h))
    ]
    fields-keeps (odd k v d) e path depth w h = elim (Option-cases (get_odd e k)) [
      | inl q ↦ rw q (fields-keeps d e path depth _ (adds w (join path k) h))
      | inr (u, q) ↦ rw q (fields-keeps d e path depth _ (walk-keeps v u (join path k) depth w h))
    ]

    pub items-keeps :
        (l m : Items) (path : String) (index depth : ℕ) (w : Walk)
        → P w
        → P (walk_items l m path index depth w)
    items-keeps nil m path index depth w h = h
    items-keeps (cons v l) nil path index depth w h = h
    items-keeps (cons v l) (cons u m) path index depth w h =
        items-keeps l m path (suc index) depth _ (walk-keeps v u _ depth w h)
