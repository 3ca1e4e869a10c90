-- ===== src/Diff/Quiet.antt =====
-- A part of the walk of valuediff.py behind which nothing is reported.
use satay_runtime.Prelude.{
  ℕ, String, ◌≡◌, ◌≢◌, refl, arith, Bool, true, false, ◌&&◌, ◌||◌, Bool-cases, inl, inr, leb,
  length, List, [], ◌∷◌, ◌++◌, string_eq,
}
use satay_runtime.Value.{Value, Items, Fields, str, end, field, odd, get}
use satay_runtime.Redaction.{redacted_text}
use satay_runtime.Diff.{
  Walk, add, full, gate, leaf, absent_keys, walk_fields, walk_items, join, get_odd, py_eq, keys_in,
  is_some, max_depth, max_paths,
}
use satay_runtime.Diff.Keeps.{fields-keeps, items-keeps, absent_keys-keeps}

-- Nothing was reported.
pub record IsQuiet (w : Walk) : Type 0 where
  pub no_paths : w.paths ≡ []
  pub not_redacted : w.redacted ≡ false
  pub not_truncated : w.truncated ≡ false

append-ne-nil : (l : List String) (x : String) → l ++ x ∷ [] ≢ []
append-ne-nil [] x h = cc
append-ne-nil (y ∷ l) x h = cc

pub loud : (w : Walk) (path : String) → IsQuiet (add w path) → ⊥
unfolding add
loud w path h = elim (Bool-cases (leb max_paths (length w.paths))) [
  | inl e ↦
      let cut : IsQuiet (record w { truncated = true }) = rw (e, add) at h in
      absurd (cc cut.not_truncated)
  | inr e ↦
      let grown : IsQuiet (record w { paths = w.paths ++ path ∷ [] }) = rw (e, add) at h in
      append-ne-nil w.paths path grown.no_paths
]

pub leaf-quiet :
    (a b : Value) (path : String) (w : Walk) → IsQuiet (leaf a b path w) → py_eq a b ≡ true
unfolding leaf
leaf-quiet a b path w h = elim (Bool-cases (py_eq a b)) [
  | inl e ↦ e
  | inr e ↦ let said : IsQuiet (add w path) = rw (e, leaf) at h in absurd (loud w path said)
]

not_full : (w : Walk) → full w ≡ true → IsQuiet w → ⊥
unfolding full
not_full w e h = ground (arith, h.not_truncated)

pub gate-quiet :
    (a b : Value) (path : String) (depth : ℕ) (inner : Walk → Walk)
    → ((w : Walk) → IsQuiet (inner w) → py_eq a b ≡ true)
    → (w : Walk) → IsQuiet (gate a b path depth inner w)
    → py_eq a b ≡ true
unfolding gate
gate-quiet a b path depth inner k w h = elim (Bool-cases (full w)) [
  | inl e ↦ let still : IsQuiet w = rw (e, gate) at h in absurd (not_full w e still)
  | inr e ↦ elim (Bool-cases (py_eq a b)) [
    | inl q ↦ q
    | inr q ↦ elim (Bool-cases (py_eq a (str redacted_text) || py_eq b (str redacted_text))) [
      | inl m ↦
          let said : IsQuiet (add w path) = rw (e, m, q, gate) at h in absurd (loud w path said)
      | inr m ↦ elim (Bool-cases (leb max_depth depth)) [
        | inl d ↦
            let said : IsQuiet (add (record w { truncated = true }) path) =
              rw (e, m, d, q, gate) at h in
            absurd (loud (record w { truncated = true }) path said)
        | inr d ↦ let inside : IsQuiet (inner w) = rw (e, m, d, gate) at h in k w inside
      ]
    ]
  ]
]

-- If nothing is reported behind a part of the walk, nothing was before it.
module _ (w₀ : Walk) where
  abbrev WasQuiet : Walk → Type 0
  WasQuiet w = IsQuiet w → IsQuiet w₀

  by_adding : (w : Walk) (path : String) → WasQuiet w → WasQuiet (add w path)
  by_adding w path h q = absurd (loud w path q)

  by_marking : (w : Walk) → WasQuiet w → WasQuiet (record w { redacted = true })
  by_marking w h q = absurd (cc q.not_redacted)

  by_cutting : (w : Walk) → WasQuiet w → WasQuiet (record w { truncated = true })
  by_cutting w h q = absurd (cc q.not_truncated)

  pub before_fields :
      (d e : Fields) (path : String) (depth : ℕ)
      → IsQuiet (walk_fields d e path depth w₀)
      → IsQuiet w₀
  before_fields d e path depth =
      fields-keeps WasQuiet by_adding by_marking by_cutting d e path depth w₀ (λ q. q)

  pub before_items :
      (l m : Items) (path : String) (index depth : ℕ)
      → IsQuiet (walk_items l m path index depth w₀)
      → IsQuiet w₀
  before_items l m path index depth =
      items-keeps WasQuiet by_adding by_marking by_cutting l m path index depth w₀ (λ q. q)

  pub before_absent :
      (d e : Fields) (path : String) → IsQuiet (absent_keys d e path w₀) → IsQuiet w₀
  before_absent d e path =
      absent_keys-keeps WasQuiet by_adding by_marking by_cutting d e path w₀ (λ q. q)

pub both : (a b : Bool) → a ≡ true → b ≡ true → (a && b) ≡ true
both a b h k = ground arith

pub absent-quiet :
    (d e : Fields) (path : String) (w : Walk)
    → IsQuiet (absent_keys d e path w)
    → keys_in d e ≡ true
unfolding absent_keys keys_in
absent-quiet d end path w h = refl
absent-quiet d (field k v e) path w h = elim (Bool-cases (is_some (get d k))) [
  | inl q ↦
      let rest : IsQuiet (absent_keys d e path w) = rw (q, absent_keys) at h in
      both _ _ q (absent-quiet d e path w rest)
  | inr q ↦
      let rest : IsQuiet (absent_keys d e path (add w (join path k))) = rw (q, absent_keys) at h in
      absurd (loud w (join path k) (before_absent (add w (join path k)) d e path rest))
]
absent-quiet d (odd k v e) path w h = elim (Bool-cases (is_some (get_odd d k))) [
  | inl q ↦
      let rest : IsQuiet (absent_keys d e path w) = rw (q, absent_keys) at h in
      both _ _ q (absent-quiet d e path w rest)
  | inr q ↦
      let rest : IsQuiet (absent_keys d e path (add w (join path k))) = rw (q, absent_keys) at h in
      absurd (loud w (join path k) (before_absent (add w (join path k)) d e path rest))
]
