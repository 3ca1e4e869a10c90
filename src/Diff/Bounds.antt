-- ===== src/Diff/Bounds.antt =====
-- The cap on the paths that a diff reports (valuediff.py).
use satay_runtime.Prelude.{
  ◌≤◌, String, ◌≡◌, List, [], ◌∷◌, length, length-append, arith, false, ltb, ◌↔◌,
}
use satay_runtime.Value.{Value}
use satay_runtime.Diff.{Walk, new_walk, add, walk, diff_values, max_paths, root}
use satay_runtime.Diff.Keeps.{walk-keeps}

abbrev IsBounded : Walk → Type 0
IsBounded w = length w.paths ≤ max_paths

add-IsBounded : (w : Walk) (path : String) → IsBounded w → IsBounded (add w path)
unfolding add
add-IsBounded w path h = ground (arith, length-append w.paths (path ∷ []))

unchanged_iff : (l : List String) → (ltb 0 (length l) ≡ false) ↔ (l ≡ [])
unchanged_iff [] = ground arith
unchanged_iff (x ∷ l) = ground arith

-- A diff reports at most 50 paths, and says that there is a change exactly if it reports one.
pub diff_values_bounds :
    (a b : Value)
    → (length (diff_values a b).paths ≤ max_paths)
      × (((diff_values a b).changed ≡ false) ↔ ((diff_values a b).paths ≡ []))
unfolding diff_values
diff_values_bounds a b = (
  walk-keeps IsBounded add-IsBounded (λ w h. h) (λ w h. h) a b root 0 new_walk (omega arith),
  unchanged_iff (walk a b root 0 new_walk).paths,
)
