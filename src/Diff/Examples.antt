-- ===== src/Diff/Examples.antt =====
-- Runs of the diff (valuediff.py) and instances of its theorems.
use satay_runtime.Prelude.{◌≡◌, ◌↔◌, refl, arith, true, false, [], ◌∷◌}
use satay_runtime.Prelude.Int.{pos}
use satay_runtime.Prelude.Text.{starts_with, str_nat}
use satay_runtime.Value.{Value, int, float, str, list, dict, nil, cons, end, field, get}
use satay_runtime.Diff.{diff_values, py_eq}
use satay_runtime.Diff.Silence.{diff_values_iff}

abbrev before : Value
before = dict (
    field "style" (str "a") (
      field "topics" (list (cons (int (pos 1)) (cons (dict (field "topic" (int (pos 2)) end)) nil)))
        end))

abbrev after : Value
after = dict (
    field "topics" (list (cons (int (pos 1)) (cons (dict (field "topic" (int (pos 3)) end)) nil)))
      (field "length" (int (pos 9)) end))

changed_paths : (diff_values before after).paths ≡ ".style" ∷ ".topics[1].topic" ∷ ".length" ∷ []
unfolding diff_values py_eq get starts_with str_nat
changed_paths = refl

-- Two masked leaves are not known to be equal.
masked :
    diff_values (str "***REDACTED***") (str "***REDACTED***")
    ≡ record { changed = false; paths = []; redacted = true; truncated = false }
unfolding diff_values py_eq
masked = refl

-- The order of the keys, and the type of a number, make no difference.
abbrev reordered : Value
reordered = dict (
    field "topics"
      (list (cons (float (pos 1000000)) (cons (dict (field "topic" (int (pos 2)) end)) nil)))
      (field "style" (str "a") end))

unmasked : (diff_values before reordered).redacted ≡ false
unfolding diff_values py_eq get starts_with str_nat
unmasked = refl

diff_values_iff_example :
    (((diff_values before reordered).changed ≡ false)
      × ((diff_values before reordered).truncated ≡ false))
    ↔ (py_eq before reordered ≡ true)
diff_values_iff_example = diff_values_iff before reordered (omega arith) (omega arith) unmasked
