-- ===== src/Replay/Failures.antt =====
-- The error that a recorded TaskFailed payload describes (replay/engine.py).
use satay_runtime.Prelude.{zero, suc, ◌+◌, ◌/◌, String, Option, none, some, if◌then◌else◌}
use satay_runtime.Prelude.Int.{ℤ, pos, negsuc}
use satay_runtime.Value.{Value, Fields, null, bool, int, float, str, dict, tagged, end, get}
use satay_runtime.Errors.{
  Exn, Result, ok, raise, ◌>>=◌, task_failed_error, key_error, value_error, type_error, user_error,
}

-- d.get(k, default)
abbrev get_or : Fields → String → Value → Value
get_or d k default = elim (get d k) [ none ↦ default | some v ↦ v ]

-- payload.get("error", {}), whose `get` is called
abbrev error_of : Fields → Result Fields
error_of d = elim (get d "error") [
  | none ↦ ok end
  | some v ↦ elim v [
    | dict e ↦ ok e
    | tagged kind type e ↦ ok e
    | _ ↦ raise (user_error "AttributeError" "get")
  ]
]

-- A float in millionths, cut off towards zero.
abbrev whole : ℤ → ℤ
whole (pos n) = pos (n / 1000000)
whole (negsuc n) = elim ((n + 1) / 1000000) [ zero ↦ pos 0 | suc k ↦ negsuc k ]

-- None if ordinal is None else int(ordinal): a text, which `int` may read, is an error here.
abbrev ordinal_of : Fields → Result (Option ℤ)
ordinal_of d = elim (get d "ordinal") [
  | none ↦ ok none
  | some v ↦ elim v [
    | null ↦ ok none
    | int n ↦ ok (some n)
    | bool b ↦ ok (some (if b then pos 1 else pos 0))
    | float x ↦ ok (some (whole x))
    | str s ↦ raise (value_error s)
    | _ ↦ raise (type_error "int")
  ]
]

-- The failure that the payload describes.
build_failure : Fields → Result Exn
build_failure d = do
  task_name ← elim (get d "task_name") [ none ↦ raise (key_error "task_name") | some v ↦ ok v ]
  e ← error_of d
  ordinal ← ordinal_of d
  ok (
      task_failed_error (record {
        task_name = task_name;
        error_type = get_or e "type" (str "Exception");
        error_message = get_or e "message" (str "");
        traceback_str = get_or e "traceback" (str "");
        key = get_or d "key" null;
        ordinal = ordinal;
      }))

-- `_task_failure_error`, in a `raise`: what building the error raises is raised in its place.
unfoldable pub task_failure_error : Fields → Exn
unfolding build_failure
task_failure_error d = elim (build_failure d) [ ok failure ↦ failure | raise x ↦ x ]
