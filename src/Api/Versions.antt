-- ===== src/Api/Versions.antt =====
-- versioning/__init__.py: the code version of the running process, and the check of a resumed run.
-- What git, the environment and the hash of the sources say are arguments.
use satay_runtime.Prelude.{
  String, Bool, not, Option, none, some, or_else, ◌==◌, string_eq, if◌then◌else◌,
}
use satay_runtime.Prelude.Text.{◌<>◌}
use satay_runtime.Errors.{version_mismatch_error}
use satay_runtime.Config.{VersionMismatchPolicy, off, warn, strict}
use satay_runtime.Replay.Machine.{Exec, pure, throw, Machine, resumed_under}
use satay_runtime.Replay.Machine

-- A text that is not empty, as `or` tests it.
abbrev truthy : Option String → Option String
truthy none = none
truthy (some t) = if t == "" then none else some t

unfoldable pub stamp_code_version : Option String → Option String → Option String → String → String
stamp_code_version commit dev_string variable source_hash = elim commit [
  | some c ↦ "git:" <> c
  | none ↦ elim (or_else (truthy dev_string) (truthy variable)) [
    | some dev ↦ "dev:" <> dev
    | none ↦ "src:" <> source_hash
  ]
]

unfoldable pub is_version_mismatch : String → String → Bool
is_version_mismatch stamped current = not (stamped == current)

unfoldable pub check_resume_version : String → String → VersionMismatchPolicy → Exec (Unit {0})
unfolding is_version_mismatch
check_resume_version stamped current policy =
    if not (is_version_mismatch stamped current) then pure tt else elim policy [
      | strict ↦ throw (version_mismatch_error stamped current)
      | warn ↦ Machine.warn (resumed_under stamped current)
      | off ↦ pure tt
    ]
