-- ===== src/Redaction/Examples.antt =====
-- Runs of the redactor (redaction.py) and instances of its theorems.
use satay_runtime.Prelude.{◌≡◌, ◌↔◌, refl, true, false, none, List, [], ◌∷◌, map}
use satay_runtime.Prelude.Int.{pos}
use satay_runtime.Value.{Fields, null, int, str, list, dict, tuple, nil, cons, end, field}
use satay_runtime.Config.{EffectSafety, NondeterminismPolicy}
use satay_runtime.Journal.Events.{Event, new_event, task_scheduled, task_completed}
use satay_runtime.Replay.Machine.{Engine, new_engine}
use satay_runtime.Replay.Load.{load_journal}
use satay_runtime.Redaction.{
  Redactor, new_redactor, matches, redact, redact_value_slots, redact_slots, is_value_slot, has_run,
  words,
}
use satay_runtime.Redaction.Words.{matches_iff, IsSensitive}
use satay_runtime.Redaction.Masking.{redact-IsMasked, IsMasked}
use satay_runtime.Redaction.Rows.{load_journal-redacted, redact_row, without_values}
use satay_runtime.Journal.Store.{Row, rows_to_events, row_to_event}
use satay_runtime.Journal.Codec.{decode}
use satay_runtime.Errors.{ok}
use satay_runtime.Value.{get}

abbrev defaults : Redactor
defaults = new_redactor none

-- "token" is a word of the first name and not of the second.
access_token : matches defaults "Access-Token" ≡ true
unfolding matches new_redactor has_run words
access_token = refl

input_tokens : matches defaults "input_tokens" ≡ false
unfolding matches new_redactor has_run words
input_tokens = refl

output_ref : is_value_slot "output_ref" ≡ true
unfolding is_value_slot
output_ref = refl

-- A payload with a secret in a slot, and a structural field whose name a pattern could match.
abbrev login : Fields
login = field "task_name" (str "login") (
    field "ordinal" (int (pos 0)) (
      field "token" (str "structure") (
        field "output_ref"
          (list (cons (dict (field "api_key" (str "s3") (field "n" (int (pos 1)) end))) nil)) end)))

login_stored :
    redact_value_slots defaults (dict login)
    ≡ dict (
        field "task_name" (str "login") (
          field "ordinal" (int (pos 0)) (
            field "token" (str "structure") (
              field "output_ref"
                (list (
                  cons
                    (dict (field "api_key" (str "***REDACTED***") (field "n" (int (pos 1)) end)))
                    nil))
                end))))
unfolding redact_value_slots redact_slots is_value_slot redact matches new_redactor has_run words
login_stored = refl

matches_iff_example : (matches defaults "access_token" ≡ true) ↔ IsSensitive defaults "access_token"
matches_iff_example = matches_iff defaults "access_token"

redact-IsMasked_example :
    IsMasked defaults (redact defaults (tuple (cons (dict login) nil)))
    × (redact defaults (redact defaults (tuple (cons (dict login) nil)))
        ≡ redact defaults (tuple (cons (dict login) nil)))
redact-IsMasked_example = redact-IsMasked defaults (tuple (cons (dict login) nil))

abbrev engine : Engine
engine = new_engine "r" EffectSafety.warn NondeterminismPolicy.strict

abbrev logins : List Event
logins =
    new_event "r" task_scheduled
      (field "task_name" (str "login") (field "ordinal" (int (pos 0)) (field "input_ref" null end)))
      0
    ∷ new_event "r" task_completed login 0
    ∷ []

abbrev rows : List Row
rows =
    map
      (λ e. record {
        run_id = e.run_id;
        seq = e.seq;
        type = e.type;
        ts = e.ts;
        payload_json = dict e.payload;
      })
      logins

rows-read : rows_to_events rows ≡ ok logins
unfolding rows_to_events row_to_event decode get
rows-read = refl

-- What the redacted rows are read as.
abbrev masked_login : Fields
masked_login = field "task_name" (str "login") (
    field "ordinal" (int (pos 0)) (
      field "token" (str "structure") (
        field "output_ref"
          (list (
            cons (dict (field "api_key" (str "***REDACTED***") (field "n" (int (pos 1)) end))) nil))
          end)))

abbrev masked_logins : List Event
masked_logins =
    new_event "r" task_scheduled
      (field "task_name" (str "login") (field "ordinal" (int (pos 0)) (field "input_ref" null end)))
      0
    ∷ new_event "r" task_completed masked_login 0
    ∷ []

redacted-read : rows_to_events (map (redact_row defaults) rows) ≡ ok masked_logins
unfolding rows_to_events redact_row row_to_event decode redact_value_slots get redact_slots
    is_value_slot redact matches new_redactor has_run words
redacted-read = refl

load_journal-redacted_example :
    without_values (load_journal masked_logins engine) ≡ without_values (load_journal logins engine)
load_journal-redacted_example = load_journal-redacted defaults rows engine rows-read redacted-read
