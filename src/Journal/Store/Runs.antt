-- ===== src/Journal/Store/Runs.antt =====
-- The table of runs (journal/store.py).
use satay_runtime.Prelude.{
  String, ◌≡◌, ap, none, some, Option, List, [], ◌∷◌, map, arith, ◌==◌, string_eq, str_eq_iff,
  if◌then◌else◌,
}
use satay_runtime.Journal.Events.{RunRecord, RunStatus, Event}
use satay_runtime.Journal.Store.{Store, find_run, get_run, set_status, append, read_events}

abbrev pub with_status : RunStatus → Option RunRecord → Option RunRecord
with_status status none = none
with_status status (some r) = some (record r { status = status })

find_run-map :
    (rs : List RunRecord) (run_id j : String) (status : RunStatus)
    → find_run
        (map (λ (r : RunRecord). if r.run_id == run_id then record r { status = status } else r) rs)
        j
      ≡ (if run_id == j then with_status status (find_run rs j) else find_run rs j)
unfolding find_run
find_run-map [] run_id j status = ground arith
find_run-map (r ∷ rs) run_id j status = ground (
  arith,
  find_run-map rs run_id j status,
  str_eq_iff r.run_id run_id,
  str_eq_iff run_id j,
  str_eq_iff r.run_id j,
)

-- What a change of a status does to each run.
pub get_run-set_status :
    (s : Store) (run_id j : String) (status : RunStatus)
    → get_run (set_status s run_id status) j
      ≡ (if run_id == j then with_status status (get_run s j) else get_run s j)
unfolding get_run set_status
get_run-set_status s run_id j status = find_run-map s.runs run_id j status

pub get_run_same : (s t : Store) (j : String) → s.runs ≡ t.runs → get_run s j ≡ get_run t j
unfolding get_run
get_run_same s t j same = ap (λ rs. find_run rs j) same

pub append_runs : (s : Store) (e : Event) → (append s e).1.runs ≡ s.runs
unfolding append
append_runs s e = ground arith

pub runs-read_events : (s : Store) (run_id : String) → (read_events s run_id).1.runs ≡ s.runs
unfolding read_events
runs-read_events s run_id = ground arith
