-- ===== src/Control/Forks.antt =====
-- control/commands.py: how the journal of a fork is seeded.
use satay_runtime.Prelude.{
  ℕ, String, Bool, true, false, ◌&&◌, not, none, some, List, [], ◌∷◌, any, filter, leb, string_eq,
  if◌then◌else◌,
}
use satay_runtime.Prelude.Text.{◌<>◌, str_nat}
use satay_runtime.Prelude.Int.{pos}
use satay_runtime.Value.{Fields, null, bool, int, str, get, has, set, literal}
use satay_runtime.Errors.{Result, ok, raise, ◌>>=◌, fork_validation_error}
use satay_runtime.Journal.Events.{
  EventType, Event, workflow_created, workflow_completed, workflow_failed, workflow_cancelled,
  run_forked, running, new_event,
}
use satay_runtime.Journal.Store
use satay_runtime.Journal.Store.{Store, text_leb}
use satay_runtime.Journal.Codec.{encode}
use satay_runtime.Control.Commands.{Override, inherit, override}

-- `e.type in _TERMINAL_EVENT_TYPES`
abbrev pub ends_run : EventType → Bool
ends_run workflow_completed = true
ends_run workflow_failed = true
ends_run workflow_cancelled = true
ends_run _ = false

abbrev pub is_workflow_created : EventType → Bool
is_workflow_created workflow_created = true
is_workflow_created _ = false

-- The payload and the lineage of one turn of the copying loop.
unfoldable pub copied : Override → Event → Fields → Result (Fields × Fields)
copied inherit e lineage = ok (e.payload, lineage)
copied (override v) e lineage =
    if is_workflow_created e.type
    then (encode "$" v >>= λ input. ok (
      set e.payload "input_ref" input,
      set (set lineage "input_overridden" (bool true)) "source_input_ref"
          (elim (get e.payload "input_ref") [ none ↦ null | some w ↦ w ]),
    ))
    else ok (e.payload, lineage)

-- The copying loop.
unfoldable pub seed : Override → String → List Event → Fields → Store → Result Fields × Store
unfolding copied
seed input new [] lineage s = (ok lineage, s)
seed input new (e ∷ es) lineage s = elim (copied input e lineage) [
  | raise x ↦ (raise x, s)
  | ok (payload, lineage') ↦
      let (r, s') = Store.append s (new_event new e.type payload e.ts) in
      elim r [ raise x ↦ (raise x, s') | ok stored ↦ seed input new es lineage' s' ]
]

abbrev pub overrides : Override → Bool
overrides inherit = false
overrides (override v) = true

-- The prefix of a journal up to a fork point.
abbrev pub prefix : ℕ → List Event → List Event
prefix point events = filter (λ e. leb e.seq point) events

-- RunForked, behind the copied prefix.
abbrev pub seal : Override → String → String → ℕ → Result Fields × Store → Result (Unit {0}) × Store
seal input source new now (raise x, s) = (raise x, s)
seal input source new now (ok lineage, s) =
    if overrides input && not (has lineage "input_overridden")
    then (
      raise (
          fork_validation_error
            ("run '" <> source <> "' has no WorkflowCreated event to override the input on")),
      s,
    )
    else (let (r, s') = Store.append s (new_event new run_forked lineage now) in
        (r >>= λ stored. ok tt, s'))

-- The fields of the lineage that are always there.
abbrev pub lineage_fields : String → ℕ → Fields
lineage_fields source point =
    literal (("source_run_id", str source) ∷ ("fork_point_seq", int (pos point)) ∷ [])

-- A new run's row, the copies, and RunForked.
unfoldable pub write_fork :
    String
    → String
    → ℕ
    → String
    → ℕ
    → String
    → Override
    → List Event
    → Store
    → Result (Unit {0}) × Store
unfolding seed
write_fork source workflow_name point new now version input copies s =
    let created = Store.create_run s (record {
      run_id = new;
      workflow_name = workflow_name;
      status = running;
      code_version = version;
      created_at = now;
      idempotency_key = none;
    }) in
    seal input source new now (seed input new copies (lineage_fields source point) created)

-- `create_fork` behind its reads, for the prefix that the fork copies.
unfoldable pub fork_prefix :
    String
    → String
    → ℕ
    → String
    → ℕ
    → String
    → Override
    → List Event
    → Store
    → Result String × Store
unfolding write_fork
fork_prefix source workflow_name point new now version input [] s = (
  raise (
      fork_validation_error (
        "fork-point seq "
        <> str_nat point
        <> " leaves nothing to seed from run '"
        <> source
        <> "'")),
  s,
)
fork_prefix source workflow_name point new now version input (e ∷ es) s =
    if overrides input && any (λ c. ends_run c.type) (e ∷ es)
    then (
      raise (
          fork_validation_error (
            "fork point "
            <> str_nat point
            <> " copies run '"
            <> source
            <> "' through its terminal event, so nothing would re-execute and workflow_input= "
            <> "would have no effect; choose an earlier fork point (before_task= is the easy way)")),
      s,
    )
    else (let (r, s') = write_fork source workflow_name point new now version input (e ∷ es) s in
        (r >>= λ u. ok workflow_name, s'))

-- `create_fork`
unfoldable pub create_fork :
    Store → String → ℕ → String → ℕ → String → Override → Result String × Store
unfolding fork_prefix
create_fork s source point new now version input = elim (Store.get_run s source) [
  | none ↦ (raise (fork_validation_error ("source run '" <> source <> "' not found")), s)
  | some r ↦
      let (found, s') = Store.read_events s source in
      elim found [
        | raise x ↦ (raise x, s')
        | ok events ↦
            fork_prefix source r.workflow_name point new now version input (prefix point events) s'
      ]
]
