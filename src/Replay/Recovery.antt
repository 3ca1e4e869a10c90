-- ===== src/Replay/Recovery.antt =====
-- A call that has completed is in the journal in a form that the next engine reads back
-- (executor/__init__.py, journal/store.py and `_load_journal` of replay/engine.py together).
use satay_runtime.Prelude.{
  ℕ, String, ◌≡◌, refl, none, some, Option, List, [], ◌∷◌, ◌++◌, ==_refl, inl, inr, string_eq,
}
use satay_runtime.Prelude.Dict
use satay_runtime.Prelude.Dict.{get-put_self}
use satay_runtime.Prelude.Int.{ℤ}
use satay_runtime.Value.{Value, Items, Fields, dict, str, int, field, end, get, merge}
use satay_runtime.Errors.{ok, ◌>>=◌, >>=-eq-ok, bind-ok, Result-cases}
use satay_runtime.Config.{EffectSafety, NondeterminismPolicy}
use satay_runtime.Journal.Codec.{encode, decode, decode_fields, tag_key}
use satay_runtime.Journal.Codec.Json.{
  IsJson, JsonFields, HasJsonTags, encode-IsJson, encode_fields-fixed,
}
use satay_runtime.Journal.Codec.Plain.{IsClean, plain}
use satay_runtime.Journal.Codec.RoundTrip.{decode-encode}
use satay_runtime.Journal.Events.{Event, task_completed, new_event}
use satay_runtime.Journal.Store
use satay_runtime.Journal.Store.{Store, Row, journal, rows_of, rows_to_events, row_to_event}
use satay_runtime.Journal.Store.Append.{row_for, append-encoded, rows_of-snoc}
use satay_runtime.Journal.Store.Rows.{rows_to_events-append}
use satay_runtime.Executor.{completed, usage_field}
use satay_runtime.Replay.Identity.{CallIdentity, identity_eq, payload_fields, from_payload}
use satay_runtime.Replay.Identity.Payload.{IsProper}
use satay_runtime.Replay.Machine.{
  Env, Machine, Engine, TaskDefinition, Attempt, new_engine, commit, ◌>>=◌ as ◌>>>=◌, continue,
  pure, Outcome, returned, raised, parked,
}
use satay_runtime.Replay.Load.{value_at, load_event, load_payload, load_journal}
use satay_runtime.Replay.Commit.{commit-Commits}

load_journal-snoc :
    (es : List Event) (e : Event) (g : Engine)
    → load_journal (es ++ e ∷ []) g ≡ (load_journal es g >>= load_event e)
unfolding load_journal
load_journal-snoc [] e g = bind-ok (load_event e g)
load_journal-snoc (x ∷ es) e g = elim (Result-cases (load_event x g)) [
  | inl (g', done) ↦ rw done (load_journal-snoc es e g')
  | inr (z, failed) ↦ rw failed refl
]

-- The payload of a TaskCompleted, as it is read back: the output is decoded.
abbrev Reread : Value → Value → Fields → CallIdentity → Type 0
Reread o w rest i =
    (d : Fields) × ((encode "$" (dict (merge (payload_fields i) (field "output_ref" o rest)))
        >>= decode)
      ≡ ok (dict d))
    × (from_payload d ≡ ok i)
    × (get d "output_ref" ≡ some w)

module _ (o w : Value) (rest rest' : Fields) (json : IsJson o) (json_rest : JsonFields rest)
    (untagged : get rest tag_key ≡ none) (read : decode o ≡ ok w)
    (read_rest : decode_fields rest ≡ ok rest') (unkeyed : get rest' "key" ≡ none) where
  payload-Reread :
      (name : String) (n : ℤ) (key : Option String)
      → IsProper (record { task_name = name; ordinal = n; key = key })
      → Reread o w rest (record { task_name = name; ordinal = n; key = key })
  unfolding encode decode payload_fields merge get from_payload
  payload-Reread name n none proper = (
    field "task_name" (str name) (field "ordinal" (int n) (field "output_ref" w rest')),
    rw
        (
          encode_fields-fixed "$"
              (field "task_name" (str name) (field "ordinal" (int n) (field "output_ref" o rest)))
              (tt, (tt, (json, json_rest))),
          untagged,
          read,
          read_rest,
        )
        refl,
    rw (unkeyed, from_payload) refl,
    refl,
  )
  payload-Reread name n (some k) proper = (
    field "task_name" (str name) (field "key" (str k) (field "output_ref" w rest')),
    rw
        (
          encode_fields-fixed "$"
              (field "task_name" (str name) (field "key" (str k) (field "output_ref" o rest)))
              (tt, (tt, (json, json_rest))),
          untagged,
          read,
          read_rest,
        )
        refl,
    rw proper refl,
    refl,
  )

continue-last :
    {A B : Type 0} (r : Outcome A) (v : B) (n : Machine) → (continue r (λ _. pure v) n).1 ≡ n
continue-last (returned w) v n = refl
continue-last (raised x) v n = refl
continue-last parked v n = refl

-- The journal of the run behind one more event, whose stored payload reads as d.
journal-stored :
    (s : Store) (e : Event) (json : Value) (d : Fields) (es : List Event)
    → encode "$" (dict e.payload) ≡ ok json
    → decode json ≡ ok (dict d)
    → journal s e.run_id ≡ ok es
    → (n : ℕ) × (journal (Store.append s e).1 e.run_id
        ≡ ok (
            es
            ++ record { run_id = e.run_id; type = e.type; payload = d; ts = e.ts; seq = n } ∷ []))
unfolding rows_to_events row_to_event
journal-stored s e json d es written read before =
    let row = row_for s e json in
    (
      row.seq,
      rw
          (
            append-encoded s e json written,
            rows_of-snoc s.events row e.run_id,
            ==_refl e.run_id,
            rows_to_events-append (rows_of s.events e.run_id) (row ∷ []),
            before,
            read,
          )
          refl,
    )

module _ (env : Env) (own : String) (d : TaskDefinition) (i : CallIdentity) (args : Items)
    (kwargs : Fields) (key : String) where
  completed-store :
      (a : Attempt) (v o : Value) (m : Machine)
      → encode "$" v ≡ ok o
      → (completed env own d i args kwargs key a v m).1.store
        ≡ (Store.append m.store (
            new_event own task_completed
              (merge (payload_fields i) (field "output_ref" o (usage_field a.usage)))
              m.now)).1
  unfolding ◌>>>=◌
  completed-store a v o m done =
      let e =
        new_event own task_completed
          (merge (payload_fields i) (field "output_ref" o (usage_field a.usage))) m.now in
      rw (done, continue-last (commit e m).0 v (commit e m).1) ((commit-Commits e m).store)

-- The usage that an attempt reports, if it does, is JSON that can be read back.
abbrev pub ReadsBack : Option Value → Type 0
ReadsBack none = Unit
ReadsBack (some u) = IsJson u × (w : Value) × (decode u ≡ ok w)

usage-Reread :
    (usage : Option Value) (o w : Value) (i : CallIdentity)
    → ReadsBack usage
    → IsProper i
    → IsJson o
    → decode o ≡ ok w
    → Reread o w (usage_field usage) i
unfolding decode get
usage-Reread none o w i h proper json read =
    payload-Reread o w end end json tt refl read refl refl i.task_name i.ordinal i.key proper
usage-Reread (some u) o w i h proper json read =
    let (json_u, x, read_u) = h in
    payload-Reread o w (field "usage" u end) (field "usage" x end) json (json_u, tt) refl read
      (rw read_u refl) refl i.task_name i.ordinal i.key proper

load_completed :
    (e : Event) (g : Engine) (i : CallIdentity) (w : Value)
    → e.type ≡ task_completed
    → from_payload e.payload ≡ ok i
    → get e.payload "output_ref" ≡ some w
    → (g' : Engine) × (load_event e g ≡ ok g') × (Dict.get g'.completed i ≡ some w)
unfolding load_payload
load_completed e g i w type named output = (
  record g { completed = Dict.put g.completed i w },
  rw (type, named, output, value_at) refl,
  get-put_self g.completed i w,
)

-- Once the result of a task is committed, and also if the worker dies right behind the commit, the
-- journal can be read, a new engine can load it, and has the call as completed with the plain form
-- of the result, provided the result is clean, its tags are JSON, the usage is JSON that can be read
-- back, and the journal could be read and loaded before.
pub completed-recovered :
    (env : Env) (own : String) (d : TaskDefinition) (i : CallIdentity) (args : Items)
    (kwargs : Fields) (key : String) (a : Attempt) (v : Value) (m : Machine) (safety : EffectSafety)
    (policy : NondeterminismPolicy) (es : List Event) (g : Engine)
    → IsProper i
    → IsClean v
    → HasJsonTags v
    → ReadsBack a.usage
    → journal m.store own ≡ ok es
    → load_journal es (new_engine own safety policy) ≡ ok g
    → (es' : List Event) × (g' : Engine) × (journal
          (completed env own d i args kwargs key a v m).1.store
          own
        ≡ ok es')
      × (load_journal es' (new_engine own safety policy) ≡ ok g')
      × (Dict.get g'.completed i ≡ some (plain v))
completed-recovered env own d i args kwargs key a v m safety policy es g proper clean tags usage
      before loaded =
    let (o, encoded, read) = >>=-eq-ok (encode "$" v) decode (decode-encode "$" v clean) in
    let json : IsJson o = rw encoded at (encode-IsJson "$" v tags) in
    let (p, reread, named, output) = usage-Reread a.usage o (plain v) i usage proper json read in
    let e =
      new_event own task_completed
        (merge (payload_fields i) (field "output_ref" o (usage_field a.usage))) m.now in
    let (stored, written, decoded) = >>=-eq-ok (encode "$" (dict e.payload)) decode reread in
    let (n, after) = journal-stored m.store e stored p es written decoded before in
    let last : Event = record {
      run_id = own;
      type = task_completed;
      payload = p;
      ts = m.now;
      seq = n;
    } in
    let (g', load, found) = load_completed last g i (plain v) refl named output in
    (
      es ++ last ∷ [],
      g',
      rw (completed-store env own d i args kwargs key a v o m encoded) after,
      rw (load_journal-snoc es last (new_engine own safety policy), loaded) load,
      found,
    )
