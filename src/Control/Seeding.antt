-- ===== src/Control/Seeding.antt =====
-- The journal of a fork, as `create_fork` of control/commands.py seeds it.
use satay_runtime.Prelude.{
  String, ℕ, suc, ◌+◌, ◌≡◌, ◌≢◌, refl, sym, ◌∙◌, ap, none, some, List, [], ◌∷◌, ◌++◌, append-nil,
  append_assoc, arith, All, length, length-append, ap₂, ==_refl, string_eq,
}
use satay_runtime.Value.{Fields, get, literal}
use satay_runtime.Errors.{Result, ok, raise}
use satay_runtime.Journal.Codec.{tag_key}
use satay_runtime.Journal.Codec.Plain.{CleanFields, plain_fields}
use satay_runtime.Journal.Events.{Event, RunRecord, new_event, with_seq, run_forked, running}
use satay_runtime.Journal.Store
use satay_runtime.Journal.Store.{Store, Row, journal, rows_of, rows_to_events, get_run}
use satay_runtime.Journal.Store.Rows.{rows_to_events-cons}
use satay_runtime.Journal.Store.Append.{journal-append}
use satay_runtime.Journal.Store.Cache.{read_events-eq-journal, events-read_events}
use satay_runtime.Journal.Store.Reach.{IsSound, append-IsSound, same_rows, read-IsSound}
use satay_runtime.Replay.Appends.{Extends-elsewhere}
use satay_runtime.Control.Commands.{inherit}
use satay_runtime.Control.Forks.{
  copied, seed, seal, write_fork, fork_prefix, create_fork, prefix, lineage_fields,
}
use satay_runtime.Control.Growth.{create_fork-Extends, create_run_same}

-- A payload that the journal gives back as it is.
abbrev pub IsVerbatim : Fields → Type 0
IsVerbatim d = (get d tag_key ≡ none) × CleanFields d × (plain_fields d ≡ d)

-- Copies of events in the journal of a run, numbered behind n.
abbrev pub copies : String → ℕ → List Event → List Event
copies new n [] = []
copies new n (e ∷ es) = record e { run_id = new; seq = suc n } ∷ copies new (suc n) es

rows_to_events-length :
    (rs : List Row) (es : List Event) → rows_to_events rs ≡ ok es → length rs ≡ length es
rows_to_events-length [] es h = unfold rows_to_events in ground arith
rows_to_events-length (r ∷ rs) es h =
    let (e, rest, read, others, same) = rows_to_events-cons r rs es h in
    rw same (omega (arith, rows_to_events-length rs rest others))

-- Appending an event of a run to its journal.
append_own :
    (s : Store) (e : Event) (done : List Event)
    → IsSound s
    → journal s e.run_id ≡ ok done
    → IsVerbatim e.payload
    → ((Store.append s e).0 ≡ ok (with_seq e (length done + 1)))
      × (journal (Store.append s e).1 e.run_id
          ≡ ok (done ++ record e { seq = length done + 1 } ∷ []))
append_own s e done sound read (untagged, clean, fixed) =
    let (stored, journals) = journal-append s e sound.numbered untagged clean in
    let many = rows_to_events-length (rows_of s.events e.run_id) done read in
    (
      stored ∙ ap (λ n. ok (with_seq e (n + 1))) many,
      journals e.run_id ∙ rw (==_refl e.run_id, read, many, fixed) refl,
    )

copies-next :
    (new : String) (done : List Event) (e : Event) (es : List Event)
    → let x : Event = record e { run_id = new; seq = length done + 1 } in
      (done ++ x ∷ []) ++ copies new (length (done ++ x ∷ [])) es
      ≡ done ++ copies new (length done) (e ∷ es)
copies-next new done e es =
    let one_more : length done + 1 ≡ suc (length done) = omega arith in
    let x : Event = record e { run_id = new; seq = length done + 1 } in
    let longer : length (done ++ x ∷ []) ≡ suc (length done) =
      omega (arith, length-append done (x ∷ [])) in
    append_assoc done (x ∷ []) _
    ∙ ap₂ (λ n k. done ++ record e { run_id = new; seq = n } ∷ copies new k es) one_more longer

seed-journal :
    (new : String) (es : List Event) (lineage : Fields) (s : Store) (done : List Event)
    → IsSound s
    → journal s new ≡ ok done
    → All (λ (e : Event). IsVerbatim e.payload) es
    → ((seed inherit new es lineage s).0 ≡ ok lineage)
      × IsSound (seed inherit new es lineage s).1
      × (journal (seed inherit new es lineage s).1 new ≡ ok (done ++ copies new (length done) es))
unfolding seed copied
seed-journal new [] lineage s done sound read h =
    (refl, sound, read ∙ ap ok (sym (append-nil done)))
seed-journal new (e ∷ es) lineage s done sound read h =
    let d = new_event new e.type e.payload e.ts in
    let (stored, journals) = append_own s d done sound read h.0 in
    let next = (Store.append s d).1 in
    let (same, kept, whole) =
      seed-journal new es lineage next (done ++ record d { seq = length done + 1 } ∷ [])
        (append-IsSound s d sound) journals h.1 in
    rw (stored, seed) (same, kept, whole ∙ ap ok (copies-next new done e es))

-- The RunForked behind the copies.
abbrev pub forked_event : String → ℕ → String → ℕ → List Event → Event
forked_event source point new now done =
    record (new_event new run_forked (lineage_fields source point) now) { seq = length done + 1 }

lineage-IsVerbatim : (source : String) (point : ℕ) → IsVerbatim (lineage_fields source point)
unfolding get literal
lineage-IsVerbatim source point = (refl, (tt, (tt, tt)), refl)

seal-journal :
    (source : String) (point : ℕ) (new : String) (now : ℕ) (q : Result Fields × Store)
    (done : List Event)
    → q.0 ≡ ok (lineage_fields source point)
    → IsSound q.1
    → journal q.1 new ≡ ok done
    → ((seal inherit source new now q).0 ≡ ok tt)
      × (journal (seal inherit source new now q).1 new
          ≡ ok (done ++ forked_event source point new now done ∷ []))
seal-journal source point new now (raise x, t) done h sound read = absurd (cc h)
seal-journal source point new now (ok l, t) done h sound read =
    let same : lineage_fields source point ≡ l = cc in
    let (stored, journals) =
      append_own t (new_event new run_forked (lineage_fields source point) now) done sound read
        (lineage-IsVerbatim source point) in
    rw (← same, stored) (refl, journals)

write_fork-journal :
    (source name : String) (point : ℕ) (new : String) (now : ℕ) (version : String) (es : List Event)
    (s : Store)
    → IsSound s
    → rows_of s.events new ≡ []
    → All (λ (e : Event). IsVerbatim e.payload) es
    → let made = write_fork source name point new now version inherit es s in
      (made.0 ≡ ok tt)
      × (journal made.1 new
          ≡ ok (copies new 0 es ++ forked_event source point new now (copies new 0 es) ∷ []))
unfolding write_fork
write_fork-journal source name point new now version es s sound fresh clean =
    let row : RunRecord = record {
      run_id = new;
      workflow_name = name;
      status = running;
      code_version = version;
      created_at = now;
      idempotency_key = none;
    } in
    let same = create_run_same row s in
    let created = Store.create_run s row in
    let kept : IsSound created = same_rows (sym same.0) (sym same.1) sound in
    let empty_yet : journal created new ≡ ok [] =
      ap (λ rows. rows_to_events (rows_of rows new)) same.0
      ∙ rw fresh (unfold rows_to_events in refl) in
    let (made, in_order, whole) =
      seed-journal new es (lineage_fields source point) created [] kept empty_yet clean in
    seal-journal source point new now (seed inherit new es (lineage_fields source point) created)
      (copies new 0 es) made in_order whole

fork_prefix-journal :
    (source name : String) (point : ℕ) (new : String) (now : ℕ) (version : String) (es : List Event)
    (s : Store)
    → IsSound s
    → rows_of s.events new ≡ []
    → es ≢ []
    → All (λ (e : Event). IsVerbatim e.payload) es
    → let made = fork_prefix source name point new now version inherit es s in
      (made.0 ≡ ok name)
      × (journal made.1 new
          ≡ ok (copies new 0 es ++ forked_event source point new now (copies new 0 es) ∷ []))
unfolding fork_prefix
fork_prefix-journal source name point new now version [] s sound fresh some_copies clean =
    absurd (some_copies refl)
fork_prefix-journal source name point new now version (e ∷ es) s sound fresh some_copies clean =
    let (done, whole) =
      write_fork-journal source name point new now version (e ∷ es) s sound fresh clean in
    (rw done refl, whole)

create_fork-found :
    (s : Store) (source : String) (point : ℕ) (new : String) (now : ℕ) (version : String)
    (r : RunRecord) (events : List Event)
    → get_run s source ≡ some r
    → (Store.read_events s source).0 ≡ ok events
    → create_fork s source point new now version inherit
      ≡ fork_prefix source r.workflow_name point new now version inherit
          (prefix point events)
          (Store.read_events s source).1
unfolding create_fork
create_fork-found s source point new now version r events found reads =
    rw (found, reads, create_fork) refl

-- In a store in order, a fork without a new input from a run whose journal can be read, at a point
-- that some event is not behind, into a run that has no rows, all copied payloads being such that
-- the journal gives them back as they are: returns the name of the workflow; the fork's journal is
-- the events up to the point with their types, payloads and times, numbered from 1, and a RunForked
-- that names the source and the point; the rows of the source and of all other runs stay, if the
-- source is not the new run.
pub create_fork-journal :
    (s : Store) (source : String) (point : ℕ) (new : String) (now : ℕ) (version : String)
    (r : RunRecord) (events : List Event)
    → IsSound s
    → get_run s source ≡ some r
    → journal s source ≡ ok events
    → rows_of s.events new ≡ []
    → prefix point events ≢ []
    → All (λ (e : Event). IsVerbatim e.payload) (prefix point events)
    → let made = create_fork s source point new now version inherit in
      (made.0 ≡ ok r.workflow_name)
      × (journal made.1 new
          ≡ ok (
              copies new 0 (prefix point events)
              ++ forked_event source point new now (copies new 0 (prefix point events)) ∷ []))
      × ((j : String) → j ≢ new → rows_of made.1.events j ≡ rows_of s.events j)
create_fork-journal s source point new now version r events sound found read fresh some_copies
      clean =
    let reads = (read_events-eq-journal s source sound.numbered sound.coherent).0 ∙ read in
    let seen = (Store.read_events s source).1 in
    let same = events-read_events s source in
    let grown =
      create_fork-Extends {P = λ j. j ≡ new} s source point new now version inherit refl sound in
    let (done, whole) =
      fork_prefix-journal source r.workflow_name point new now version (prefix point events) seen
        (read-IsSound s source sound) (ap (λ rows. rows_of rows new) same ∙ fresh) some_copies
        clean in
    let opened = create_fork-found s source point new now version r events found reads in
    rw opened (
      done,
      whole,
      λ j other.
          ap (λ (p : Result String × Store). rows_of p.1.events j) (sym opened)
          ∙ Extends-elsewhere new j grown other,
    )
