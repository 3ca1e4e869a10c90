-- ===== src/Lib.antt =====
-- satay-runtime: a local-first durable-execution runtime. A workflow is Python code that awaits durable
-- operations: task calls, sleeps, waits for external events. Each run has a journal, an append-only
-- sequence of events in a SQLite store. A worker that dies is replaced by one that runs the workflow
-- again from the top; the replay engine answers the operations that the journal has a record of from
-- the record, and carries out the others.
--
-- Paths are those of the repository; "satay/" stands for src/satay/.
--
-- Value, Errors, Config: the Python values that cross the runtime, the exceptions, the policies
-- (satay/config.py has the enums). Exceptions are values of a result type.
--
-- Journal/Codec (satay/journal/codec.py): `encode` and `decode`, branch by branch, on Python values with
-- their JSON form as a subset. A dataclass is its class name and fields, a model is what its model_dump
-- returns, an enum member its value. Floats are counted in millionths, so that the loss of microseconds
-- of a timedelta of some 285 years or more (`total_seconds` and back) and NaN are not modelled. Rehydration
-- at a type annotation is a parameter of the engine (`Env.rehydrate`).
--
-- Journal/Events, Journal/Store (satay/journal/events.py, satay/journal/store.py): the tables as lists of
-- rows in insertion order, a query as the filter and sort of its SQL text, a transaction that fails as
-- one that leaves the store as it was. The read cache (`_event_cache`) is a field of the store. An
-- event's id is left out, a uuid that the runtime does not read. Blob spill and write-time redaction are
-- modelled apart from it (Blobs, Redaction), as the defaults of an in-memory store turn both off;
-- connections and migrations are not modelled. A TaggedDict whose discriminator json.dumps would refuse
-- is stored.
--
-- Replay/Identity (satay/replay/identity.py): identities of calls, the resolver's counters, idempotency
-- keys, the keys of a map. The hash function is a parameter.
--
-- Replay/Machine: the state that the engine and the executor share with their process: the store, the
-- fault injector, the clock, the random draws, the bodies run so far, the warnings logged, and the fields
-- of ReplayEngine. An action returns, raises or parks, and what it wrote before stays written; so a
-- crash after any commit is a run of the model with an armed injector.
--
-- Executor (satay/executor/__init__.py): `execute` with its retry loop, backoff and timeout. A task body
-- is a function of its context, its arguments and all the bodies run before it. The loop's fuel is
-- retries + 1: each round but the last uses up a failure (Executor/Retries; Executor/Bodies counts the
-- bodies that an action runs). The delays are in microseconds; the float power of the ceiling overflows where
-- Python's does.
--
-- Replay/Load, Replay/Engine, Replay/Waits, Replay/Drive (satay/replay/engine.py): `_load_journal`,
-- `durable_call`, `durable_sleep`, `durable_wait_for_event`, `drive`, with every commit and every early
-- return. A workflow body is the tree of the operations that it awaits one after the other. The
-- composites (map, gather, collect) and child runs are not modelled, nor are concurrent calls.
-- Replay/Growth says what all actions leave alone; Replay/Hits, what replay does not repeat; Replay/View,
-- what a loaded engine knows.
--
-- Replay/Appends and Replay/Settled: what every action of the runtime, engine or not, does to the
-- journals, and what a drive that returns leaves.
--
-- Journal/Wire (satay/journal/wire.py): the shipment of a run, as the JSON values that it is made of, and
-- its reader. A timestamp on the wire is the text that isoformat prints for an instant.
--
-- Api (satay/versioning/__init__.py, satay/api/runner.py, satay/api/run_handle.py, satay/api/fork.py): the
-- code version and its check, the controller behind a run's handle (`result`, `status`, `cancel`), and
-- `satay.fork`. `Process` is what a process works with: the outside world, the registry's lookup, its
-- code version and policies. No poll loop runs over the store in the process of a handle, so
-- `await_unpark` answers at once.
--
-- Control (satay/control/commands.py): the queue, cancellation, the choice of a fork point, the seeding of
-- a fork's journal, and how the worker applies each command. The messages of two refusals leave out
-- the list of names or ordinals.
--
-- Timers (satay/timers/__init__.py): the firing of one timer, the search for waits that are not resolved,
-- and one turn of the poll loop: commands, event delivery, timers, re-drives. The order in which Python
-- walks a set of run ids is a parameter.
--
-- Replay/Recovery puts codec, store, executor and engine together: a committed result survives a crash.
--
-- Redaction (satay/redaction.py): the words of a field name, the matching of patterns, `redact`, and
-- `redact_value_slots`, and in `redact_row` the step of `_encode_payload` that applies it. A pattern that
-- matches a key of the codec's own tags can make a redacted row one that `decode` refuses: the theorem on
-- journals is about rows that can be read.
--
-- Diff (satay/valuediff.py): `diff_values` with its caps and flags, and Python's == on values, which it
-- compares by. A key that is not a str stands with its repr in a path, where the source writes str(key).
--
-- Blobs (satay/blobs/__init__.py, satay/blobs/gc.py, `referenced_blob_ids` of satay/journal/store.py):
-- spill, resolution, and mark and sweep, over a directory held as its files by id. The record `Bytes` has
-- the JSON text of a value and the hash.
--
-- Not modelled: HTTP, files, the CLI, process supervision, and the layers beside the engine (views, ingest, evaluation, inspection).
pub mod Prelude
pub mod Value
pub mod Errors
pub mod Config
pub mod Journal
pub mod Replay
pub mod Executor
pub mod Timers
pub mod Api
pub mod Control
pub mod Redaction
pub mod Diff
pub mod Blobs
