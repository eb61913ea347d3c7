-- ===== src/Lib.antt =====
-- Unridden serves decisions of a local language model over HTTP. The decision API (unridden/api)
-- compiles a request into prompts, has a native worker score the labels of each question in one
-- forward pass, and maps the scores to typed answers. The snapshot API (unridden/api/snapshots) adds
-- named, reusable states of the model: a state is compiled to a prompt, frozen by the worker at a
-- boundary, and registered in a store, which counts its references, leases it to the calls that use
-- it, keeps the resident bytes within a budget by moving snapshots to disk or deleting them, publishes
-- durable snapshots with a manifest, and reads and checks that manifest before it loads one again.
-- The snapshot service has one request at a time: it plans the branch of a snapshot, promoting it where
-- it must, leases and restores the snapshot, has the worker run the branch that the compilers build,
-- registers the results in the store, and maps them to a response.
--
-- Which file models which part:
--
--   Prelude, Prelude/Tests, Prelude/Lists
--       the names, Boolean tests and lemmas that the rest shares.
--   Action, Action/Triple
--       Python code that changes objects and may raise: an action takes the state and returns a value
--       or an exception, with the changed state in both cases. `on_error` is `try/except` with a
--       re-raise, `finally` is `finally`. Triple has pre- and postconditions for both outcomes.
--   Json
--       JSON values, Python's `==` on them, lookups in an object.
--   Compiler
--       unridden/api/compiler.py. `render`, `options`, `question_heading`, `compile_question` and
--       `compile_request` are the functions of these names without the leading underscore. Text has
--       `"\n".join` and `str` of an int, Dumps the call of `json.dumps` in `render`.
--   Mapping
--       unridden/api/mapping.py: `stable_softmax` and `map_response`, over an interface of the floating
--       point numbers, Arithmetic; Wire has two validators of unridden/api/schema.py.
--   Application
--       unridden/api/app.py, in part: `ApiService.evaluate` and the tests of `ApiConfig`. Serving holds
--       proofs.
--   Snapshots/Errors, Snapshots/Schema
--       the exception classes of unridden/api/snapshots/errors.py and the literals of schema.py.
--   Snapshots/Compiler
--       unridden/api/snapshots/compiler.py: `state_prefix`, `question_block`, whose lines are written here
--       anew as they are in the source, `compile_create`, the continuations of a context and of a readout.
--   Snapshots/Wire
--       unridden/api/snapshots/schema.py: the bodies of the requests and the messages of the worker, each
--       a record with a test that says whether its pydantic model accepts it. Rows has the snapshots that
--       are created and promoted and the handshake, Branches the results of decisions, state evaluations
--       and rides, Vectors and Base64 the exported vectors (`_decode_f32`), and Requests the requests
--       with the question models of unridden/api/schema.py. Checks holds proofs.
--   Snapshots/Mapping
--       unridden/api/snapshots/mapping.py: `map_answer`, over the same interface.
--   Snapshots/Store
--       unridden/api/snapshots/store.py. Types has `SnapshotRecord` and the attributes of
--       `SnapshotStore`; Dict is the dict `_records`, an association list with distinct keys; Core has
--       `_now`, `get`, `expire`, `_forget`, `_release_ref` and `_next_tick`; Lease has `_ancestors` and
--       `lease`; Manifest has `_manifest` and `_validate_manifest`; Persist has `_persist` and
--       `_read_manifest`; Budget has `_enforce_budget` and `_evict_one`; Registry has `register`,
--       `memoize_promotion`, `memoized_promotion`, `restore` and `delete`; Published
--       reads a manifest for `_load_disk_index`, and Index has the rest of it, `__init__` and `metadata`.
--       The other files below it hold proofs: Rule has the predicates that survive the writes, Accounting the counters, Order
--       the choice of a victim, Catalogue the set of the ids, RoundTrip the manifest, and Promises what a caller relies on.
--   Snapshots/Service
--       unridden/api/snapshots/service.py. Service itself has `start`, `recover`, `_serialized`,
--       `_rollback` and `_background_recovery`, over the parameter `Parts`: the backend, the store and
--       the clock. Office fills it with the stores of Snapshots/Store, which the service refers to by
--       number, and an interface `Backend` for the worker, and has `_new_store`; Planning has
--       `_ensure_30`, `_plan` and `_register_child`; Decisions has `decide`, Evaluations `state_eval`,
--       `ride` and `vectors`, Creation `create`, `metadata` (`describe`) and `delete` (`remove`). Steps is
--       the service as a state machine, one call after another. Lifecycle, Recovery, Releases,
--       Invariants, Soundness, Entries, Returns, Answers, Replies, Rides and Riding hold proofs.
--
-- What the source calls and does not define is the parameter `Env` of the store: the clock, `uuid4`,
-- the native worker behind `NativeSnapshotIO`, the calls on files and the reading of JSON. Each is a
-- function of a world that it may change, and each call that may fail may raise. The theorems hold for
-- every such world, and none assumes that the worker, the disk or the clock behaves, but for two: those
-- of `decide` and `ride` take a backend that validates a result before it returns it. How Python prints
-- a float is a parameter of the compilers. The theorems of the best option and of `stable_softmax` name
-- the laws of the order of floats that they use.
--
-- Bounds and fuel. Python's integers are natural numbers where the code keeps them so. `_resident_bytes`
-- is only lowered by the bytes of a record that is resident, which are a part of that sum. A reading of
-- the clock is a whole number of seconds, and so is a time in a manifest: one that is negative or has a
-- fraction, which the source keeps, is refused. A text has its UTF-8 length, as the source takes it. Three
-- loops run on fuel: `expire` on the number of records, since each turn removes one; `_enforce_budget`
-- on the number of resident records, since each turn makes one of them non-resident or removes it; and
-- `_ancestors` on twice the number of records plus one, since each turn visits a record or drops one of
-- the at most two names that a visited record added.
--
-- A manifest on the disk may hold a value of another type than its field has in `SnapshotRecord`, such
-- as a depth of 19: the source keeps it, and the model, whose records are typed, raises a `TypeError`.
--
-- Not modelled: `schedule_recovery` and `close` of the service, which only start and cancel an asyncio
-- task, and the cancellation of a request; the worker's process and its framing
-- (unridden/api/snapshots/backend.py,
-- unridden/api/native_backend.py); the routes and the middleware of the HTTP application, and the float
-- time limits of its configuration; the command line; the build scripts; the
-- measurement scripts; and the native worker in C++. These are processes, files and sockets, or code
-- in another language.
pub mod Action
pub mod Application
pub mod Compiler
pub mod Json
pub mod Mapping
pub mod Prelude
pub mod Snapshots
