-- ===== src/Lib.antt =====
-- A model of expirkv, an embedded key-value store that keeps its values in an append-only Value Log
-- and pointers to them in an index, and the theorems that make its core correct.
--
-- The parts, and the files that model them (paths from the repository's root):
--
-- * src/error.rs is Error: the kinds, advices and stages as data, `StorageError` as a record, and
--   every constructor function. `Result` with `>>=` stands for `?`, `ok_or` for `ok_or_else`,
--   `reject_if` for a guard that returns an error.
-- * src/stats.rs is Stats, with Stats/Updates: the snapshot under its lock and its two updates.
-- * src/runtime/state.rs is Runtime/State (the state word) and Runtime/Gate (`RuntimeControl`);
--   src/runtime/write_gate.rs is Runtime/Request (requests and their phases), the queue of
--   Runtime/Gate, and Runtime/Gate/Ticket (`WriteTicket`, finished or dropped). `RuntimeControl` is
--   the record `Control`, its methods are functions on it under their names: check_write_admission,
--   enqueue_write, close_write_admission, latch_failure, cancel_queued_write, abandon_write,
--   finish_write, stats (read_stats). A request that several owners share is an id, with its phase
--   in the store `phases`; the static counter of ids stands in the control, since other databases
--   of the process only make it skip numbers. A method's critical section and the wake-ups after it
--   are one step; the two reads of the state in enqueue_write and in check_write_admission see the
--   same state. Runtime/Gate/Steps makes the calls of all threads a step relation; Coherent states
--   the invariant, Preserve, Finish and Latch keep it, History, Waiting and Order draw what it
--   means for the writers.
-- * src/runtime/lifecycle.rs is Lifecycle: leases and guards, with Lifecycle/Quiescence. The last
--   lease closes the write gate of Runtime/Gate. The clock and the wake-ups of wait_for_quiescence
--   are a list of observations, which is what the loop runs on.
-- * src/batch.rs is Batch, with Batch/Accepts. src/format.rs is Format, with Format/RoundTrip.
-- * src/commit/descriptor.rs is Commit, a module for each encoded object: Position, Keys, TxMeta,
--   Mutation, Descriptor, Identity, Frontier, RecoveryState, with Errors for the errors and the
--   checked reads. Descriptor uses Keys, TxMeta and Mutation as the code does.
-- * src/vlog/format.rs is Vlog: Pointer, PageHeader, FileHeader, RecordHeader, Geometry and
--   Planner, with Errors. `LayoutPlanner::plan_record` is Planner.plan_record, its helpers are
--   named for the branches of plan_record_inner and ensure_record_area. Record has the records and
--   their encoders, Record/Decode their decoders, Envelope, Envelope/Checksum and Envelope/Prepare
--   what prepare_envelope does: its loops are functions, its stages place_envelope and
--   encode_operations.
-- * src/index/mod.rs is Index (batches and their checks), Index/Initialization (the preflight of a
--   commit, the first batch of a database, the identity row) and Index/Range (key ranges);
--   Index/Space is what a batch does to the rows of the user keys, taken one mutation after the
--   other, and Index/Batches compares the first batch with the codecs of Commit.
-- * src/commit/protocol.rs is Commit/Preflight (the checks of a write and the ordinals of its keys),
--   Commit/Plan (key plans), Commit/Plan/Batch (build_index_batch) and Commit/Prepare
--   (prepare_commit). Plan/Replay is the specification, the operations made one after the other;
--   Plan/Sequential and Plan/Published compare the plans and the batch with it, Prepare/Effect the
--   whole of prepare_commit.
-- * src/commit/durability.rs is Commit/Durability, src/commit/coordinator.rs is
--   Commit/Coordinator: the state and the errors there, the bookkeeping in Request, commit_started
--   in Commit, commit_empty_barrier in Barrier, the entry points in Entry. The Value Log's writer
--   and the index are the records ValueLog and Backend of the operations that the coordinator
--   calls; a method gives the coordinator back with its result. Each early return of the source
--   ends one function, and the answer of a call is the argument of the next, so that the mutexes,
--   which no other request contends for while this one is active, do not appear. Outcome follows
--   the commit state to each end, Persisted the calls of the writer and of the index (its children
--   put the two together for a commit and for a barrier, Commit/Durability/Rows adds the row of the
--   frontier), Invariant, Moves and Flushed say what holds there, Reached over the life of a
--   coordinator; Kept follows the control, Coherent the invariant of the gate, and
--   Failure the errors.
--
-- Numbers are native naturals. A field of w bits is below 2 ^ w where a theorem says that it fits;
-- a `checked_add` or `try_from` is a comparison with 2 ^ w, a wrapping one is `% 2 ^ w`. A byte
-- string is a list of numbers, an array of sixteen bytes is Uuid. Arrays that an encoder fills are
-- built by appending the fields in order. The crc32c crate is the parameter `Crc` with the laws
-- `IsCrc` of its documentation; the allocator is a parameter `reserves`. No loop needs fuel: every
-- loop runs over a list.
--
-- Not modelled: the scan of an envelope and the search for its footer, the files of the Value Log
-- and its writer, the adapter of the fjall store, recovery, reads, the database facade and the lock
-- file; what other threads do to the coordinator while a request waits, which is a parameter; error
-- messages; timeouts of a single ticket; the hooks that inject failures in tests.
pub mod Batch
pub mod Commit
pub mod Crc
pub mod Error
pub mod Format
pub mod Index
pub mod Lifecycle
pub mod Prelude
pub mod Runtime
pub mod Stats
pub mod Tests
pub mod Uuid
pub mod Vlog
