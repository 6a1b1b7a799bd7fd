-- ===== src/Commit/Coordinator.antt =====
-- src/commit/coordinator.rs: the state of the commit coordinator, its errors, and the bookkeeping
-- around a commit. The gate with the statistics, the commit state, the Value Log writer and the index
-- are the fields of one record; a method takes it and gives it back. The writer and the index are
-- seen through the operations that the coordinator calls.
pub mod Request
pub mod Commit
pub mod Barrier
pub mod Invariant
pub mod Persisted
pub mod Moves
pub mod Flushed
pub mod Outcome
pub mod Kept
pub mod Coherent
pub mod Failure
pub mod Entry
pub mod Reached
use expirkv.Prelude.{
  ℕ, ◌+◌, Bool, true, false, not, ◌||◌, ◌&&◌, Option, none, some, ltb, ◌==◌, if◌then◌else◌, Bytes,
}
use mathlib.Core.Option
use expirkv.Error
use expirkv.Error.{
  StorageError, StorageErrorKind, RetryAdvice, WriteOutcome, not_committed, commit_unknown,
  InstanceState, healthy, write_stopped, poisoned, Operation, op_background, op_open, ProtocolStage,
  maintenance, preflight, capacity_exceeded, corruption, invalid_layout, incompatible_format, io,
  storage_poisoned, unrecoverable, fix_environment_and_reopen, reopen_and_verify, restore_or_repair,
  do_not_retry, codec_error, Result, ok, err, ◌>>=◌, ◌>>◌, map_err, reject_if,
}
use expirkv.Uuid
use expirkv.Uuid.{Uuid}
use expirkv.Stats
use expirkv.Runtime.State.{required_failure_state}
use expirkv.Runtime.Gate
use expirkv.Runtime.Gate.{Control, state, WriteRequest, finish_write, latch_failure}
use expirkv.Vlog.Geometry.{VLogPosition, VLogGeometry}
use expirkv.Vlog.Envelope.{PreparedEnvelope}
use expirkv.Commit.Position.{VLogPos}
use expirkv.Commit.Frontier
use expirkv.Commit.Frontier.{DurableFrontier, DurableVLogEnd, empty, position}
use expirkv.Index.{
  IndexAtomicBatch, IndexCommitMode, IndexCommitResult, IndexCommitError, IndexApplyState,
  not_applied, unknown,
}

pub record CommitStateSnapshot : Type 0 where
  pub head_seq : ℕ
  pub durable_seq : ℕ
  pub head_vlog_seq : ℕ
  pub durable_vlog_seq : ℕ
  pub head_vlog_end : Option VLogPosition
  pub durable_vlog_end : Option VLogPosition

pub record CommitState : Type 0 where
  pub head_seq : ℕ
  pub durable_frontier : DurableFrontier
  pub head_vlog_seq : ℕ
  pub head_vlog_end : Option VLogPosition

-- What the coordinator calls of `ValueLogWriter`, with `S` for `FrontierSync`.
pub record ValueLog (W S : Type 0) : Type 0 where
  pub database_uuid : W → Uuid
  pub position : W → VLogPosition
  pub geometry : W → VLogGeometry
  pub append : W → PreparedEnvelope → W × Result (Unit {0})
  pub has_terminal_failure : W → Bool
  pub sync_through : W → ℕ → Option VLogPosition → W × Result S
  pub frontier_succeeded : W → S → W × Result (Unit {0})
  pub frontier_failed : W → S → W
  pub active_file_id : W → Option ℕ
  pub file_count : W → ℕ
  pub logical_bytes : W → ℕ

-- What it calls of `IndexBackend`.
pub record Backend (I : Type 0) : Type 0 where
  pub get_user : I → Bytes → Result (Option Bytes)
  pub commit_atomic : I → IndexAtomicBatch → IndexCommitMode → I × IndexCommitResult

pub record Coordinator (W I : Type 0) : Type 0 where
  pub runtime : Control
  pub state : CommitState
  pub writer : W
  pub index : I

unfoldable pub frontier_from_optional : ℕ → ℕ → Option VLogPosition → DurableFrontier
frontier_from_optional seq vlog_seq none = record {
  durable_seq = seq;
  durable_vlog_seq = vlog_seq;
  durable_vlog_end = empty;
}
frontier_from_optional seq vlog_seq (some end) = record {
  durable_seq = seq;
  durable_vlog_seq = vlog_seq;
  durable_vlog_end = position (record { file_id = end.file_id; offset = end.offset });
}

unfoldable pub descriptor_end_to_format : DurableVLogEnd → Option VLogPosition
descriptor_end_to_format empty = none
descriptor_end_to_format (position p) = some (record { file_id = p.file_id; offset = p.offset })

unfoldable pub snapshot : CommitState → CommitStateSnapshot
unfolding descriptor_end_to_format
snapshot s = record {
  head_seq = s.head_seq;
  durable_seq = s.durable_frontier.durable_seq;
  head_vlog_seq = s.head_vlog_seq;
  durable_vlog_seq = s.durable_frontier.durable_vlog_seq;
  head_vlog_end = s.head_vlog_end;
  durable_vlog_end = descriptor_end_to_format s.durable_frontier.durable_vlog_end;
}

-- The OS codes that `matches!` lists: no space, a read-only file system, two quotas.
unfoldable pub stops_on_code : Option ℕ → Bool
stops_on_code none = false
stops_on_code (some code) = code == 28 || code == 30 || code == 69 || code == 122

unfoldable pub is_capacity : StorageErrorKind → Bool
is_capacity capacity_exceeded = true
is_capacity _ = false

unfoldable pub classify_vlog_append_failure : StorageError → Bool → InstanceState
unfolding is_capacity stops_on_code
classify_vlog_append_failure e terminal =
    if not terminal
    then healthy
    else if is_capacity e.kind || stops_on_code e.os_code
    then write_stopped
    else poisoned

unfoldable pub remap_writer_operation : Operation → StorageError → StorageError
remap_writer_operation op e = record e { operation = op }

-- The outcome, the state and the advice of a failed commit of the index.
pub record CommitFailure : Type 0 where
  pub outcome : WriteOutcome
  pub target : InstanceState
  pub advice : RetryAdvice

unfoldable pub not_applied_failure : StorageErrorKind → CommitFailure
not_applied_failure io = record {
  outcome = not_committed;
  target = poisoned;
  advice = reopen_and_verify;
}
not_applied_failure storage_poisoned = record {
  outcome = not_committed;
  target = poisoned;
  advice = reopen_and_verify;
}
not_applied_failure corruption = record {
  outcome = not_committed;
  target = poisoned;
  advice = restore_or_repair;
}
not_applied_failure invalid_layout = record {
  outcome = not_committed;
  target = poisoned;
  advice = restore_or_repair;
}
not_applied_failure unrecoverable = record {
  outcome = not_committed;
  target = poisoned;
  advice = restore_or_repair;
}
not_applied_failure incompatible_format = record {
  outcome = not_committed;
  target = poisoned;
  advice = do_not_retry;
}
not_applied_failure _ = record {
  outcome = not_committed;
  target = write_stopped;
  advice = fix_environment_and_reopen;
}

unfoldable pub index_failure : IndexApplyState → StorageErrorKind → CommitFailure
unfolding not_applied_failure
index_failure unknown k = record {
  outcome = commit_unknown;
  target = poisoned;
  advice = reopen_and_verify;
}
index_failure not_applied k = not_applied_failure k

unfoldable pub with_identity : StorageError → Option (ℕ × Uuid) → StorageError
unfolding Uuid.to_bytes
with_identity e none = e
with_identity e (some (seq, id)) = record e {
  commit_seq = some seq;
  tx_uuid = some (Uuid.to_bytes id);
}

unfoldable pub map_index_commit_error :
    IndexCommitError → Operation → ProtocolStage → Option (ℕ × Uuid) → StorageError × InstanceState
unfolding index_failure with_identity Error.write_protocol
map_index_commit_error e op stage identity =
    let f = index_failure e.apply_state e.source.kind in
    (
      with_identity
          (record (Error.write_protocol e.source.kind op stage f.outcome f.target f.advice) {
            os_code = e.source.os_code;
          })
          identity,
      f.target,
    )

unfoldable pub is_unknown : Option WriteOutcome → Bool
is_unknown (some commit_unknown) = true
is_unknown _ = false

unfoldable pub same_state : InstanceState → InstanceState → Bool
same_state healthy healthy = true
same_state write_stopped write_stopped = true
same_state poisoned poisoned = true
same_state _ _ = false

unfoldable pub is_state : Option InstanceState → InstanceState → Bool
unfolding same_state
is_state none s = false
is_state (some t) s = same_state t s

unfoldable pub poisoned_advice : StorageErrorKind → RetryAdvice
poisoned_advice corruption = restore_or_repair
poisoned_advice invalid_layout = restore_or_repair
poisoned_advice unrecoverable = restore_or_repair
poisoned_advice incompatible_format = do_not_retry
poisoned_advice _ = reopen_and_verify

unfoldable pub advice_in_state : StorageError → InstanceState → RetryAdvice
unfolding poisoned_advice
advice_in_state e healthy = e.retry_advice
advice_in_state e write_stopped = fix_environment_and_reopen
advice_in_state e poisoned = poisoned_advice e.kind

unfoldable pub retry_for_state : StorageError → InstanceState → RetryAdvice
unfolding is_unknown is_state advice_in_state
retry_for_state e s =
    if is_unknown e.write_outcome
    then reopen_and_verify
    else if is_state e.instance_state s
    then e.retry_advice
    else advice_in_state e s

unfoldable pub stats_invariant_error : StorageError
unfolding codec_error
stats_invariant_error =
    record (codec_error corruption op_background maintenance none restore_or_repair) {
      instance_state = some poisoned;
    }

unfoldable pub initial_state_error : StorageError
unfolding codec_error
initial_state_error = codec_error invalid_layout op_open preflight none restore_or_repair
