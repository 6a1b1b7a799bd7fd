-- ===== src/Stats.antt =====
-- src/stats.rs: the statistics snapshot and its two guarded updates. The read-write lock is taken for
-- the whole of each call, so an update is one function on the snapshot; counters are plain numbers.
pub mod Updates
use expirkv.Prelude.{
  ℕ, ◌-◌, Bool, true, false, Option, none, some, ◌&&◌, ◌||◌, ltb, ◌==◌, if◌then◌else◌,
}
use mathlib.Core.Option
use expirkv.Error.{
  InstanceState, healthy, write_stopped, poisoned, Operation, ProtocolStage, RetryAdvice,
  StorageError, StorageErrorKind,
}

pub record VLogPosition : Type 0 where
  pub file_id : ℕ
  pub offset : ℕ

pub record LatchedErrorSummary : Type 0 where
  pub kind : StorageErrorKind
  pub operation : Operation
  pub protocol_stage : ProtocolStage
  pub retry_advice : RetryAdvice
  pub os_code : Option ℕ
  pub commit_seq : Option ℕ
  pub vlog_file_id : Option ℕ
  pub vlog_offset : Option ℕ

pub record DbStats : Type 0 where
  pub schema_version : ℕ
  pub instance_state : InstanceState
  pub state_epoch : ℕ
  pub first_latched_error : Option LatchedErrorSummary
  pub head_seq : ℕ
  pub durable_seq : ℕ
  pub durability_lag : ℕ
  pub durable_vlog_end : Option VLogPosition
  pub active_vlog_file_id : Option ℕ
  pub vlog_file_count : ℕ
  pub vlog_logical_bytes : ℕ

-- `StatsState::new`.
unfoldable pub new : DbStats
new = record {
  schema_version = 1;
  instance_state = healthy;
  state_epoch = 0;
  first_latched_error = none;
  head_seq = 0;
  durable_seq = 0;
  durability_lag = 0;
  durable_vlog_end = none;
  active_vlog_file_id = none;
  vlog_file_count = 0;
  vlog_logical_bytes = 0;
}

-- `LatchedErrorSummary::from_storage_error`.
unfoldable pub from_storage_error : StorageError → LatchedErrorSummary
from_storage_error e = record {
  kind = e.kind;
  operation = e.operation;
  protocol_stage = e.protocol_stage;
  retry_advice = e.retry_advice;
  os_code = e.os_code;
  commit_seq = e.commit_seq;
  vlog_file_id = e.vlog_file_id;
  vlog_offset = e.vlog_offset;
}

-- The derived `==` of `InstanceState`.
unfoldable pub same_state : InstanceState → InstanceState → Bool
same_state healthy healthy = true
same_state write_stopped write_stopped = true
same_state poisoned poisoned = true
same_state _ _ = false

unfoldable pub update_runtime_state :
    DbStats → InstanceState → ℕ → Option LatchedErrorSummary → DbStats
unfolding same_state
update_runtime_state s state epoch latched =
    if ltb s.state_epoch epoch || epoch == s.state_epoch && same_state state s.instance_state
    then record s { instance_state = state; state_epoch = epoch; first_latched_error = latched }
    else s

unfoldable pub position_of : ℕ × ℕ → VLogPosition
position_of (file_id, offset) = record { file_id = file_id; offset = offset }

unfoldable pub update_commit_state :
    DbStats → ℕ → ℕ → Option (ℕ × ℕ) → Option ℕ → ℕ → ℕ → DbStats × Bool
unfolding position_of
update_commit_state s head durable end active count bytes =
    if ltb head durable then (s, false) else (
      record s {
        head_seq = head;
        durable_seq = durable;
        durability_lag = head - durable;
        durable_vlog_end = Option.map position_of end;
        active_vlog_file_id = active;
        vlog_file_count = count;
        vlog_logical_bytes = bytes;
      },
      true,
    )
