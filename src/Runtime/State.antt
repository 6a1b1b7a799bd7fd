-- ===== src/Runtime/State.antt =====
-- src/runtime/state.rs: the state word, which packs the instance state and its epoch into a `u64`, the
-- order of the states, and the state that an error calls for.
pub mod Word
use expirkv.Prelude.{
  ℕ, ◌+◌, ◌*◌, ◌/◌, ◌%◌, ◌^◌, Bool, true, false, Option, none, some, ◌||◌, ltb, ◌==◌, if◌then◌else◌,
}
use expirkv.Error.{
  InstanceState, healthy, write_stopped, poisoned, WriteOutcome, commit_unknown, not_committed,
  ProtocolStage, vlog_sync, StorageError, StorageErrorKind, corruption, invalid_layout,
  incompatible_format, storage_poisoned, unrecoverable, storage_write_stopped, admission, preflight,
}

pub record StateSnapshot : Type 0 where
  pub instance_state : InstanceState
  pub state_epoch : ℕ

unfoldable pub state_rank : InstanceState → ℕ
state_rank healthy = 0
state_rank write_stopped = 1
state_rank poisoned = 2

unfoldable pub is_upgrade : InstanceState → InstanceState → Bool
unfolding state_rank
is_upgrade current target = ltb (state_rank current) (state_rank target)

-- `(epoch << 2) | state`: the shift drops what leaves the `u64`, and the two low bits are free, so
-- that `|` adds the state.
unfoldable pub encode_state : StateSnapshot → ℕ
unfolding state_rank
encode_state s = s.state_epoch * 4 % 2 ^ 64 + state_rank s.instance_state

unfoldable pub decode_instance : ℕ → InstanceState
decode_instance bits = if bits == 0 then healthy else if bits == 1 then write_stopped else poisoned

-- `word & 3` and `word >> 2`.
unfoldable pub decode_state : ℕ → StateSnapshot
unfolding decode_instance
decode_state word = record { instance_state = decode_instance (word % 4); state_epoch = word / 4 }

unfoldable pub is_commit_unknown : Option WriteOutcome → Bool
is_commit_unknown (some commit_unknown) = true
is_commit_unknown _ = false

unfoldable pub is_vlog_sync : ProtocolStage → Bool
is_vlog_sync vlog_sync = true
is_vlog_sync _ = false

-- The kinds that `matches!` lists.
unfoldable pub poisons : StorageErrorKind → Bool
poisons corruption = true
poisons invalid_layout = true
poisons incompatible_format = true
poisons storage_poisoned = true
poisons unrecoverable = true
poisons _ = false

unfoldable pub stops_writes : StorageErrorKind → Bool
stops_writes storage_write_stopped = true
stops_writes _ = false

-- The state that an error requires by itself.
unfoldable pub required_by_error : StorageError → InstanceState
unfolding is_commit_unknown is_vlog_sync poisons stops_writes
required_by_error e =
    if is_commit_unknown e.write_outcome || is_vlog_sync e.protocol_stage || poisons e.kind
    then poisoned
    else if stops_writes e.kind
    then write_stopped
    else healthy

unfoldable pub required_failure_state : InstanceState → StorageError → InstanceState
unfolding required_by_error state_rank
required_failure_state target e =
    let required = required_by_error e in
    if ltb (state_rank target) (state_rank required) then required else target
