-- ===== src/Runtime/State/Word.antt =====
-- The state word keeps what is put into it, and latching only ever raises the state.
use expirkv.Prelude.{◌^◌, ◌≤◌, ◌<◌, ◌≡◌, some, ◌⊎◌, arith}
use expirkv.Error.{InstanceState, poisoned, StorageError, commit_unknown, vlog_sync}
use expirkv.Runtime.State.{
  StateSnapshot, state_rank, encode_state, decode_state, required_failure_state, required_by_error,
}

-- Every snapshot whose epoch fits the 62 bits left for it is read back as it was stored.
pub decode_state-encode_state :
    (s : StateSnapshot) → s.state_epoch < 2 ^ 62 → decode_state (encode_state s) ≡ s
unfolding decode_state encode_state
decode_state-encode_state s h = ground arith

-- The state that a failure requires is the higher of the two, by rank, of the state asked for and
-- of the one that the error calls for.
pub required_failure_state-max :
    (target : InstanceState) (e : StorageError)
    → (state_rank target ≤ state_rank (required_failure_state target e))
      × (state_rank (required_by_error e) ≤ state_rank (required_failure_state target e))
      × ((required_failure_state target e ≡ target)
          ⊎ (required_failure_state target e ≡ required_by_error e))
unfolding required_failure_state
required_failure_state-max target e = ground arith

-- An error that leaves a commit unknown, or that failed to sync the Value Log, always poisons.
pub required_failure_state-poisoned :
    (target : InstanceState) (e : StorageError)
    → (e.write_outcome ≡ some commit_unknown) ⊎ (e.protocol_stage ≡ vlog_sync)
    → required_failure_state target e ≡ poisoned
unfolding required_failure_state
required_failure_state-poisoned target e h = ground arith
