-- ===== src/Commit/Plan.antt =====
-- src/commit/protocol.rs: the state that each key of a write had and will have, and the index batch
-- that publishes the write. `reserves n` says whether the allocator grants room for `n` bytes or
-- entries; a copy of bytes is those bytes, once the allocation was granted.
pub mod Replay
pub mod Batch
pub mod Sequential
pub mod Applied
pub mod Published
use expirkv.Prelude.{
  ℕ, zero, suc, ◌+◌, ◌*◌, ◌^◌, ◌≡◌, Bool, true, false, not, ◌||◌, Option, none, some, List, [], ◌∷◌,
  ◌++◌, ltb, ◌==◌, if◌then◌else◌, length, get_elem?, Bytes, bytes_eq,
}
use expirkv.Error
use expirkv.Error.{
  StorageError, StorageErrorKind, RetryAdvice, InstanceState, Operation, healthy, write_stopped,
  poisoned, invalid_argument, not_found, busy, unsupported, resource_exhausted, capacity_exceeded,
  io, corruption, invalid_layout, incompatible_format, storage_write_stopped, storage_poisoned,
  unrecoverable, fix_request_and_retry_same_instance, retry_same_instance,
  fix_environment_and_reopen, reopen_and_verify, restore_or_repair, do_not_retry, Result, ok, err,
  ◌>>=◌, ◌>>◌, ok_or, map_err, reject_if,
}
use expirkv.Vlog.Pointer
use expirkv.Vlog.Pointer.{ValuePointer, ValuePointerLayout}
use expirkv.Commit.Keys.{encode_head_seq}
use expirkv.Commit.TxMeta.{TransactionKind, vlog_envelope, index_only_delete}
use expirkv.Commit.Mutation.{ValueState, absent, present, TxMutation}
use expirkv.Commit.Descriptor.{EncodedMutation, EncodedDescriptor}
use expirkv.Commit.Preflight.{
  NormalizedOperation, put, delete, ValidatedWrite, invalid_argument_error, capacity_error,
  try_reserve, index_fixed_mutation_count,
}
use expirkv.Index
use expirkv.Index.{
  IndexMutation, put_user, delete_user, put_internal, IndexAtomicBatch, InternalIndexResult,
  index_ok, index_err, InternalIndexError, transaction, system, head_seq_key,
}

pub record KeyPlan : Type 0 where
  pub user_key : Bytes
  pub before_state : ValueState
  pub after_state : ValueState

-- The first loop, over the keys and their states together.
unfoldable pub start_plans :
    (ℕ → Bool) → Operation → List Bytes → List ValueState → Result (List KeyPlan)
unfolding try_reserve
start_plans reserves op [] befores = ok []
start_plans reserves op (key ∷ keys) [] = ok []
start_plans reserves op (key ∷ keys) (before ∷ befores) = do
  try_reserve reserves (length key) op
  rest ← start_plans reserves op keys befores
  ok (record { user_key = key; before_state = before; after_state = before } ∷ rest)

-- `plans.get_mut(ordinal)` and the assignment of the state.
unfoldable pub set_after : List KeyPlan → ℕ → ValueState → Option (List KeyPlan)
set_after [] ordinal state = none
set_after (plan ∷ plans) zero state = some (record plan { after_state = state } ∷ plans)
set_after (plan ∷ plans) (suc ordinal) state = elim (set_after plans ordinal state) [
  | none ↦ none
  | some rest ↦ some (plan ∷ rest)
]

-- The pointer that the envelope gives the operation at this index, if any is there.
unfoldable pub pointer_at : Option (List (Option ValuePointer)) → ℕ → Option (Option ValuePointer)
pointer_at none index = none
pointer_at (some pointers) index = get_elem? pointers index

unfoldable pub state_from_pointer :
    Operation → NormalizedOperation → Option ValuePointer → Result ValueState
unfolding invalid_argument_error
state_from_pointer op (put key value) (some pointer) = ok (present pointer)
state_from_pointer op (put key value) none = err (invalid_argument_error op)
state_from_pointer op (delete key) none = ok absent
state_from_pointer op (delete key) (some pointer) = err (invalid_argument_error op)

unfoldable pub after_state_of :
    Operation
    → TransactionKind
    → Option (List (Option ValuePointer))
    → ℕ
    → NormalizedOperation
    → Result ValueState
unfolding pointer_at invalid_argument_error state_from_pointer
after_state_of op vlog_envelope pointers index o = do
  pointer ← ok_or (pointer_at pointers index) (invalid_argument_error op)
  state_from_pointer op o pointer
after_state_of op index_only_delete pointers index (delete key) = ok absent
after_state_of op index_only_delete pointers index (put key value) = err (invalid_argument_error op)

-- The second loop, over the operations and their ordinals together, from the given index.
unfoldable pub plan_operations :
    Operation
    → TransactionKind
    → Option (List (Option ValuePointer))
    → ℕ
    → List KeyPlan
    → List NormalizedOperation
    → List ℕ
    → Result (List KeyPlan)
unfolding set_after invalid_argument_error after_state_of
plan_operations op kind pointers index plans [] ordinals = ok plans
plan_operations op kind pointers index plans (o ∷ ops) [] = ok plans
plan_operations op kind pointers index plans (o ∷ ops) (ordinal ∷ ordinals) = do
  reject_if (not (ltb ordinal (length plans))) (invalid_argument_error op)
  state ← after_state_of op kind pointers index o
  next ← ok_or (set_after plans ordinal state) (invalid_argument_error op)
  plan_operations op kind pointers (index + 1) next ops ordinals

-- The arms of the `match` on the kind and the pointers.
unfoldable pub pointers_fit : TransactionKind → Option (List (Option ValuePointer)) → ℕ → Bool
pointers_fit vlog_envelope (some pointers) count = length pointers == count
pointers_fit vlog_envelope none count = false
pointers_fit index_only_delete none count = true
pointers_fit index_only_delete (some pointers) count = false

unfoldable pub build_key_plans :
    (ℕ → Bool)
    → ValidatedWrite
    → List ValueState
    → TransactionKind
    → Option (List (Option ValuePointer))
    → Result (List KeyPlan)
unfolding pointers_fit invalid_argument_error try_reserve
build_key_plans reserves w befores kind pointers = do
  reject_if
      (not (length befores == length w.distinct_keys)
        || not (length w.operation_ordinals == length w.normalized.operations))
      (invalid_argument_error w.public_operation)
  reject_if (not (pointers_fit kind pointers (length w.normalized.operations)))
      (invalid_argument_error w.public_operation)
  try_reserve reserves (length w.distinct_keys) w.public_operation
  plans ← start_plans reserves w.public_operation w.distinct_keys befores
  plan_operations w.public_operation kind pointers 0 plans w.normalized.operations
      w.operation_ordinals

-- `descriptor_mutations`: one for each plan.
unfoldable pub mutations_of : (ℕ → Bool) → Operation → List KeyPlan → Result (List TxMutation)
unfolding try_reserve
mutations_of reserves op [] = ok []
mutations_of reserves op (plan ∷ plans) = do
  try_reserve reserves (length plan.user_key) op
  rest ← mutations_of reserves op plans
  ok (
      record {
        user_key = plan.user_key;
        before_state = plan.before_state;
        after_state = plan.after_state;
      }
      ∷ rest)

unfoldable pub descriptor_mutations :
    (ℕ → Bool) → List KeyPlan → Operation → Result (List TxMutation)
unfolding try_reserve mutations_of
descriptor_mutations reserves plans op = do
  try_reserve reserves (length plans) op
  mutations_of reserves op plans

-- `remap_preflight`.
unfoldable pub remap_target : StorageError → InstanceState × RetryAdvice
remap_target e = elim e.kind [
  | resource_exhausted ↦ (healthy, retry_same_instance)
  | corruption ↦ (poisoned, restore_or_repair)
  | invalid_layout ↦ (poisoned, restore_or_repair)
  | incompatible_format ↦ (poisoned, do_not_retry)
  | capacity_exceeded ↦ elim e.retry_advice [
    | do_not_retry ↦ (healthy, do_not_retry)
    | _ ↦ (healthy, fix_request_and_retry_same_instance)
  ]
  | _ ↦ (healthy, fix_request_and_retry_same_instance)
]

unfoldable pub remap_preflight : Operation → StorageError → StorageError
unfolding remap_target Error.write_preflight_in_state
remap_preflight op e =
    record (Error.write_preflight_in_state e.kind op (remap_target e).0 (remap_target e).1) {
      os_code = e.os_code;
    }
