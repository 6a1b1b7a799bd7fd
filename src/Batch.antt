-- ===== src/Batch.antt =====
-- src/batch.rs: write batches. `try_reserve` of the allocator is a parameter: `reserves n` says whether
-- the allocation of `n` more bytes or operations succeeds. A length is a `usize`, whose `checked_add`
-- fails from 2 ^ 64.
pub mod Accepts
use expirkv.Prelude.{
  ℕ, ◌+◌, ◌^◌, Bool, true, false, not, ◌||◌, ltb, ◌==◌, if◌then◌else◌, List, [], ◌∷◌, ◌++◌, length,
  Bytes,
}
use expirkv.Error
use expirkv.Error.{
  StorageError, invalid_argument, capacity_exceeded, resource_exhausted,
  fix_request_and_retry_same_instance, retry_same_instance, Result, ok, err, reject_if, ◌>>◌,
}

pub data BatchOperation : Type 0 where
  put_op : (key value : Bytes) → BatchOperation
  delete_op : (key : Bytes) → BatchOperation

pub record WriteBatch : Type 0 where
  pub operations : List BatchOperation

abbrev pub max_key_value_size : ℕ
max_key_value_size = 60000

unfoldable pub new : WriteBatch
new = record { operations = [] }

unfoldable pub invalid_argument_error : StorageError
invalid_argument_error = Error.invalid_batch invalid_argument fix_request_and_retry_same_instance

unfoldable pub capacity_error : StorageError
capacity_error = Error.invalid_batch capacity_exceeded fix_request_and_retry_same_instance

unfoldable pub resource_error : StorageError
resource_error = Error.invalid_batch resource_exhausted retry_same_instance

unfoldable pub validate_key : Bytes → Result (Unit {0})
validate_key key =
    reject_if (length key == 0 || ltb max_key_value_size (length key)) invalid_argument_error
    >> reject_if (not (ltb (length key) (2 ^ 16))) capacity_error

unfoldable pub validate_key_value : Bytes → Bytes → Result (Unit {0})
unfolding validate_key
validate_key_value key value =
    validate_key key
    >> reject_if (not (ltb (length value) (2 ^ 16))) capacity_error
    >> reject_if (not (ltb (length key + length value) (2 ^ 64))) capacity_error
    >> reject_if (ltb max_key_value_size (length key + length value)) invalid_argument_error

unfoldable pub validate_next_operation_count : ℕ → Result (Unit {0})
validate_next_operation_count current =
    reject_if (not (ltb (current + 1) (2 ^ 64))) capacity_error
    >> reject_if (not (ltb (current + 1) (2 ^ 32))) capacity_error

-- `try_clone_bytes`, `reserve_operation`: they fail as the allocator does.
unfoldable pub try_reserve : Bool → Result (Unit {0})
try_reserve fits = reject_if (not fits) resource_error

unfoldable pub put : (ℕ → Bool) → WriteBatch → Bytes → Bytes → WriteBatch × Result (Unit {0})
unfolding validate_key_value validate_next_operation_count try_reserve
put reserves b key value =
    let checked =
      validate_key_value key value
      >> validate_next_operation_count (length b.operations)
      >> try_reserve (reserves (length key))
      >> try_reserve (reserves (length value))
      >> try_reserve (reserves 1) in
    elim checked [
      | ok _ ↦ (record { operations = b.operations ++ (put_op key value ∷ []) }, ok tt)
      | err e ↦ (b, err e)
    ]

unfoldable pub delete : (ℕ → Bool) → WriteBatch → Bytes → WriteBatch × Result (Unit {0})
unfolding validate_key validate_next_operation_count try_reserve
delete reserves b key =
    let checked =
      validate_key key
      >> validate_next_operation_count (length b.operations)
      >> try_reserve (reserves (length key))
      >> try_reserve (reserves 1) in
    elim checked [
      | ok _ ↦ (record { operations = b.operations ++ (delete_op key ∷ []) }, ok tt)
      | err e ↦ (b, err e)
    ]

unfoldable pub clear : WriteBatch → WriteBatch
clear b = record { operations = [] }

unfoldable pub len : WriteBatch → ℕ
len b = length b.operations

unfoldable pub is_empty : WriteBatch → Bool
is_empty b = length b.operations == 0
