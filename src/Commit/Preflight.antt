-- ===== src/Commit/Preflight.antt =====
-- src/commit/protocol.rs: the validation of a write before it is planned, and the numbering of its
-- distinct keys. `reserves n` says whether the allocator grants room for `n` bytes or entries; a
-- length is a `usize`, whose checked sums fail from 2 ^ 64. The sites at which the tests inject
-- allocation failures are left out.
pub mod Ordinals
pub mod Accepts
use expirkv.Prelude.{
  ℕ, ◌+◌, ◌*◌, ◌^◌, Bool, true, false, not, ◌||◌, Option, none, some, List, [], ◌∷◌, ◌++◌, ltb,
  ◌==◌, if◌then◌else◌, length, Bytes, bytes_eq,
}
use expirkv.Error
use expirkv.Error.{
  StorageError, Operation, op_put, op_delete, op_write_batch, invalid_argument, capacity_exceeded,
  resource_exhausted, fix_request_and_retry_same_instance, retry_same_instance, do_not_retry,
  Result, ok, err, ◌>>=◌, ◌>>◌, reject_if,
}
use expirkv.Batch
use expirkv.Batch.{BatchOperation, WriteBatch}
use expirkv.Vlog.Pointer.{min_kv_record_len, max_kv_record_len}
use expirkv.Commit.TxMeta.{TransactionKind, vlog_envelope, index_only_delete}

abbrev pub max_key_value_size : ℕ
max_key_value_size = 60000

abbrev pub min_delete_record_len : ℕ
min_delete_record_len = 54

abbrev pub envelope_boundary_record_count : ℕ
envelope_boundary_record_count = 2

abbrev pub index_fixed_mutation_count : ℕ
index_fixed_mutation_count = 2

pub data NormalizedOperation : Type 0 where
  put : (key value : Bytes) → NormalizedOperation
  delete : (key : Bytes) → NormalizedOperation

pub record NormalizedWrite : Type 0 where
  pub operations : List NormalizedOperation
  pub sync : Bool

pub record ValidatedWrite : Type 0 where
  pub normalized : NormalizedWrite
  pub distinct_keys : List Bytes
  pub operation_ordinals : List ℕ
  pub public_operation : Operation

-- The key of an operation, as the loops match it out.
unfoldable pub operation_key : NormalizedOperation → Bytes
operation_key (put key value) = key
operation_key (delete key) = key

unfoldable pub logical_op_count : ValidatedWrite → ℕ
logical_op_count w = length w.normalized.operations

unfoldable pub distinct_key_count : ValidatedWrite → ℕ
distinct_key_count w = length w.distinct_keys

unfoldable pub any_put : List NormalizedOperation → Bool
any_put [] = false
any_put (put key value ∷ ops) = true
any_put (delete key ∷ ops) = any_put ops

unfoldable pub transaction_kind : ValidatedWrite → TransactionKind
unfolding any_put
transaction_kind w = if any_put w.normalized.operations then vlog_envelope else index_only_delete

unfoldable pub invalid_argument_error : Operation → StorageError
invalid_argument_error op =
    Error.write_preflight invalid_argument op fix_request_and_retry_same_instance

unfoldable pub capacity_error : Operation → StorageError
capacity_error op = Error.write_preflight capacity_exceeded op fix_request_and_retry_same_instance

unfoldable pub permanent_capacity_error : Operation → StorageError
permanent_capacity_error op = Error.write_preflight capacity_exceeded op do_not_retry

unfoldable pub resource_error : Operation → StorageError
resource_error op = Error.write_preflight resource_exhausted op retry_same_instance

unfoldable pub validate_key : Bytes → Operation → Result (Unit {0})
validate_key key op = do
  reject_if (length key == 0 || ltb max_key_value_size (length key)) (invalid_argument_error op)
  reject_if (not (ltb (length key) (2 ^ 16))) (capacity_error op)

unfoldable pub validate_put : Bytes → Bytes → Operation → Result (Unit {0})
unfolding validate_key
validate_put key value op = do
  validate_key key op
  reject_if (not (ltb (length value) (2 ^ 16))) (capacity_error op)
  reject_if (not (ltb (length key + length value) (2 ^ 64))) (capacity_error op)
  reject_if (ltb max_key_value_size (length key + length value)) (invalid_argument_error op)

unfoldable pub validate_operation_count : ℕ → ℕ → Operation → Result (Unit {0})
validate_operation_count count most op = do
  reject_if (not (ltb (count + envelope_boundary_record_count) (2 ^ 64))) (capacity_error op)
  reject_if (ltb most count || not (ltb count (2 ^ 32)) || not (ltb count (2 ^ 64)))
      (capacity_error op)

-- `MIN_KV_RECORD_LEN - 1` is 55.
unfoldable pub validate_put_encoding : Bytes → Bytes → Operation → Result (Unit {0})
unfolding validate_put
validate_put_encoding key value op = do
  validate_put key value op
  reject_if (not (ltb (length key + length value) (2 ^ 64))) (capacity_error op)
  reject_if
      (not (ltb (55 + (length key + length value)) (2 ^ 64))
        || not (ltb (55 + (length key + length value)) (2 ^ 32)))
      (capacity_error op)
  reject_if (ltb max_kv_record_len (55 + (length key + length value))) (invalid_argument_error op)

-- `MIN_DELETE_RECORD_LEN - 1` is 53.
unfoldable pub validate_delete_encoding : Bytes → Operation → Result (Unit {0})
unfolding validate_key
validate_delete_encoding key op = do
  validate_key key op
  reject_if (not (ltb (53 + length key) (2 ^ 64)) || not (ltb (53 + length key) (2 ^ 32)))
      (capacity_error op)

-- One operation's encoding, and the loop over them.
unfoldable pub validate_encoding : NormalizedOperation → Operation → Result (Unit {0})
unfolding validate_put_encoding validate_delete_encoding
validate_encoding (put key value) op = validate_put_encoding key value op
validate_encoding (delete key) op = validate_delete_encoding key op

unfoldable pub validate_encodings : List NormalizedOperation → Operation → Result (Unit {0})
unfolding validate_encoding
validate_encodings [] op = ok tt
validate_encodings (o ∷ ops) op = validate_encoding o op >> validate_encodings ops op

-- `try_vec_with_capacity`, `try_reserve` of the map and `try_clone_bytes`.
unfoldable pub try_reserve : (ℕ → Bool) → ℕ → Operation → Result (Unit {0})
try_reserve reserves n op = reject_if (not (reserves n)) (resource_error op)

-- `HashMap::get` on the ordinals, which holds one entry for a key.
unfoldable pub get_ordinal : List (Bytes × ℕ) → Bytes → Option ℕ
unfolding bytes_eq
get_ordinal [] key = none
get_ordinal ((k, ordinal) ∷ ordinals) key =
    let rest = get_ordinal ordinals key in if bytes_eq k key then some ordinal else rest

-- What the numbering loop holds.
pub record Numbering : Type 0 where
  pub distinct_keys : List Bytes
  pub operation_ordinals : List ℕ
  pub ordinals : List (Bytes × ℕ)

-- The loop's body for an operation with this key.
unfoldable pub number_key : Operation → Numbering → Bytes → Result Numbering
unfolding get_ordinal
number_key op s key = elim (get_ordinal s.ordinals key) [
  | some ordinal ↦ ok (record s { operation_ordinals = s.operation_ordinals ++ (ordinal ∷ []) })
  | none ↦
      reject_if (not (ltb (length s.distinct_keys) (2 ^ 64))) (capacity_error op)
      >> ok (record {
        distinct_keys = s.distinct_keys ++ (key ∷ []);
        operation_ordinals = s.operation_ordinals ++ (length s.distinct_keys ∷ []);
        ordinals = (key, length s.distinct_keys) ∷ s.ordinals;
      })
]

unfoldable pub number_keys : Operation → Numbering → List NormalizedOperation → Result Numbering
unfolding operation_key
number_keys op s [] = ok s
number_keys op s (o ∷ ops) = do next ← number_key op s (operation_key o); number_keys op next ops

unfoldable pub validate_normalized :
    (ℕ → Bool) → NormalizedWrite → Operation → ℕ → Result ValidatedWrite
validate_normalized reserves normalized op most = do
  reject_if (length normalized.operations == 0) (invalid_argument_error op)
  validate_operation_count (length normalized.operations) most op
  validate_encodings normalized.operations op
  try_reserve reserves (length normalized.operations) op
  try_reserve reserves (length normalized.operations) op
  try_reserve reserves (length normalized.operations) op
  numbered ←
      number_keys op (record { distinct_keys = []; operation_ordinals = []; ordinals = [] })
        normalized.operations
  reject_if (not (ltb (length numbered.distinct_keys) (2 ^ 64))) (capacity_error op)
  reject_if
      (not (ltb (length numbered.distinct_keys * 2) (2 ^ 64))
        || not (ltb (length numbered.distinct_keys * 2 + index_fixed_mutation_count) (2 ^ 64)))
      (capacity_error op)
  ok (record {
    normalized = normalized;
    distinct_keys = numbered.distinct_keys;
    operation_ordinals = numbered.operation_ordinals;
    public_operation = op;
  })

-- `u32::MAX as usize`.
abbrev pub u32_max : ℕ
u32_max = 4_294_967_295

unfoldable pub preflight_put : (ℕ → Bool) → Bytes → Bytes → Bool → Result ValidatedWrite
unfolding validate_put try_reserve
preflight_put reserves key value sync = do
  validate_put key value op_put
  try_reserve reserves 1 op_put
  validate_normalized reserves (record { operations = put key value ∷ []; sync = sync }) op_put
      u32_max

unfoldable pub preflight_delete : (ℕ → Bool) → Bytes → Bool → Result ValidatedWrite
unfolding validate_key try_reserve
preflight_delete reserves key sync = do
  validate_key key op_delete
  try_reserve reserves 1 op_delete
  validate_normalized reserves (record { operations = delete key ∷ []; sync = sync }) op_delete
      u32_max

unfoldable pub normalize : List BatchOperation → List NormalizedOperation
normalize [] = []
normalize (Batch.put_op key value ∷ ops) = put key value ∷ normalize ops
normalize (Batch.delete_op key ∷ ops) = delete key ∷ normalize ops

-- The first loop validates the batch's own operations, which are those of `normalize`.
unfoldable pub preflight_batch_with_operation_limit :
    (ℕ → Bool) → WriteBatch → Bool → ℕ → Result ValidatedWrite
unfolding normalize
preflight_batch_with_operation_limit reserves batch sync most = do
  validate_operation_count (Batch.len batch) most op_write_batch
  validate_encodings (normalize batch.operations) op_write_batch
  try_reserve reserves (Batch.len batch) op_write_batch
  validate_normalized reserves (record { operations = normalize batch.operations; sync = sync })
      op_write_batch most

unfoldable pub preflight_batch : (ℕ → Bool) → WriteBatch → Bool → Result ValidatedWrite
unfolding preflight_batch_with_operation_limit
preflight_batch reserves batch sync =
    preflight_batch_with_operation_limit reserves batch sync u32_max
