-- ===== src/Commit/Plan/Batch.antt =====
-- src/commit/protocol.rs: `build_index_batch`, which turns the key plans and the encoded descriptor
-- into one batch of the index.
use expirkv.Prelude.{ℕ, ◌+◌, ◌*◌, ◌^◌, Bool, not, ◌||◌, List, [], ◌∷◌, ltb, length, Bytes}
use expirkv.Error
use expirkv.Error.{
  StorageError, StorageErrorKind, RetryAdvice, Operation, resource_exhausted,
  fix_request_and_retry_same_instance, retry_same_instance, Result, ok, err, ◌>>=◌, ◌>>◌, map_err,
  reject_if,
}
use expirkv.Vlog.Pointer
use expirkv.Commit.Keys.{encode_head_seq}
use expirkv.Commit.Mutation.{ValueState, absent, present}
use expirkv.Commit.Descriptor.{EncodedMutation, EncodedDescriptor}
use expirkv.Commit.Preflight.{capacity_error, try_reserve, index_fixed_mutation_count}
use expirkv.Commit.Plan.{KeyPlan, remap_preflight}
use expirkv.Index
use expirkv.Index.{
  IndexMutation, put_user, delete_user, put_internal, IndexAtomicBatch, InternalIndexResult,
  index_ok, index_err, InternalIndexError, transaction, system, head_seq_key,
}

unfoldable pub construction_advice : StorageErrorKind → RetryAdvice
construction_advice resource_exhausted = retry_same_instance
construction_advice _ = fix_request_and_retry_same_instance

unfoldable pub map_index_construction_error : InternalIndexError → Operation → StorageError
unfolding construction_advice
map_index_construction_error e op = Error.write_preflight e.kind op (construction_advice e.kind)

-- `map_err` on the index's results.
unfoldable pub from_index : {A : Type 0} → Operation → InternalIndexResult A → Result A
unfolding map_index_construction_error
from_index op (index_ok a) = ok a
from_index op (index_err e) = err (map_index_construction_error e op)

unfoldable pub push_index :
    (ℕ → Bool) → IndexAtomicBatch → IndexMutation → Operation → Result IndexAtomicBatch
unfolding from_index
push_index reserves batch m op = from_index op (Index.try_push reserves batch m)

-- The mutation of a key: its new pointer's bytes, or its removal.
unfoldable pub user_mutation : (ℕ → Bool) → Operation → Bytes → ValueState → Result IndexMutation
unfolding try_reserve remap_preflight
user_mutation reserves op key absent = ok (delete_user key)
user_mutation reserves op key (present pointer) = do
  encoded ← map_err (remap_preflight op) (Pointer.encode pointer)
  try_reserve reserves (length encoded) op
  ok (put_user key encoded)

unfoldable pub push_plans :
    (ℕ → Bool) → Operation → IndexAtomicBatch → List KeyPlan → Result IndexAtomicBatch
unfolding try_reserve user_mutation push_index
push_plans reserves op batch [] = ok batch
push_plans reserves op batch (plan ∷ plans) = do
  try_reserve reserves (length plan.user_key) op
  m ← user_mutation reserves op plan.user_key plan.after_state
  next ← push_index reserves batch m op
  push_plans reserves op next plans

unfoldable pub push_rows :
    (ℕ → Bool) → Operation → IndexAtomicBatch → List EncodedMutation → Result IndexAtomicBatch
unfolding try_reserve push_index
push_rows reserves op batch [] = ok batch
push_rows reserves op batch (row ∷ rows) = do
  try_reserve reserves (length row.key) op
  next ← push_index reserves batch (put_internal transaction row.key row.value) op
  push_rows reserves op next rows

unfoldable pub build_index_batch :
    (ℕ → Bool) → List KeyPlan → EncodedDescriptor → ℕ → Operation → Result IndexAtomicBatch
unfolding from_index push_plans push_index push_rows try_reserve
build_index_batch reserves plans descriptor commit_seq op = do
  reject_if
      (not (ltb (length plans * 2) (2 ^ 64))
        || not (ltb (length plans * 2 + index_fixed_mutation_count) (2 ^ 64)))
      (capacity_error op)
  start ←
      from_index op
        (Index.try_with_capacity reserves (length plans * 2 + index_fixed_mutation_count))
  users ← push_plans reserves op start plans
  try_reserve reserves (length descriptor.meta_key) op
  try_reserve reserves (length descriptor.meta_value) op
  meta ←
      push_index reserves users (put_internal transaction descriptor.meta_key descriptor.meta_value)
        op
  rows ← push_rows reserves op meta descriptor.mutations
  try_reserve reserves (length head_seq_key) op
  try_reserve reserves (length (encode_head_seq commit_seq)) op
  push_index reserves rows (put_internal system head_seq_key (encode_head_seq commit_seq)) op
