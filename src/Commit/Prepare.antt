-- ===== src/Commit/Prepare.antt =====
-- src/commit/protocol.rs: `prepare_commit`, which reads the states before, draws the transaction's
-- identifier, lays the envelope out and builds the index batch. The index is seen through `get_user`,
-- and the source of random bytes through what it gives: an identifier or an OS error. `reserves n`
-- says whether the allocator grants room for `n` bytes or entries, `crc` is the `crc32c` crate.
pub mod Effect
use expirkv.Prelude.{
  ℕ, ◌+◌, ◌%◌, ◌^◌, Bool, true, false, not, ◌||◌, Option, none, some, List, [], ◌∷◌, ltb, ◌==◌,
  if◌then◌else◌, length, Bytes,
}
use expirkv.Error
use expirkv.Error.{
  StorageError, StorageErrorKind, RetryAdvice, InstanceState, Operation, healthy, write_stopped,
  poisoned, invalid_argument, not_found, busy, unsupported, resource_exhausted, capacity_exceeded,
  io, corruption, invalid_layout, incompatible_format, storage_write_stopped, storage_poisoned,
  unrecoverable, retry_same_instance, fix_environment_and_reopen, reopen_and_verify,
  restore_or_repair, do_not_retry, Result, ok, err, ◌>>=◌, ◌>>◌, ok_or, map_err, reject_if,
}
use expirkv.Uuid
use expirkv.Uuid.{Uuid, uuid}
use expirkv.Crc.{Crc}
use expirkv.Vlog.Pointer
use expirkv.Vlog.Pointer.{ValuePointer, ValuePointerLayout}
use expirkv.Vlog.Geometry.{VLogPosition, VLogGeometry}
use expirkv.Vlog.Planner
use expirkv.Vlog.Planner.{LayoutPlanner}
use expirkv.Vlog.Envelope
use expirkv.Vlog.Envelope.{LogicalOperationRef, PreparedEnvelope}
use expirkv.Vlog.Envelope.Prepare.{prepare_envelope}
use expirkv.Commit.Position.{VLogPos}
use expirkv.Commit.Keys.{next_commit_seq}
use expirkv.Commit.TxMeta.{TransactionKind, vlog_envelope, index_only_delete, TxMeta}
use expirkv.Commit.Mutation.{ValueState, absent, present, TxMutation}
use expirkv.Commit.Descriptor.{TransactionDescriptor, EncodedDescriptor, encode_descriptor}
use expirkv.Commit.Preflight.{
  NormalizedOperation, put, delete, ValidatedWrite, transaction_kind, invalid_argument_error,
  permanent_capacity_error, try_reserve,
}
use expirkv.Commit.Plan.{KeyPlan, build_key_plans, descriptor_mutations, remap_preflight}
use expirkv.Commit.Plan.Batch.{build_index_batch}
use expirkv.Index.{IndexAtomicBatch}

pub record PreparedCommit : Type 0 where
  pub commit_seq : ℕ
  pub tx_uuid : Uuid
  pub transaction_kind : TransactionKind
  pub envelope : Option PreparedEnvelope
  pub index_batch : IndexAtomicBatch
  pub sync : Bool

-- What `fill_random_bytes` gives.
pub data RandomFill : Type 0 where
  filled : Uuid → RandomFill
  failed : Option ℕ → RandomFill

-- `(bytes[6] & 0x0f) | 0x40` and `(bytes[8] & 0x3f) | 0x80`.
unfoldable pub version_four : Uuid → Uuid
version_four (uuid a b c d e f g h i j k l m n o p) =
    uuid a b c d e f (g % 16 + 64) h (i % 64 + 128) j k l m n o p

unfoldable pub allocate_tx_uuid : RandomFill → Operation → Result Uuid
unfolding version_four Error.write_preflight
allocate_tx_uuid (filled id) op = ok (version_four id)
allocate_tx_uuid (failed code) op =
    err (record (Error.write_preflight io op retry_same_instance) { os_code = code })

unfoldable pub read_target : StorageErrorKind → InstanceState × RetryAdvice
read_target resource_exhausted = (healthy, retry_same_instance)
read_target busy = (healthy, retry_same_instance)
read_target storage_write_stopped = (write_stopped, fix_environment_and_reopen)
read_target io = (poisoned, reopen_and_verify)
read_target storage_poisoned = (poisoned, reopen_and_verify)
read_target corruption = (poisoned, restore_or_repair)
read_target invalid_layout = (poisoned, restore_or_repair)
read_target unrecoverable = (poisoned, restore_or_repair)
read_target incompatible_format = (poisoned, do_not_retry)
read_target invalid_argument = (poisoned, do_not_retry)
read_target not_found = (poisoned, do_not_retry)
read_target unsupported = (poisoned, do_not_retry)
read_target capacity_exceeded = (poisoned, do_not_retry)

unfoldable pub remap_index_read : Operation → StorageError → StorageError
unfolding read_target Error.write_preflight_in_state
remap_index_read op e =
    record (Error.write_preflight_in_state e.kind op (read_target e.kind).0
      (read_target e.kind).1) { os_code = e.os_code }

unfoldable pub stored_advice : StorageErrorKind → RetryAdvice
stored_advice incompatible_format = do_not_retry
stored_advice _ = restore_or_repair

unfoldable pub stored_pointer_error : StorageErrorKind → Operation → StorageError
unfolding stored_advice Error.write_preflight_in_state
stored_pointer_error k op = Error.write_preflight_in_state k op poisoned (stored_advice k)

unfoldable pub remap_stored_pointer : Operation → StorageError → StorageError
unfolding stored_pointer_error
remap_stored_pointer op e = record (stored_pointer_error e.kind op) { os_code = e.os_code }

unfoldable pub decode_before_state_pointer : Bytes → Bytes → Operation → Result ValueState
unfolding remap_stored_pointer stored_pointer_error
decode_before_state_pointer encoded key op = do
  pointer ← map_err (remap_stored_pointer op) (Pointer.decode encoded)
  layout ← map_err (remap_stored_pointer op) (Pointer.layout pointer)
  reject_if (not (layout.key_len == length key)) (stored_pointer_error corruption op)
  ok (present pointer)

unfoldable pub before_state_of : Operation → Bytes → Option Bytes → Result ValueState
unfolding decode_before_state_pointer
before_state_of op key none = ok absent
before_state_of op key (some encoded) = decode_before_state_pointer encoded key op

-- The loop over the distinct keys.
unfoldable pub read_before_states :
    (Bytes → Result (Option Bytes)) → Operation → List Bytes → Result (List ValueState)
unfolding remap_index_read before_state_of
read_before_states get_user op [] = ok []
read_before_states get_user op (key ∷ keys) = do
  found ← map_err (remap_index_read op) (get_user key)
  state ← before_state_of op key found
  rest ← read_before_states get_user op keys
  ok (state ∷ rest)

unfoldable pub logical_of : List NormalizedOperation → List LogicalOperationRef
logical_of [] = []
logical_of (put key value ∷ ops) = Envelope.put key value ∷ logical_of ops
logical_of (delete key ∷ ops) = Envelope.delete key ∷ logical_of ops

unfoldable pub logical_operations : (ℕ → Bool) → ValidatedWrite → Result (List LogicalOperationRef)
unfolding try_reserve logical_of
logical_operations reserves w = do
  try_reserve reserves (length w.normalized.operations) w.public_operation
  ok (logical_of w.normalized.operations)

-- The writer's identity, position and geometry, when a transaction has an envelope.
pub record VlogContext : Type 0 where
  pub database_uuid : Uuid
  pub append_cursor : VLogPosition
  pub geometry : VLogGeometry

-- The arms of the `match` on the kind of the transaction.
unfoldable pub prepare_for_kind :
    (ℕ → Bool)
    → Crc
    → ValidatedWrite
    → Option VlogContext
    → ℕ
    → Uuid
    → TransactionKind
    → Result (Option PreparedEnvelope)
unfolding invalid_argument_error Uuid.is_zero logical_operations Planner.from_position
    remap_preflight prepare_envelope
prepare_for_kind reserves crc w context seq id vlog_envelope = do
  c ← ok_or context (invalid_argument_error w.public_operation)
  reject_if (Uuid.is_zero c.database_uuid) (invalid_argument_error w.public_operation)
  ops ← logical_operations reserves w
  planner ←
      map_err (remap_preflight w.public_operation)
        (Planner.from_position c.geometry c.append_cursor)
  prepared ← map_err (remap_preflight w.public_operation) (
      prepare_envelope reserves crc planner
        (record { database_uuid = c.database_uuid; commit_seq = seq; tx_uuid = id }) ops)
  ok (some prepared.1)
prepare_for_kind reserves crc w none seq id index_only_delete = ok none
prepare_for_kind reserves crc w (some c) seq id index_only_delete =
    err (invalid_argument_error w.public_operation)

unfoldable pub to_descriptor_position : VLogPosition → VLogPos
to_descriptor_position p = record { file_id = p.file_id; offset = p.offset }

unfoldable pub pointers_of : Option PreparedEnvelope → Option (List (Option ValuePointer))
pointers_of none = none
pointers_of (some e) = some e.value_pointers

-- The head of the descriptor; without an envelope its positions and checksum are zero.
unfoldable pub descriptor_meta :
    ValidatedWrite → ℕ → ℕ → Uuid → TransactionKind → ℕ → Option PreparedEnvelope → TxMeta
unfolding to_descriptor_position
descriptor_meta w head seq id kind keys (some e) = record {
  transaction_kind = kind;
  commit_seq = seq;
  tx_uuid = id;
  prev_seq = head;
  vlog_begin = to_descriptor_position e.vlog_begin;
  vlog_end = to_descriptor_position e.vlog_end;
  logical_op_count = length w.normalized.operations;
  distinct_key_count = keys;
  envelope_crc32c = e.envelope_crc32c;
  descriptor_crc32c = 0;
}
descriptor_meta w head seq id kind keys none = record {
  transaction_kind = kind;
  commit_seq = seq;
  tx_uuid = id;
  prev_seq = head;
  vlog_begin = record { file_id = 0; offset = 0 };
  vlog_end = record { file_id = 0; offset = 0 };
  logical_op_count = length w.normalized.operations;
  distinct_key_count = keys;
  envelope_crc32c = 0;
  descriptor_crc32c = 0;
}

-- From the key plans on: the descriptor and the batch.
unfoldable pub prepare_batch :
    (ℕ → Bool)
    → Crc
    → ValidatedWrite
    → ℕ
    → ℕ
    → Uuid
    → Option PreparedEnvelope
    → List KeyPlan
    → Result IndexAtomicBatch
unfolding descriptor_mutations encode_descriptor build_index_batch descriptor_meta
prepare_batch reserves crc w head seq id envelope plans = do
  mutations ← descriptor_mutations reserves plans w.public_operation
  let meta : TxMeta = descriptor_meta w head seq id (transaction_kind w) (length plans) envelope
  encoded ←
      map_err (remap_preflight w.public_operation)
        (encode_descriptor reserves crc (record { meta = meta; mutations = mutations }))
  build_index_batch reserves plans encoded seq w.public_operation

-- The counts fit a `u64`, as they are lengths of lists in memory.
unfoldable pub prepare_commit :
    (ℕ → Bool)
    → Crc
    → (Bytes → Result (Option Bytes))
    → RandomFill
    → ValidatedWrite
    → ℕ
    → Option VlogContext
    → Result PreparedCommit
unfolding next_commit_seq permanent_capacity_error try_reserve read_before_states allocate_tx_uuid
    prepare_for_kind build_key_plans prepare_batch pointers_of transaction_kind
prepare_commit reserves crc get_user random w head context = do
  seq ← map_err (λ _. permanent_capacity_error w.public_operation) (next_commit_seq head)
  try_reserve reserves (length w.distinct_keys) w.public_operation
  befores ← read_before_states get_user w.public_operation w.distinct_keys
  id ← allocate_tx_uuid random w.public_operation
  envelope ← prepare_for_kind reserves crc w context seq id (transaction_kind w)
  plans ← build_key_plans reserves w befores (transaction_kind w) (pointers_of envelope)
  batch ← prepare_batch reserves crc w head seq id envelope plans
  ok (record {
    commit_seq = seq;
    tx_uuid = id;
    transaction_kind = transaction_kind w;
    envelope = envelope;
    index_batch = batch;
    sync = w.normalized.sync;
  })
