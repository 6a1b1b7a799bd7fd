-- ===== src/Tests/Commit.antt =====
-- The commit protocol, from the preflight to the prepared commit, on a small write.
use expirkv.Prelude.{
  ◌+◌, ◌^◌, ◌≡◌, ◌≢◌, ◌<◌, refl, true, Option, none, some, List, [], ◌∷◌, length, map, Bytes, arith,
}
use expirkv.Error.{op_write_batch, Result, ok}
use expirkv.Uuid.{Uuid, sample_uuid}
use expirkv.Crc.{sum_crc}
use expirkv.Batch
use expirkv.Batch.{WriteBatch, put, delete}
use expirkv.Batch.Accepts.{starts, puts, deletes}
use expirkv.Vlog.Pointer
use expirkv.Vlog.Pointer.{ValuePointer}
use expirkv.Commit.Mutation.{ValueState, absent, present}
use expirkv.Commit.Preflight.{
  NormalizedOperation, NormalizedWrite, ValidatedWrite, normalize, validate_normalized,
  preflight_batch,
}
use expirkv.Commit.Preflight.{
  operation_key, validate_operation_count, validate_encodings, validate_encoding,
  validate_put_encoding, validate_delete_encoding, try_reserve, get_ordinal, number_key,
  number_keys, transaction_kind,
}
use expirkv.Prelude.{bytes_eq, to_be_64, to_le_64, to_le_16, to_le_32}
use expirkv.Index
use expirkv.Index.{is_database_identity_key, is_refused, validate_ordinary_mutation}
use expirkv.Uuid
use expirkv.Commit.TxMeta
use expirkv.Commit.Mutation.{
  invalid, validate_user_key, value_state_encoded_len, validate_value_state_key_len,
  encode_value_state, encode_tx_mutation,
}
use expirkv.Commit.Descriptor.{
  validate_transaction_mutations, is_seen, encode_each, crc_row, crc_start, crc_rows,
  descriptor_crc, encode_descriptor, any_present,
}
use expirkv.Commit.Keys.{
  meta_key_layout, mutation_key_layout, encode_tx_meta_key, encode_tx_mutation_key, encode_head_seq,
}
use expirkv.Commit.Plan.{descriptor_mutations, mutations_of}
use expirkv.Commit.Plan.Batch.{
  build_index_batch, from_index, push_plans, push_index, push_rows, user_mutation,
}
use expirkv.Commit.Prepare.Effect.{prepare_commit-replay}
use expirkv.Commit.Plan.Published.{build_index_batch-replay}
use expirkv.Index.{IndexCommitMode, applied, IndexAtomicBatch}
use expirkv.Index.Initialization.{validate_for_commit}
use expirkv.Index.Space.{UserSpace, apply_mutations}
use expirkv.Commit.Descriptor.{EncodedDescriptor}
use expirkv.Commit.Prepare.{before_state_of, descriptor_meta, version_four}
use expirkv.Commit.TxMeta.{
  encode_kind, pos_lt, pos_is_origin, kind_fits, validate_tx_meta, write_vlog_pos, encode_tx_meta,
}
use expirkv.Commit.TxMeta.{vlog_envelope, index_only_delete}
use expirkv.Commit.Plan.{
  KeyPlan, start_plans, set_after, pointer_at, state_from_pointer, after_state_of, plan_operations,
  pointers_fit, build_key_plans,
}
use expirkv.Commit.Plan.Replay.{replay, plan_keys, Shows, ShowsBefore}
use expirkv.Commit.Plan.Sequential.{build_key_plans-replay}
use expirkv.Commit.Keys.{next_commit_seq}
use expirkv.Commit.Plan.Applied.{row}
use expirkv.Commit.Prepare.{
  PreparedCommit, filled, read_before_states, allocate_tx_uuid, prepare_for_kind, prepare_batch,
  pointers_of, prepare_commit,
}
use expirkv.Commit.Preflight.Ordinals.{
  Names, keys_of, first_occurrences, validate_normalized-first_occurrences,
}
use expirkv.Commit.Preflight.Accepts.{preflight_batch-accepts}
use expirkv.Tests.Samples.{value_of, gives_all}

abbrev key : Bytes
key = b'k' ∷ []

abbrev other : Bytes
other = b'o' ∷ []

abbrev value : Bytes
value = b'v' ∷ b'w' ∷ []

-- `put k`, `delete o`, `delete k`.
abbrev batch : WriteBatch
batch = (delete gives_all (delete gives_all (put gives_all Batch.new key value).0 other).0 key).0

batch-length : length batch.operations ≢ 0
unfolding put delete Batch.new
batch-length = omega arith

preflight_batch-accepts_example :
    (w : ValidatedWrite) × (preflight_batch gives_all batch true ≡ ok w)
    × (w.normalized ≡ record { operations = normalize batch.operations; sync = true })
preflight_batch-accepts_example =
    preflight_batch-accepts gives_all (λ _. refl) batch
      (deletes gives_all key (deletes gives_all other (puts gives_all key value starts)))
      batch-length true

-- `delete k`, `delete o`, `put k vw`, as the preflight numbers it.
abbrev normalized : NormalizedWrite
normalized = record {
  operations =
      NormalizedOperation.delete key
      ∷ NormalizedOperation.delete other
      ∷ NormalizedOperation.put key value
      ∷ [];
  sync = true;
}

abbrev write : ValidatedWrite
write = record {
  normalized = normalized;
  distinct_keys = key ∷ other ∷ [];
  operation_ordinals = 0 ∷ 1 ∷ 0 ∷ [];
  public_operation = op_write_batch;
}

write-validated : validate_normalized gives_all normalized op_write_batch 100 ≡ ok write
unfolding validate_normalized validate_operation_count validate_encodings validate_encoding
    validate_put_encoding validate_delete_encoding number_keys number_key get_ordinal operation_key
    try_reserve bytes_eq
write-validated = refl

validate_normalized-first_occurrences_example :
    (write.normalized ≡ normalized)
    × (write.distinct_keys ≡ first_occurrences (keys_of normalized.operations))
    × Names write.distinct_keys write.operation_ordinals (keys_of normalized.operations)
validate_normalized-first_occurrences_example =
    validate_normalized-first_occurrences gives_all normalized op_write_batch 100 write
      write-validated

-- An index that holds nothing.
abbrev before : Bytes → ValueState
before x = absent

abbrev get_user : Bytes → Result (Option Bytes)
get_user x = ok (row (before x))

abbrev pointer : ValuePointer
pointer = record {
  format_version = 0;
  file_id = 0;
  record_offset = 200;
  record_len = 58;
  value_len = 2;
}

abbrev pointers : Option (List (Option ValuePointer))
pointers = some (none ∷ none ∷ some pointer ∷ [])

abbrev plans : List KeyPlan
plans =
    record { user_key = key; before_state = absent; after_state = present pointer }
    ∷ record { user_key = other; before_state = absent; after_state = absent }
    ∷ []

planned :
    build_key_plans gives_all write (map before write.distinct_keys) vlog_envelope pointers
    ≡ ok plans
unfolding build_key_plans pointers_fit try_reserve start_plans plan_operations set_after pointer_at
    state_from_pointer after_state_of
planned = refl

build_key_plans-replay_example :
    (plan_keys plans ≡ write.distinct_keys)
    × Shows plans (replay pointers 0 normalized.operations before)
    × ShowsBefore plans before
build_key_plans-replay_example =
    build_key_plans-replay gives_all normalized op_write_batch 100 write write-validated before
      vlog_envelope pointers plans planned

-- A write that only deletes `o`: it has no envelope.
abbrev deletion : NormalizedWrite
deletion = record { operations = NormalizedOperation.delete other ∷ []; sync = true }

abbrev delete_write : ValidatedWrite
delete_write = record {
  normalized = deletion;
  distinct_keys = other ∷ [];
  operation_ordinals = 0 ∷ [];
  public_operation = op_write_batch;
}

delete_write-validated : validate_normalized gives_all deletion op_write_batch 100 ≡ ok delete_write
unfolding validate_normalized validate_operation_count validate_encodings validate_encoding
    validate_delete_encoding number_keys number_key get_ordinal operation_key try_reserve
delete_write-validated = refl

prepared :
    (p : PreparedCommit) × (prepare_commit gives_all sum_crc get_user
        (filled sample_uuid)
        delete_write
        4
        none
      ≡ ok p)
unfolding row before_state_of prepare_commit next_commit_seq try_reserve read_before_states
    allocate_tx_uuid prepare_for_kind build_key_plans prepare_batch pointers_of transaction_kind
    pointers_fit start_plans plan_operations set_after after_state_of descriptor_mutations
    mutations_of descriptor_meta build_index_batch from_index push_plans push_index push_rows
    user_mutation validate_transaction_mutations is_seen encode_each crc_row crc_start crc_rows
    descriptor_crc encode_descriptor any_present invalid validate_user_key value_state_encoded_len
    validate_value_state_key_len encode_value_state encode_tx_mutation encode_kind pos_lt
    pos_is_origin kind_fits validate_tx_meta write_vlog_pos TxMeta.layout encode_tx_meta
    meta_key_layout mutation_key_layout encode_tx_meta_key encode_tx_mutation_key encode_head_seq
    Index.new Index.try_with_capacity is_database_identity_key is_refused validate_ordinary_mutation
    Index.try_push Index.len Uuid.is_zero version_four to_be_64 to_le_64 to_le_16 to_le_32 bytes_eq
prepared = value_of _ refl

prepare_commit-replay_example :
    (prepared.0.commit_seq ≡ 4 + 1)
    × (4 + 1 < 2 ^ 64)
    × ((mode : IndexCommitMode) → validate_for_commit sum_crc prepared.0.index_batch mode ≡ applied)
    × ((space : UserSpace)
        → ((x : Bytes) → space x ≡ row (before x))
        → (x : Bytes)
        → apply_mutations prepared.0.index_batch.operations space x
          ≡ row (replay (pointers_of prepared.0.envelope) 0 deletion.operations before x))
prepare_commit-replay_example =
    prepare_commit-replay gives_all sum_crc deletion op_write_batch 100 delete_write
      delete_write-validated get_user before (λ _. refl) (λ x p h. absurd (cc)) (filled sample_uuid)
      4 none prepared.0 prepared.1

-- The batch of the write above, around a descriptor of one row.
abbrev descriptor : EncodedDescriptor
descriptor = record {
  meta_key = b'M' ∷ [];
  meta_value = b'm' ∷ [];
  mutations = record { key = b'R' ∷ []; value = b'r' ∷ [] } ∷ [];
}

built :
    (batch : IndexAtomicBatch) × (build_index_batch gives_all plans descriptor 5 op_write_batch
      ≡ ok batch)
unfolding build_index_batch from_index push_plans push_index push_rows user_mutation try_reserve
    Index.new Index.try_with_capacity is_database_identity_key is_refused validate_ordinary_mutation
    Index.try_push Index.len bytes_eq encode_head_seq to_be_64 to_le_16 to_le_32 to_le_64
    Pointer.encode Pointer.validate_fields Pointer.bytes
built = value_of _ refl

-- The index before the batch.
abbrev space : UserSpace
space x = none

build_index_batch-replay_example :
    apply_mutations built.0.operations space key
    ≡ row (replay pointers 0 normalized.operations before key)
build_index_batch-replay_example =
    build_index_batch-replay gives_all normalized op_write_batch 100 write write-validated before
      vlog_envelope pointers plans planned descriptor 5 built.0 built.1 space
      (λ _. unfold row in refl) key
