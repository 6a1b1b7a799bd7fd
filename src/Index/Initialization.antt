-- ===== src/Index/Initialization.antt =====
-- src/index/mod.rs: the batch that initialises a database, the identity row that it writes, and the
-- preflight of every commit.
use expirkv.Prelude.{
  ℕ, ◌+◌, Bool, true, false, not, ◌||◌, none, List, [], ◌∷◌, ◌++◌, ◌==◌, if◌then◌else◌, length,
  Bytes, sub_slice, bytes_eq, to_le_32,
}
use expirkv.Error.{
  StorageError, StorageErrorKind, RetryAdvice, invalid_layout, corruption, incompatible_format,
  do_not_retry, restore_or_repair, op_open, recovery, codec_error, Result, ok, ◌>>=◌, ◌>>◌, ok_or,
  reject_if,
}
use expirkv.Uuid
use expirkv.Uuid.{Uuid}
use expirkv.Crc.{Crc}
use expirkv.Commit.Errors.{read_u16_le, read_u32_le}
use expirkv.Commit.TxMeta.{read_uuid}
use expirkv.Commit.Keys.{differs}
use expirkv.Index.{
  IndexMutation, initialize_database_identity, put_user, delete_user, put_internal, delete_internal,
  IndexAtomicBatch, IndexCommitMode, buffer, sync_all, not_applied, IndexCommitResult, applied,
  commit_failed, InternalIndexResult, index_ok, index_err, invalid_batch, invalid_commit_batch,
  resource_error, validate_ordinary_mutation, system, zeros, is_valid_initial_database_identity,
  is_encoded_head_seq_zero, is_encoded_empty_durable_frontier, is_initialization_triple,
  has_valid_trailing_crc, identity_magic, frontier_magic, head_seq_key, durable_frontier_key,
}

unfoldable pub count_initializations : List IndexMutation → ℕ
count_initializations [] = 0
count_initializations (initialize_database_identity encoded ∷ ms) = 1 + count_initializations ms
count_initializations (put_user key pointer ∷ ms) = count_initializations ms
count_initializations (delete_user key ∷ ms) = count_initializations ms
count_initializations (put_internal space key value ∷ ms) = count_initializations ms
count_initializations (delete_internal space key ∷ ms) = count_initializations ms

unfoldable pub validate_mutations : List IndexMutation → IndexCommitResult
unfolding validate_ordinary_mutation
validate_mutations [] = applied
validate_mutations (m ∷ ms) =
    let rest = validate_mutations ms in
    elim (validate_ordinary_mutation m) [
      | index_ok _ ↦ rest
      | index_err e ↦ commit_failed (record { apply_state = not_applied; source = e })
    ]

abbrev pub is_sync_all : IndexCommitMode → Bool
is_sync_all buffer = false
is_sync_all sync_all = true

unfoldable pub validate_for_commit : Crc → IndexAtomicBatch → IndexCommitMode → IndexCommitResult
unfolding validate_mutations count_initializations is_initialization_triple invalid_commit_batch
validate_for_commit crc batch mode =
    if length batch.operations == 0
    then commit_failed invalid_commit_batch
    else if count_initializations batch.operations == 0
    then validate_mutations batch.operations
    else if not (count_initializations batch.operations == 1)
        || not (is_sync_all mode)
        || not (is_initialization_triple crc batch.operations)
    then commit_failed invalid_commit_batch
    else applied

-- `try_copy_static_key` and `try_copy_fixed` fail as the allocator does.
unfoldable pub initialize_database :
    (ℕ → Bool) → Crc → Bytes → Bytes → Bytes → InternalIndexResult IndexAtomicBatch
unfolding is_valid_initial_database_identity is_encoded_head_seq_zero
    is_encoded_empty_durable_frontier invalid_batch resource_error
initialize_database reserves crc identity head frontier =
    if not (is_valid_initial_database_identity crc identity)
      || not (is_encoded_head_seq_zero head)
      || not (is_encoded_empty_durable_frontier crc frontier)
    then index_err invalid_batch
    else if not (reserves 3)
        || not (reserves (length head_seq_key))
        || not (reserves (length durable_frontier_key))
    then index_err resource_error
    else index_ok (record {
      operations =
          initialize_database_identity identity
          ∷ put_internal system head_seq_key head
          ∷ put_internal system durable_frontier_key frontier
          ∷ [];
    })

-- The arrays that `initialization_batch` fills.
unfoldable pub identity_covered : ℕ → Uuid → Bytes
unfolding Uuid.to_bytes to_le_32 zeros
identity_covered version id =
    identity_magic ++ (zeros 2 ++ (to_le_32 version ++ (Uuid.to_bytes id ++ zeros 2)))

unfoldable pub initial_identity : Crc → ℕ → Uuid → Bytes
unfolding identity_covered to_le_32
initial_identity crc version id =
    identity_covered version id ++ to_le_32 (crc.crc32c (identity_covered version id))

unfoldable pub initial_frontier : Crc → Bytes
unfolding zeros to_le_32
initial_frontier crc =
    frontier_magic ++ (zeros 31 ++ to_le_32 (crc.crc32c (frontier_magic ++ zeros 31)))

unfoldable pub initialization_batch :
    (ℕ → Bool) → Crc → ℕ → Uuid → InternalIndexResult IndexAtomicBatch
unfolding Uuid.is_zero invalid_batch resource_error initial_identity initial_frontier
    initialize_database zeros
initialization_batch reserves crc version id =
    if not (version == 0) || Uuid.is_zero id
    then index_err invalid_batch
    else if not (reserves 32) || not (reserves 8) || not (reserves 39)
    then index_err resource_error
    else initialize_database reserves crc (initial_identity crc version id) (zeros 8)
        (initial_frontier crc)

unfoldable pub metadata_advice : StorageErrorKind → RetryAdvice
metadata_advice incompatible_format = do_not_retry
metadata_advice invalid_layout = restore_or_repair
metadata_advice corruption = restore_or_repair
metadata_advice _ = do_not_retry

unfoldable pub metadata_error : StorageErrorKind → StorageError
unfolding metadata_advice codec_error
metadata_error k = codec_error k op_open recovery none (metadata_advice k)

pub record DatabaseIdentityV0 : Type 0 where
  pub identity_format_version : ℕ
  pub database_format_version : ℕ
  pub database_uuid : Uuid
  pub keyspace_layout_version : ℕ

unfoldable pub decode_identity : Crc → Bytes → Result DatabaseIdentityV0
unfolding differs has_valid_trailing_crc metadata_error read_u16_le read_u32_le read_uuid
    Uuid.is_zero
decode_identity crc encoded = do
  reject_if
      (not (length encoded == 32)
        || differs (sub_slice encoded 0 4) identity_magic
        || not (has_valid_trailing_crc crc encoded 28))
      (metadata_error corruption)
  version ← ok_or (read_u16_le encoded 4) (metadata_error corruption)
  database ← ok_or (read_u32_le encoded 6) (metadata_error corruption)
  id ← ok_or (read_uuid encoded 10) (metadata_error corruption)
  keyspace ← ok_or (read_u16_le encoded 26) (metadata_error corruption)
  reject_if (not (version == 0) || not (keyspace == 0)) (metadata_error incompatible_format)
  reject_if (Uuid.is_zero id) (metadata_error corruption)
  ok (record {
    identity_format_version = version;
    database_format_version = database;
    database_uuid = id;
    keyspace_layout_version = keyspace;
  })

unfoldable pub validate_identity_against : DatabaseIdentityV0 → ℕ → Uuid → Result (Unit {0})
unfolding bytes_eq Uuid.to_bytes metadata_error
validate_identity_against i version id =
    reject_if
      (not (i.database_format_version == version)
        || not (bytes_eq (Uuid.to_bytes i.database_uuid) (Uuid.to_bytes id)))
      (metadata_error invalid_layout)
