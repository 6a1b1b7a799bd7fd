-- ===== src/Tests/Index.antt =====
-- The batches and ranges of the index, the envelope of a small transaction.
use expirkv.Prelude.{
  ℕ, ◌≡◌, ◌⊎◌, refl, true, false, not, [], ◌∷◌, Bytes, to_le_16, to_le_32, to_le_64, arith,
}
use expirkv.Error.{ok}
use expirkv.Uuid
use expirkv.Uuid.{Uuid, sample_uuid}
use expirkv.Crc.{sum_crc, sum_onto, sum_crc-IsCrc}
use expirkv.Commit.Identity
use expirkv.Commit.Frontier
use expirkv.Commit.Frontier.{empty}
use expirkv.Commit.Keys.{encode_head_seq}
use expirkv.Index
use expirkv.Index.{
  IndexMutation, initialize_database_identity, put_user, delete_user, put_internal,
  IndexAtomicBatch, InternalIndexResult, index_ok, index_err, system, head_seq_key,
  durable_frontier_key, zeros, differs_from_zeros, crc_matches, is_valid_initial_database_identity,
  is_encoded_head_seq_zero, is_encoded_empty_durable_frontier, has_valid_trailing_crc, is_refused,
  validate_ordinary_mutation, IndexCommitMode, buffer, sync_all, applied, commit_failed,
  invalid_commit_batch,
}
use expirkv.Index.Initialization.{
  initialization_batch, initialize_database, initial_identity, identity_covered, initial_frontier,
  validate_for_commit,
}
use expirkv.Index.Batches.{first_identity, initialization_batch-encode}
use expirkv.Index.Batches.Ordinary.{Pushed, starts, pushes, validate_for_commit-Pushed}
use expirkv.Index.Range.{contains, before, after, from_inclusive, contains-cut}
use expirkv.Tests.Samples.{gives_all}

abbrev cherry : Bytes
cherry = b'c' ∷ b'h' ∷ []

abbrev apple : Bytes
apple = b'a' ∷ b'p' ∷ b'p' ∷ []

contains-cut_example :
    ((contains (before cherry) apple ≡ true)
      ⊎ ((apple ≡ cherry) ⊎ (contains (after cherry) apple ≡ true)))
    × (contains (from_inclusive cherry) apple ≡ not (contains (before cherry) apple))
    × (contains (before cherry) cherry ≡ false)
    × (contains (after cherry) cherry ≡ false)
    × (contains (before cherry) apple ≡ true → contains (after cherry) apple ≡ false)
contains-cut_example = contains-cut cherry apple

abbrev first_batch : IndexAtomicBatch
first_batch = record {
  operations =
      initialize_database_identity (initial_identity sum_crc 0 sample_uuid)
      ∷ put_internal system head_seq_key (zeros 8)
      ∷ put_internal system durable_frontier_key (initial_frontier sum_crc)
      ∷ [];
}

first-made : initialization_batch gives_all sum_crc 0 sample_uuid ≡ index_ok first_batch
unfolding initialization_batch initialize_database initial_identity identity_covered
    initial_frontier zeros differs_from_zeros crc_matches is_valid_initial_database_identity
    is_encoded_head_seq_zero is_encoded_empty_durable_frontier has_valid_trailing_crc Uuid.is_zero
    sum_onto to_le_32 to_le_16 to_le_64
first-made = refl

initialization_batch-encode_example :
    (◌≡◌ {A = ℕ} 0 0)
    × (identity : Bytes) × (frontier : Bytes) × (Identity.encode sum_crc
          (first_identity sample_uuid)
        ≡ ok identity)
    × (Frontier.encode sum_crc
          (record { durable_seq = 0; durable_vlog_seq = 0; durable_vlog_end = empty })
        ≡ ok frontier)
    × (first_batch.operations
        ≡ initialize_database_identity identity
          ∷ put_internal system head_seq_key (encode_head_seq 0)
          ∷ put_internal system durable_frontier_key frontier
          ∷ [])
initialization_batch-encode_example =
    initialization_batch-encode sum_crc sum_crc-IsCrc gives_all 0 sample_uuid first_batch first-made

abbrev one_delete : IndexAtomicBatch
one_delete = record { operations = delete_user cherry ∷ [] }

one_delete-Pushed : Pushed one_delete
unfolding Index.try_with_capacity Index.try_push is_refused validate_ordinary_mutation
one_delete-Pushed =
    pushes {b = record { operations = [] }} gives_all (delete_user cherry) (starts gives_all 1 refl)
      refl

validate_for_commit-Pushed_example : validate_for_commit sum_crc one_delete buffer ≡ applied
validate_for_commit-Pushed_example =
    validate_for_commit-Pushed sum_crc one_delete buffer one_delete-Pushed (omega arith)
