-- ===== src/Index/Batches.antt =====
-- What the batches' checks promise.
pub mod Ordinary
use expirkv.Prelude.{
  ℕ, ◌+◌, ◌^◌, ◌<◌, ◌≡◌, ◌≢◌, ◌⊎◌, inl, inr, refl, sym, ap, if◌then◌else◌, ◌∙◌, Bool, true, false,
  not, ◌||◌, ◌&&◌, ◌==◌, some, none, List, [], ◌∷◌, ◌++◌, length, Bytes, sub_slice, bytes_eq,
  bytes_eq_refl, to_le_32, to_le_64, from_le_32, from_le_32-to_le, arith, ==_refl,
}
use expirkv.Error.{ok, Result}
use expirkv.Uuid
use expirkv.Uuid.{Uuid, uuid}
use expirkv.Crc.{Crc, IsCrc}
use expirkv.Commit.Errors.{read_u16_le, read_u32_le}
use expirkv.Commit.TxMeta.{read_uuid}
use expirkv.Commit.Keys.{differs, encode_head_seq}
use expirkv.Commit.Identity
use expirkv.Commit.Identity.{DatabaseIdentity}
use expirkv.Commit.Frontier
use expirkv.Commit.Frontier.{DurableFrontier, empty}
use expirkv.Index.{
  InternalIndexError, invalid_batch, resource_error, frontier_magic, IndexMutation,
  IndexAtomicBatch, IndexCommitMode, buffer, sync_all, applied, commit_failed, index_ok, index_err,
  InternalIndexResult, invalid_commit_batch, try_push, new, validate_ordinary_mutation, is_refused,
  is_initialization_triple, is_valid_initial_database_identity, is_encoded_head_seq_zero,
  is_encoded_empty_durable_frontier, has_valid_trailing_crc, zeros, differs_from_zeros, crc_matches,
  initialize_database_identity, put_user, delete_user, put_internal, delete_internal, system,
  head_seq_key, durable_frontier_key,
}
use expirkv.Index.Initialization.{
  count_initializations, validate_mutations, validate_for_commit, initialize_database,
  initial_identity, initial_frontier, identity_covered, initialization_batch, decode_identity,
  DatabaseIdentityV0,
}

-- Behind a test that refuses, a result that was not refused.
passed-ok :
    (bad : Bool) (e : InternalIndexError) (rest : InternalIndexResult IndexAtomicBatch)
    (batch : IndexAtomicBatch)
    → (if bad then index_err e else rest) ≡ index_ok batch
    → (bad ≡ false) × (rest ≡ index_ok batch)
passed-ok bad e rest batch h = ground arith

index_ok_injective : (a b : IndexAtomicBatch) → index_ok a ≡ index_ok b → a ≡ b
index_ok_injective a b h = cc

current_of : (version : ℕ) (nil : Bool) → (not (version == 0) || nil) ≡ false → version ≡ 0
current_of version nil h = ground arith

live_of : (version : ℕ) (nil : Bool) → (not (version == 0) || nil) ≡ false → nil ≡ false
live_of version nil h = ground arith

initialization_batch-ok :
    (reserves : ℕ → Bool) (crc : Crc) (version : ℕ) (id : Uuid) (batch : IndexAtomicBatch)
    → initialization_batch reserves crc version id ≡ index_ok batch
    → (version ≡ 0)
      × (Uuid.is_zero id ≡ false)
      × (initialize_database reserves crc
            (initial_identity crc version id)
            (zeros 8)
            (initial_frontier crc)
          ≡ index_ok batch)
unfolding initialization_batch
initialization_batch-ok reserves crc version id batch made =
    let (accepted, later) = passed-ok _ _ _ batch made in
    let (room, last) = passed-ok _ _ _ batch later in
    (
      current_of version (Uuid.is_zero id) accepted,
      live_of version (Uuid.is_zero id) accepted,
      last,
    )

initialize_database-ok :
    (reserves : ℕ → Bool) (crc : Crc) (identity head frontier : Bytes) (batch : IndexAtomicBatch)
    → initialize_database reserves crc identity head frontier ≡ index_ok batch
    → batch.operations
      ≡ initialize_database_identity identity
        ∷ put_internal system head_seq_key head
        ∷ put_internal system durable_frontier_key frontier
        ∷ []
unfolding initialize_database
initialize_database-ok reserves crc identity head frontier batch made =
    let (valid, later) =
      passed-ok
        (not (is_valid_initial_database_identity crc identity)
          || not (is_encoded_head_seq_zero head)
          || not (is_encoded_empty_durable_frontier crc frontier))
        invalid_batch _ batch made in
    let (room, last) =
      passed-ok
        (not (reserves 3)
          || not (reserves (length head_seq_key))
          || not (reserves (length durable_frontier_key)))
        resource_error _ batch later in
    ap (λ (b : IndexAtomicBatch). b.operations) (sym (index_ok_injective _ _ last))

-- The identity of a new database.
unfoldable pub first_identity : Uuid → DatabaseIdentity
first_identity id = record {
  identity_version = 0;
  database_version = 0;
  database_uuid = id;
  keyspace_version = 0;
}

module _ (crc : Crc) (laws : IsCrc crc) where
  checksum_valid :
      (encoded covered : Bytes) (offset : ℕ)
      → sub_slice encoded 0 offset ≡ some covered
      → sub_slice encoded offset (offset + 4) ≡ some (to_le_32 (crc.crc32c covered))
      → has_valid_trailing_crc crc encoded offset ≡ true
  unfolding has_valid_trailing_crc crc_matches
  checksum_valid encoded covered offset front back =
      rw (front, back, from_le_32-to_le (crc.crc32c covered) (laws.crc32c-lt covered), ==_refl) refl

  identity_checksum : (id : Uuid) → has_valid_trailing_crc crc (initial_identity crc 0 id) 28 ≡ true
  unfolding initial_identity identity_covered Uuid.to_bytes sub_slice to_le_32 zeros
  identity_checksum (uuid a b c d e f g h i j k l m n o p) =
      let id = uuid a b c d e f g h i j k l m n o p in
      checksum_valid (initial_identity crc 0 id) (identity_covered 0 id) 28 refl refl

  identity_valid :
      (id : Uuid)
      → Uuid.is_zero id ≡ false
      → is_valid_initial_database_identity crc (initial_identity crc 0 id) ≡ true
  unfolding is_valid_initial_database_identity initial_identity identity_covered sub_slice to_le_32
      bytes_eq zeros differs_from_zeros differs Uuid.is_zero Uuid.to_bytes
  identity_valid (uuid a b c d e f g h i j k l m n o p) live =
      rw (identity_checksum (uuid a b c d e f g h i j k l m n o p)) (ground arith)

  frontier_valid : is_encoded_empty_durable_frontier crc (initial_frontier crc) ≡ true
  unfolding is_encoded_empty_durable_frontier initial_frontier sub_slice to_le_32 bytes_eq zeros
      differs
  frontier_valid =
      rw (checksum_valid (initial_frontier crc) (frontier_magic ++ zeros 31) 35 refl refl) refl

  head_valid : is_encoded_head_seq_zero (zeros 8) ≡ true
  unfolding is_encoded_head_seq_zero zeros bytes_eq
  head_valid = refl

  identity-encode :
      (id : Uuid)
      → Uuid.is_zero id ≡ false
      → Identity.encode crc (first_identity id) ≡ ok (initial_identity crc 0 id)
  unfolding Identity.encode Identity.layout Identity.covered initial_identity identity_covered
      first_identity zeros
  identity-encode id live = rw live refl

  frontier-encode :
      Frontier.encode crc
        (record { durable_seq = 0; durable_vlog_seq = 0; durable_vlog_end = empty })
      ≡ ok (initial_frontier crc)
  unfolding Frontier.encode Frontier.layout Frontier.covered Frontier.validate Frontier.check_end
      Frontier.write_durable_end initial_frontier zeros to_le_64
  frontier-encode = refl

  module _ (reserves : ℕ → Bool) (version : ℕ) (id : Uuid) (batch : IndexAtomicBatch)
      (made : initialization_batch reserves crc version id ≡ index_ok batch) where
    initial_rows :
        (version ≡ 0)
        × (Uuid.is_zero id ≡ false)
        × (batch.operations
            ≡ initialize_database_identity (initial_identity crc 0 id)
              ∷ put_internal system head_seq_key (zeros 8)
              ∷ put_internal system durable_frontier_key (initial_frontier crc)
              ∷ [])
    initial_rows =
        let (current, live, rest) = initialization_batch-ok reserves crc version id batch made in
        (current, live, initialize_database-ok reserves crc _ _ _ batch (rw current at rest))

    -- The first batch of a database: it needs database format version 0 and a database id that is
    -- not zero, and its three rows are the encoded identity, the head at 0 and the encoded frontier of
    -- an empty Value Log, so what it spells out byte by byte is what the codecs of the system rows
    -- write.
    pub initialization_batch-encode :
        (version ≡ 0)
        × (identity : Bytes) × (frontier : Bytes) × (Identity.encode crc (first_identity id)
            ≡ ok identity)
        × (Frontier.encode crc
              (record { durable_seq = 0; durable_vlog_seq = 0; durable_vlog_end = empty })
            ≡ ok frontier)
        × (batch.operations
            ≡ initialize_database_identity identity
              ∷ put_internal system head_seq_key (encode_head_seq 0)
              ∷ put_internal system durable_frontier_key frontier
              ∷ [])
    unfolding encode_head_seq zeros to_le_64
    initialization_batch-encode =
        let (current, live, rows) = initial_rows in
        (
          current,
          initial_identity crc 0 id,
          initial_frontier crc,
          identity-encode id live,
          frontier-encode,
          rows,
        )

    -- Such a batch passes the preflight of a synced commit and is refused in the buffered mode.
    pub initialization_batch-modes :
        (validate_for_commit crc batch sync_all ≡ applied)
        × (validate_for_commit crc batch buffer ≡ commit_failed invalid_commit_batch)
    unfolding validate_for_commit count_initializations is_initialization_triple
    initialization_batch-modes =
        let (current, live, rows) = initial_rows in
        rw rows (rw (identity_valid id live, frontier_valid) (refl, refl))
