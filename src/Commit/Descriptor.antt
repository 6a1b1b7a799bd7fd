-- ===== src/Commit/Descriptor.antt =====
-- src/commit/descriptor.rs: `TransactionDescriptor`, the rows of a transaction, with the checksum over
-- all of them. `reserves n` says whether the allocator grants `n` bytes or entries, `crc` is the
-- `crc32c` crate.
pub mod Rows
pub mod RoundTrip
use expirkv.Prelude.{
  ℕ, ◌+◌, ◌-◌, ◌^◌, Bool, true, false, not, ◌&&◌, ◌||◌, Option, none, some, List, ◌++◌, [], ◌∷◌,
  ltb, leb, ◌==◌, if◌then◌else◌, length, take, Bytes, to_le_32, sub_slice, bytes_eq,
}
use expirkv.Error.{StorageError, Result, ok, err, ◌>>=◌, ◌>>◌, ok_or, map_err, reject_if}
use expirkv.Crc.{Crc}
use expirkv.Vlog.Pointer.{checked_below}
use expirkv.Commit.Errors.{
  encode_invalid, encode_capacity, encode_allocation, decode_corruption, decode_allocation,
}
use expirkv.Commit.Keys.{
  encode_tx_meta_key, decode_tx_meta_key, encode_tx_mutation_key, decode_tx_mutation_key,
}
use expirkv.Commit.TxMeta.{
  TxMeta, TransactionKind, vlog_envelope, index_only_delete, validate_tx_meta, encode_tx_meta,
  decode_tx_meta,
}
use expirkv.Commit.Mutation.{
  ValueState, absent, present, TxMutation, invalid, encode_tx_mutation, decode_tx_mutation,
}

abbrev pub descriptor_crc_magic : Bytes
descriptor_crc_magic = b'R' ∷ b'K' ∷ b'D' ∷ b'E' ∷ b'S' ∷ b'C' ∷ b'0' ∷ []

pub record TransactionDescriptor : Type 0 where
  pub meta : TxMeta
  pub mutations : List TxMutation

pub record EncodedMutation : Type 0 where
  pub key : Bytes
  pub value : Bytes

pub record EncodedDescriptor : Type 0 where
  pub meta_key : Bytes
  pub meta_value : Bytes
  pub mutations : List EncodedMutation

-- `any(|mutation| !matches!(mutation.after_state, Absent))`.
unfoldable pub any_present : List TxMutation → Bool
any_present [] = false
any_present (m ∷ ms) = elim m.after_state [ absent ↦ any_present ms | present _ ↦ true ]

unfoldable pub validate_transaction_mutations :
    Bool → TransactionKind → List TxMutation → Result (Unit {0})
unfolding invalid
validate_transaction_mutations encoding vlog_envelope ms = ok tt
validate_transaction_mutations encoding index_only_delete ms =
    reject_if (any_present ms) (invalid encoding)

-- The hash set of the keys seen, as the list of them.
unfoldable pub is_seen : Bytes → List Bytes → Bool
unfolding bytes_eq
is_seen key [] = false
is_seen key (k ∷ ks) = bytes_eq key k || is_seen key ks

-- The loop of `encode_descriptor`, from the given ordinal.
unfoldable pub encode_each :
    (ℕ → Bool) → ℕ → ℕ → List Bytes → List TxMutation → Result (List EncodedMutation)
unfolding is_seen
encode_each reserves seq ordinal seen [] = ok []
encode_each reserves seq ordinal seen (m ∷ ms) = do
  reject_if (is_seen m.user_key seen) encode_invalid
  key ← encode_tx_mutation_key seq ordinal
  value ← encode_tx_mutation reserves m
  rest ← encode_each reserves seq (ordinal + 1) (m.user_key ∷ seen) ms
  ok (record { key = key; value = value } ∷ rest)

-- One row under the checksum; a length that is no `u32` is refused.
unfoldable pub crc_row : StorageError → Crc → ℕ → Bytes → Bytes → Result ℕ
crc_row refused crc c key value = do
  len ← ok_or (checked_below (2 ^ 32) (length value)) refused
  ok (crc.crc32c_append (crc.crc32c_append (crc.crc32c_append c key) (to_le_32 len)) value)

unfoldable pub crc_start : Crc → Bytes → ℕ
crc_start crc covered = crc.crc32c_append (crc.crc32c descriptor_crc_magic) covered

unfoldable pub crc_rows : StorageError → Crc → ℕ → List EncodedMutation → Result ℕ
unfolding crc_row
crc_rows refused crc c [] = ok c
crc_rows refused crc c (m ∷ ms) = do
  next ← crc_row refused crc c m.key m.value
  crc_rows refused crc next ms

-- `&meta_value[0..83]` of an array of 87 bytes.
unfoldable pub descriptor_crc : Bool → Crc → Bytes → List EncodedMutation → Result ℕ
unfolding crc_start crc_rows
descriptor_crc encoding crc meta_value ms =
    crc_rows (if encoding then encode_capacity else decode_corruption) crc
      (crc_start crc (take 83 meta_value)) ms

unfoldable pub encode_descriptor :
    (ℕ → Bool) → Crc → TransactionDescriptor → Result EncodedDescriptor
encode_descriptor reserves crc d = do
  reject_if (not (d.meta.distinct_key_count == length d.mutations)) encode_invalid
  validate_tx_meta encode_invalid d.meta
  validate_transaction_mutations true d.meta.transaction_kind d.mutations
  reject_if (not (reserves d.meta.distinct_key_count)) encode_allocation
  reject_if (not (reserves d.meta.distinct_key_count)) encode_allocation
  rows ← encode_each reserves d.meta.commit_seq 0 [] d.mutations
  meta_without_crc ← encode_tx_meta (record d.meta { descriptor_crc32c = 0 })
  sum ← descriptor_crc true crc meta_without_crc rows
  meta_key ← encode_tx_meta_key d.meta.commit_seq
  meta_value ← encode_tx_meta (record d.meta { descriptor_crc32c = sum })
  ok (record { meta_key = meta_key; meta_value = meta_value; mutations = rows })

-- The loop of `decode_descriptor`, from the given ordinal: the mutations and the checksum.
unfoldable pub decode_each :
    (ℕ → Bool) → Crc → ℕ → ℕ → List Bytes → ℕ → List EncodedMutation → Result (List TxMutation × ℕ)
unfolding is_seen
decode_each reserves crc seq ordinal seen c [] = ok ([], c)
decode_each reserves crc seq ordinal seen c (e ∷ es) = do
  found ← decode_tx_mutation_key e.key
  reject_if (not (found.0 == seq) || not (found.1 == ordinal)) decode_corruption
  mutation ← decode_tx_mutation reserves e.value
  reject_if (not (reserves (length mutation.user_key))) decode_allocation
  reject_if (is_seen mutation.user_key seen) decode_corruption
  next ← crc_row decode_corruption crc c e.key e.value
  rest ← decode_each reserves crc seq (ordinal + 1) (mutation.user_key ∷ seen) next es
  ok (mutation ∷ rest.0, rest.1)

unfoldable pub decode_descriptor :
    (ℕ → Bool) → Crc → Bytes → Bytes → List EncodedMutation → Result TransactionDescriptor
decode_descriptor reserves crc meta_key meta_value entries = do
  key_seq ← decode_tx_meta_key meta_key
  meta ← decode_tx_meta meta_value
  reject_if (not (key_seq == meta.commit_seq)) decode_corruption
  reject_if (not (length entries == meta.distinct_key_count)) decode_corruption
  reject_if (not (reserves meta.distinct_key_count)) decode_allocation
  reject_if (not (reserves meta.distinct_key_count)) decode_allocation
  covered ← ok_or (sub_slice meta_value 0 83) decode_corruption
  found ← decode_each reserves crc meta.commit_seq 0 [] (crc_start crc covered) entries
  reject_if (not (found.1 == meta.descriptor_crc32c)) decode_corruption
  validate_transaction_mutations false meta.transaction_kind found.0
  ok (record { meta = meta; mutations = found.0 })
