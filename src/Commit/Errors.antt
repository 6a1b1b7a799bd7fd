-- ===== src/Commit/Errors.antt =====
-- src/commit/descriptor.rs: the errors of the metadata codecs, and their checked reads.
use expirkv.Prelude.{
  ℕ, ◌+◌, Option, none, some, Bytes, sub_slice, from_le_16, from_le_32, from_le_64, from_be_64,
}
use mathlib.Core.Option
use expirkv.Error.{
  StorageError, StorageErrorKind, RetryAdvice, invalid_argument, capacity_exceeded,
  resource_exhausted, corruption, incompatible_format, invalid_layout, op_write_batch, op_recovery,
  preflight, recovery, not_committed, fix_request_and_retry_same_instance, retry_same_instance,
  restore_or_repair, do_not_retry, fix_environment_and_reopen, codec_error,
}

metadata_encode_error : StorageErrorKind → RetryAdvice → StorageError
unfolding codec_error
metadata_encode_error k advice = codec_error k op_write_batch preflight (some not_committed) advice

metadata_decode_error : StorageErrorKind → RetryAdvice → StorageError
unfolding codec_error
metadata_decode_error k advice = codec_error k op_recovery recovery none advice

unfoldable pub encode_invalid : StorageError
unfolding metadata_encode_error
encode_invalid = metadata_encode_error invalid_argument fix_request_and_retry_same_instance

unfoldable pub encode_capacity : StorageError
unfolding metadata_encode_error
encode_capacity = metadata_encode_error capacity_exceeded fix_request_and_retry_same_instance

unfoldable pub encode_allocation : StorageError
unfolding metadata_encode_error
encode_allocation = metadata_encode_error resource_exhausted retry_same_instance

unfoldable pub decode_corruption : StorageError
unfolding metadata_decode_error
decode_corruption = metadata_decode_error corruption restore_or_repair

unfoldable pub decode_incompatible : StorageError
unfolding metadata_decode_error
decode_incompatible = metadata_decode_error incompatible_format do_not_retry

unfoldable pub decode_invalid_layout : StorageError
unfolding metadata_decode_error
decode_invalid_layout = metadata_decode_error invalid_layout restore_or_repair

unfoldable pub decode_allocation : StorageError
unfolding metadata_decode_error
decode_allocation = metadata_decode_error resource_exhausted fix_environment_and_reopen

unfoldable pub metadata_error_from_pointer : StorageErrorKind → StorageError
unfolding decode_incompatible decode_corruption
metadata_error_from_pointer incompatible_format = decode_incompatible
metadata_error_from_pointer _ = decode_corruption

-- `read_array`, and the reads of fixed-width words at an offset.
unfoldable pub read_array : ℕ → Bytes → ℕ → Option Bytes
unfolding sub_slice
read_array n input offset = sub_slice input offset (offset + n)

unfoldable pub read_u16_le : Bytes → ℕ → Option ℕ
unfolding read_array from_le_16
read_u16_le input offset = Option.map from_le_16 (read_array 2 input offset)

unfoldable pub read_u32_le : Bytes → ℕ → Option ℕ
unfolding read_array from_le_32
read_u32_le input offset = Option.map from_le_32 (read_array 4 input offset)

unfoldable pub read_u64_le : Bytes → ℕ → Option ℕ
unfolding read_array from_le_64
read_u64_le input offset = Option.map from_le_64 (read_array 8 input offset)

unfoldable pub read_u64_be : Bytes → ℕ → Option ℕ
unfolding read_array from_be_64
read_u64_be input offset = Option.map from_be_64 (read_array 8 input offset)
