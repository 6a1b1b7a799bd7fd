-- ===== src/Format.antt =====
-- src/format.rs: `FormatMetadataV0`, the root FORMAT file of a database.
pub mod RoundTrip
use expirkv.Prelude.{
  ℕ, ◌+◌, Bool, true, false, not, ◌||◌, Option, none, some, ◌++◌, [], ◌∷◌, ltb, ◌==◌, if◌then◌else◌,
  length, Bytes, to_le_32, from_le_32, sub_slice, bytes_eq,
}
use mathlib.Core.Option
use expirkv.Error.{
  StorageError, StorageErrorKind, invalid_argument, corruption, incompatible_format, op_open,
  preflight, recovery, fix_request_and_retry_same_instance, do_not_retry, restore_or_repair,
  codec_error, Result, ok, err, ◌>>=◌, ◌>>◌, ok_or, reject_if,
}
use expirkv.Uuid
use expirkv.Uuid.{Uuid}
use expirkv.Commit.Errors.{read_u32_le}
use expirkv.Commit.Keys.{differs}
use expirkv.Commit.TxMeta.{read_uuid}

abbrev pub format_magic : Bytes
format_magic = b'R' ∷ b'U' ∷ b'S' ∷ b'T' ∷ b'K' ∷ b'V' ∷ b'0' ∷ b'0' ∷ []

abbrev pub format_version : ℕ
format_version = 0

abbrev pub format_encoded_len : ℕ
format_encoded_len = 36

abbrev pub vlog_page_size : ℕ
vlog_page_size = 65536

abbrev pub max_key_value_size : ℕ
max_key_value_size = 60000

pub record FormatMetadataV0 : Type 0 where
  pub magic : Bytes
  pub version : ℕ
  pub database_uuid : Uuid
  pub page_size : ℕ
  pub key_value_limit : ℕ

unfoldable pub encode_error : StorageError
encode_error =
    codec_error invalid_argument op_open preflight none fix_request_and_retry_same_instance

unfoldable pub is_incompatible : StorageErrorKind → Bool
is_incompatible incompatible_format = true
is_incompatible _ = false

unfoldable pub decode_error : StorageErrorKind → StorageError
unfolding is_incompatible
decode_error k =
    codec_error k op_open recovery none
      (if is_incompatible k then do_not_retry else restore_or_repair)

unfoldable pub validate_for_encode : FormatMetadataV0 → Result (Unit {0})
unfolding bytes_eq Uuid.is_zero
validate_for_encode m =
    reject_if
      (not (bytes_eq m.magic format_magic)
        || not (m.version == format_version)
        || Uuid.is_zero m.database_uuid
        || not (m.page_size == vlog_page_size)
        || not (m.key_value_limit == max_key_value_size))
      encode_error

abbrev pub current : Uuid → FormatMetadataV0
current id = record {
  magic = format_magic;
  version = format_version;
  database_uuid = id;
  page_size = vlog_page_size;
  key_value_limit = max_key_value_size;
}

unfoldable pub new : Uuid → Result FormatMetadataV0
unfolding validate_for_encode
new id = validate_for_encode (current id) >> ok (current id)

unfoldable pub layout : FormatMetadataV0 → Bytes
unfolding Uuid.to_bytes
layout m =
    m.magic
    ++ (to_le_32 m.version
        ++ (Uuid.to_bytes m.database_uuid ++ (to_le_32 m.page_size ++ to_le_32 m.key_value_limit)))

unfoldable pub encode : FormatMetadataV0 → Result Bytes
unfolding validate_for_encode layout
encode m = validate_for_encode m >> ok (layout m)

unfoldable pub decode : Bytes → Result FormatMetadataV0
unfolding differs Uuid.is_zero
decode encoded = do
  reject_if (not (length encoded == format_encoded_len)) (decode_error corruption)
  reject_if (differs (sub_slice encoded 0 8) format_magic) (decode_error corruption)
  version ← ok_or (read_u32_le encoded 8) (decode_error corruption)
  reject_if (not (version == format_version)) (decode_error incompatible_format)
  id ← ok_or (read_uuid encoded 12) (decode_error corruption)
  page_size ← ok_or (read_u32_le encoded 28) (decode_error corruption)
  limit ← ok_or (read_u32_le encoded 32) (decode_error corruption)
  reject_if
      (Uuid.is_zero id || not (page_size == vlog_page_size) || not (limit == max_key_value_size))
      (decode_error corruption)
  ok (record {
    magic = format_magic;
    version = version;
    database_uuid = id;
    page_size = page_size;
    key_value_limit = limit;
  })
