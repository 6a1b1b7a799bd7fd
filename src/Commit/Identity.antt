-- ===== src/Commit/Identity.antt =====
-- src/commit/descriptor.rs: `DatabaseIdentity`, the row that ties the index to a database, and
-- `verify_crc`.
pub mod RoundTrip
use expirkv.Prelude.{
  ℕ, ◌+◌, Bool, true, false, not, ◌||◌, Option, none, some, ◌++◌, [], ◌∷◌, ltb, ◌==◌, if◌then◌else◌,
  length, Bytes, to_le_16, to_le_32, sub_slice, bytes_eq,
}
use expirkv.Error.{StorageError, Result, ok, err, ◌>>=◌, ◌>>◌, ok_or, reject_if}
use expirkv.Uuid
use expirkv.Uuid.{Uuid}
use expirkv.Crc.{Crc}
use expirkv.Commit.Errors.{
  encode_invalid, decode_corruption, decode_incompatible, decode_invalid_layout, read_u16_le,
  read_u32_le,
}
use expirkv.Commit.Keys.{differs}
use expirkv.Commit.TxMeta.{format_version, read_uuid}

abbrev pub database_identity_magic : Bytes
database_identity_magic = b'R' ∷ b'K' ∷ b'D' ∷ b'I' ∷ []

abbrev pub database_format_version : ℕ
database_format_version = 0

abbrev pub keyspace_layout_version : ℕ
keyspace_layout_version = 0

pub record DatabaseIdentity : Type 0 where
  pub identity_version : ℕ
  pub database_version : ℕ
  pub database_uuid : Uuid
  pub keyspace_version : ℕ

unfoldable pub verify_crc : Crc → Bytes → ℕ → ℕ → Result (Unit {0})
verify_crc crc input covered_len crc_offset = do
  covered ← ok_or (sub_slice input 0 covered_len) decode_corruption
  expected ← ok_or (read_u32_le input crc_offset) decode_corruption
  reject_if (not (crc.crc32c covered == expected)) decode_corruption

-- The bytes that the checksum covers.
unfoldable pub covered : DatabaseIdentity → Bytes
unfolding Uuid.to_bytes
covered i =
    database_identity_magic
    ++ (to_le_16 i.identity_version
        ++ (to_le_32 i.database_version
            ++ (Uuid.to_bytes i.database_uuid ++ to_le_16 i.keyspace_version)))

unfoldable pub layout : Crc → DatabaseIdentity → Bytes
unfolding covered
layout crc i = covered i ++ to_le_32 (crc.crc32c (covered i))

unfoldable pub encode : Crc → DatabaseIdentity → Result Bytes
unfolding Uuid.is_zero
encode crc i = do
  reject_if
      (not (i.identity_version == format_version)
        || not (i.database_version == database_format_version)
        || Uuid.is_zero i.database_uuid
        || not (i.keyspace_version == keyspace_layout_version))
      encode_invalid
  ok (layout crc i)

unfoldable pub decode : Crc → Bytes → Result DatabaseIdentity
unfolding differs verify_crc Uuid.is_zero
decode crc encoded = do
  reject_if (not (length encoded == 32) || differs (sub_slice encoded 0 4) database_identity_magic)
      decode_corruption
  verify_crc crc encoded 28 28
  version ← ok_or (read_u16_le encoded 4) decode_corruption
  keyspace ← ok_or (read_u16_le encoded 26) decode_corruption
  reject_if (not (version == format_version) || not (keyspace == keyspace_layout_version))
      decode_incompatible
  database ← ok_or (read_u32_le encoded 6) decode_corruption
  id ← ok_or (read_uuid encoded 10) decode_corruption
  let identity : DatabaseIdentity = record {
    identity_version = version;
    database_version = database;
    database_uuid = id;
    keyspace_version = keyspace;
  }
  reject_if (Uuid.is_zero id) decode_corruption
  ok identity

unfoldable pub validate_against : DatabaseIdentity → ℕ → Uuid → Result (Unit {0})
unfolding bytes_eq Uuid.to_bytes
validate_against i database id =
    reject_if
      (not (i.database_version == database)
        || not (bytes_eq (Uuid.to_bytes i.database_uuid) (Uuid.to_bytes id)))
      decode_invalid_layout
