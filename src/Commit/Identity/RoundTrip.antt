-- ===== src/Commit/Identity/RoundTrip.antt =====
-- Decoding gives back the database identity that was encoded.
use expirkv.Prelude.{
  ◌≡◌, refl, ap, some, false, arith, length, Bytes, to_le_32, sub_slice, bytes_eq, from_le_16-to_le,
  from_le_32-to_le, ==_refl,
}
use expirkv.Error.{ok}
use expirkv.Uuid
use expirkv.Uuid.{Uuid, uuid}
use expirkv.Crc.{Crc, IsCrc}
use expirkv.Commit.Errors.{read_u32_le, read_u16_le}
use expirkv.Commit.TxMeta.{read_uuid, format_version}
use expirkv.Commit.Identity.{
  DatabaseIdentity, database_identity_magic, database_format_version, keyspace_layout_version,
  covered, layout, encode, decode,
}

record Reads (crc : Crc) (i : DatabaseIdentity) : Type 0 where
  len : length (layout crc i) ≡ 32
  magic : sub_slice (layout crc i) 0 4 ≡ some database_identity_magic
  body : sub_slice (layout crc i) 0 28 ≡ some (covered i)
  checksum : read_u32_le (layout crc i) 28 ≡ some (crc.crc32c (covered i))
  version : read_u16_le (layout crc i) 4 ≡ some i.identity_version
  keyspace : read_u16_le (layout crc i) 26 ≡ some i.keyspace_version
  database : read_u32_le (layout crc i) 6 ≡ some i.database_version
  id : read_uuid (layout crc i) 10 ≡ some i.database_uuid

record IsCurrent (i : DatabaseIdentity) : Type 0 where
  version_is : i.identity_version ≡ format_version
  database_is : i.database_version ≡ database_format_version
  uuid_is : Uuid.is_zero i.database_uuid ≡ false
  keyspace_is : i.keyspace_version ≡ keyspace_layout_version

module _ (crc : Crc) (laws : IsCrc crc) (i : DatabaseIdentity) where
  encode-ok : {bs : Bytes} → encode crc i ≡ ok bs → IsCurrent i × (bs ≡ layout crc i)
  unfolding encode
  encode-ok h = ground arith

  Reads-of_uuid : IsCurrent i → (id : Uuid) → Reads crc (record i { database_uuid = id })
  unfolding layout read_u16_le read_u32_le read_uuid sub_slice to_le_32
  Reads-of_uuid current (uuid a b c d e f g h i' j k l n o p q) = record {
    len = refl;
    magic = refl;
    body = refl;
    checksum = ap some (from_le_32-to_le _ (laws.crc32c-lt _));
    version = ap some (from_le_16-to_le _ (omega arith));
    keyspace = ap some (from_le_16-to_le _ (omega arith));
    database = ap some (from_le_32-to_le _ (omega arith));
    id = refl;
  }

  decode-layout : IsCurrent i → decode crc (layout crc i) ≡ ok i
  unfolding decode bytes_eq
  decode-layout current =
      let r = Reads-of_uuid current i.database_uuid in
      rw (r.len, r.magic, r.body, r.checksum, ==_refl, r.version, r.keyspace, r.database, r.id)
        (ground arith)

  -- For every checksum that keeps its documented laws, a database identity that the encoder accepts
  -- is decoded to itself.
  pub decode_identity-encode : (bs : Bytes) → encode crc i ≡ ok bs → decode crc bs ≡ ok i
  decode_identity-encode bs h = let (current, e) = encode-ok h in rw e (decode-layout current)
