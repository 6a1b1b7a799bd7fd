-- ===== src/Format/RoundTrip.antt =====
-- A FORMAT file is read back as it was written, and a file that is read is a current one.
use expirkv.Prelude.{
  ◌≡◌, refl, some, true, false, arith, length, Bytes, to_le_32, sub_slice, bytes_eq,
}
use expirkv.Error.{ok, err}
use expirkv.Uuid
use expirkv.Uuid.{Uuid, uuid}
use expirkv.Commit.Errors.{read_u32_le}
use expirkv.Commit.TxMeta.{read_uuid}
use expirkv.Format
use expirkv.Format.{
  FormatMetadataV0, format_magic, format_version, vlog_page_size, max_key_value_size, current,
  layout, encode, decode, new,
}

record Reads (id : Uuid) : Type 0 where
  len : length (layout (current id)) ≡ 36
  magic : sub_slice (layout (current id)) 0 8 ≡ some format_magic
  version : read_u32_le (layout (current id)) 8 ≡ some format_version
  uuid_read : read_uuid (layout (current id)) 12 ≡ some id
  page : read_u32_le (layout (current id)) 28 ≡ some vlog_page_size
  limit : read_u32_le (layout (current id)) 32 ≡ some max_key_value_size

reads : (id : Uuid) → Reads id
unfolding layout read_u32_le read_uuid sub_slice to_le_32
reads (uuid a b c d e f g h i' j k l n o p q) = record {
  len = refl;
  magic = refl;
  version = refl;
  uuid_read = refl;
  page = refl;
  limit = refl;
}

decode-layout :
    (id : Uuid) → Uuid.is_zero id ≡ false → decode (layout (current id)) ≡ ok (current id)
unfolding decode bytes_eq
decode-layout id nonzero =
    let r = reads id in rw (r.len, r.magic, r.version, r.uuid_read, r.page, r.limit, nonzero) refl

-- For every database identifier that is not all zeros, `new` gives metadata whose encoding decodes to
-- it again, and for the zero identifier `new` fails.
pub decode_format-new :
    (id : Uuid)
    → (Uuid.is_zero id ≡ false
        → (new id ≡ ok (current id))
          × (encode (current id) ≡ ok (layout (current id)))
          × (decode (layout (current id)) ≡ ok (current id)))
      × (Uuid.is_zero id ≡ true → new id ≡ err Format.encode_error)
unfolding new encode bytes_eq
decode_format-new id =
    (λ nonzero. (rw nonzero refl, rw nonzero refl, decode-layout id nonzero), λ zero. rw zero refl)

-- Whatever bytes `decode` accepts, the metadata that it gives is what `new` gives for its database
-- identifier, which is not all zeros.
pub decode_format-current :
    (bs : Bytes) (m : FormatMetadataV0)
    → decode bs ≡ ok m
    → (m ≡ current m.database_uuid) × (Uuid.is_zero m.database_uuid ≡ false)
unfolding decode
decode_format-current bs m h = ground arith
