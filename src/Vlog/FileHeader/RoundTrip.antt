-- ===== src/Vlog/FileHeader/RoundTrip.antt =====
-- Decoding gives back the file header that was encoded.
use expirkv.Prelude.{
  ◌≤◌, ◌≡◌, refl, ap, some, arith, length, Bytes, to_le_64, sub_slice, bytes_eq, from_le_32-to_le,
  from_le_64-to_le, ==_refl,
}
use expirkv.Error.{ok}
use expirkv.Uuid.{Uuid, uuid}
use expirkv.Crc.{Crc, IsCrc}
use expirkv.Vlog.Errors.{read_u32, read_u64, read_array_16}
use expirkv.Vlog.Pointer.{max_vlog_file_id, max_vlog_file_size, vlog_page_size}
use expirkv.Vlog.FileHeader.{
  VLogFileHeader, file_header_magic, file_format_version, covered, layout, validate, encode, decode,
}

record Reads (crc : Crc) (h : VLogFileHeader) : Type 0 where
  len : length (layout crc h) ≡ 48
  magic : sub_slice (layout crc h) 0 8 ≡ some file_header_magic
  checksum : read_u32 (layout crc h) 44 ≡ ok (crc.crc32c (covered h))
  body : sub_slice (layout crc h) 0 44 ≡ some (covered h)
  version : read_u32 (layout crc h) 8 ≡ ok h.format_version
  id : read_array_16 (layout crc h) 12 ≡ ok h.database_uuid
  file : read_u32 (layout crc h) 28 ≡ ok h.file_id
  page : read_u32 (layout crc h) 32 ≡ ok h.page_size
  size : read_u64 (layout crc h) 36 ≡ ok h.max_file_size

record IsInRange (h : VLogFileHeader) : Type 0 where
  version_is : h.format_version ≡ file_format_version
  file_bound : h.file_id ≤ max_vlog_file_id
  page_size_is : h.page_size ≡ vlog_page_size
  size_is : h.max_file_size ≡ max_vlog_file_size

module _ (crc : Crc) (laws : IsCrc crc) (h : VLogFileHeader) where
  encode-ok : {bs : Bytes} → encode crc h ≡ ok bs → (validate h ≡ ok tt) × (bs ≡ layout crc h)
  unfolding encode
  encode-ok e = ground arith

  range : validate h ≡ ok tt → IsInRange h
  unfolding validate
  range v = ground arith

  Reads-of_uuid : IsInRange h → (id : Uuid) → Reads crc (record h { database_uuid = id })
  unfolding layout read_u32 read_u64 read_array_16 sub_slice to_le_64
  Reads-of_uuid r (uuid a b c d e f g h' i j k l m n o p) = record {
    len = refl;
    magic = refl;
    checksum = ap ok (from_le_32-to_le _ (laws.crc32c-lt _));
    body = refl;
    version = ap ok (from_le_32-to_le _ (omega arith));
    id = refl;
    file = ap ok (from_le_32-to_le _ (omega arith));
    page = ap ok (from_le_32-to_le _ (omega arith));
    size = ap ok (from_le_64-to_le _ (omega arith));
  }

  decode-layout : validate h ≡ ok tt → decode crc (layout crc h) ≡ ok h
  unfolding decode bytes_eq
  decode-layout v =
      let current = range v in
      let r = Reads-of_uuid current h.database_uuid in
      rw (r.len, r.magic, r.checksum, r.body, ==_refl, r.version, r.id, r.file, r.page, r.size)
        (ground (arith, v, current.version_is))

  -- For every checksum that keeps its documented laws, a file header that the encoder accepts is
  -- decoded to itself.
  pub decode_file_header-encode : (bs : Bytes) → encode crc h ≡ ok bs → decode crc bs ≡ ok h
  decode_file_header-encode bs e = let (v, eq) = encode-ok e in rw eq (decode-layout v)
