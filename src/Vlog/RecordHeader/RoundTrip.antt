-- ===== src/Vlog/RecordHeader/RoundTrip.antt =====
-- Decoding gives back the record header that was encoded, whatever follows it in the record.
use expirkv.Prelude.{
  ◌^◌, ◌<◌, ◌≡◌, refl, ap, some, ◌++◌, false, arith, ltb, length, length-append, Bytes, to_le_64,
  sub_slice, byte_at, sub_slice-append, byte_at-append, bytes_eq, from_le_16-to_le,
  from_le_32-to_le, from_le_64-to_le, ==_refl,
}
use expirkv.Error.{ok}
use expirkv.Uuid.{Uuid, uuid}
use expirkv.Crc.{Crc, IsCrc}
use expirkv.Vlog.Errors.{
  read_u16, read_u32, read_u64, read_array_16, read_u16-append, read_u32-append, read_u64-append,
  read_array_16-append,
}
use expirkv.Vlog.RecordHeader.{
  RecordType, tx_begin, kv_record, delete_record, tx_prepared_end, page_end, encode_type,
  decode_type, RecordHeader, record_header_magic, vlog_format_version, covered, layout, validate,
  encode, decode,
}

pub record HeaderFits (h : RecordHeader) : Type 0 where
  pub len_fits : h.encoded_len < 2 ^ 32
  pub seq_fits : h.commit_seq < 2 ^ 64

record Reads (bs : Bytes) (crc : Crc) (h : RecordHeader) : Type 0 where
  magic : sub_slice bs 0 4 ≡ some record_header_magic
  checksum : read_u32 bs 35 ≡ ok (crc.crc32c (covered h))
  body : sub_slice bs 0 35 ≡ some (covered h)
  version : read_u16 bs 4 ≡ ok h.format_version
  type_byte : byte_at bs 6 ≡ some (encode_type h.record_type)
  len : read_u32 bs 7 ≡ ok h.encoded_len
  seq : read_u64 bs 11 ≡ ok h.commit_seq
  id : read_array_16 bs 19 ≡ ok h.tx_uuid

pub decode_type-encode_type : (t : RecordType) → decode_type (encode_type t) ≡ ok t
unfolding decode_type encode_type
decode_type-encode_type tx_begin = refl
decode_type-encode_type kv_record = refl
decode_type-encode_type delete_record = refl
decode_type-encode_type tx_prepared_end = refl
decode_type-encode_type page_end = refl

module _ (crc : Crc) (laws : IsCrc crc) (h : RecordHeader) where
  pub encode-ok : {bs : Bytes} → encode crc h ≡ ok bs → (validate h ≡ ok tt) × (bs ≡ layout crc h)
  unfolding encode
  encode-ok e = ground arith

  version_of : validate h ≡ ok tt → h.format_version ≡ vlog_format_version
  unfolding validate
  version_of v = ground arith

  module _ (fits : HeaderFits h) (v : h.format_version ≡ vlog_format_version) where
    Reads-of_uuid :
        (id : Uuid)
        → let h' : RecordHeader = record h { tx_uuid = id } in Reads (layout crc h') crc h'
    unfolding layout read_u16 read_u32 read_u64 read_array_16 sub_slice byte_at to_le_64
    Reads-of_uuid (uuid a b c d e f g h' i j k l m n o p) = record {
      magic = refl;
      checksum = ap ok (from_le_32-to_le _ (laws.crc32c-lt _));
      body = refl;
      version = ap ok (from_le_16-to_le _ (omega arith));
      type_byte = refl;
      len = ap ok (from_le_32-to_le _ fits.len_fits);
      seq = ap ok (from_le_64-to_le _ fits.seq_fits);
      id = refl;
    }

    -- The same reads find the same in a record that goes on.
    reads : (rest : Bytes) → Reads (layout crc h ++ rest) crc h
    reads rest =
        let r = Reads-of_uuid h.tx_uuid in
        let bs = layout crc h in
        record {
          magic = sub_slice-append bs rest _ _ r.magic;
          checksum = read_u32-append bs rest _ r.checksum;
          body = sub_slice-append bs rest _ _ r.body;
          version = read_u16-append bs rest _ r.version;
          type_byte = byte_at-append bs rest _ r.type_byte;
          len = read_u32-append bs rest _ r.len;
          seq = read_u64-append bs rest _ r.seq;
          id = read_array_16-append bs rest _ r.id;
        }

  length_of_uuid : (id : Uuid) → length (layout crc (record h { tx_uuid = id })) ≡ 39
  unfolding layout to_le_64
  length_of_uuid (uuid a b c d e f g h' i j k l m n o p) = refl

  pub length-layout : length (layout crc h) ≡ 39
  length-layout = length_of_uuid h.tx_uuid

  long_enough : (rest : Bytes) → ltb (length (layout crc h ++ rest)) 39 ≡ false
  long_enough rest = ground (arith, length-append (layout crc h) rest, length-layout)

  pub decode-layout :
      (rest : Bytes) → HeaderFits h → validate h ≡ ok tt → decode crc (layout crc h ++ rest) ≡ ok h
  unfolding decode bytes_eq
  decode-layout rest fits v =
      let r = reads fits (version_of v) rest in
      rw
        (
          long_enough, r.magic, r.checksum, r.body, ==_refl, r.version, r.type_byte,
          decode_type-encode_type, r.len, r.seq, r.id,
        )
        (ground (arith, v, version_of v))

  -- For every checksum that keeps its documented laws, a record header that the encoder accepts,
  -- with a length that is a `u32` and a sequence number that is a `u64`, is read back from any
  -- record that starts with it.
  pub decode_record_header-encode :
      (bs rest : Bytes) → HeaderFits h → encode crc h ≡ ok bs → decode crc (bs ++ rest) ≡ ok h
  decode_record_header-encode bs rest fits e =
      let (v, eq) = encode-ok e in rw eq (decode-layout rest fits v)
