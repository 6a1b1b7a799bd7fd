-- ===== src/Vlog/RecordHeader.antt =====
-- src/vlog/format.rs: `RecordType` and `RecordHeader`, the 39 bytes that open every record.
pub mod RoundTrip
use expirkv.Prelude.{
  ℕ, ◌+◌, Bool, true, not, ◌||◌, Option, none, some, ◌++◌, [], ◌∷◌, ltb, ◌==◌, if◌then◌else◌,
  length, Bytes, to_le_16, to_le_32, to_le_64, sub_slice, byte_at,
}
use expirkv.Error.{
  Result, ok, err, ◌>>=◌, ◌>>◌, ok_or, map_err, reject_if, corruption, incompatible_format,
}
use expirkv.Uuid
use expirkv.Uuid.{Uuid}
use expirkv.Crc.{Crc}
use expirkv.Commit.Keys.{differs}
use expirkv.Vlog.Errors.{as_encode_error, decode_error, read_u16, read_u32, read_u64, read_array_16}

abbrev pub record_header_magic : Bytes
record_header_magic = b'R' ∷ b'K' ∷ b'V' ∷ b'R' ∷ []

abbrev pub vlog_format_version : ℕ
vlog_format_version = 0

pub data RecordType : Type 0 where
  tx_begin kv_record delete_record tx_prepared_end page_end : RecordType

-- `record_type as u8`.
unfoldable pub encode_type : RecordType → ℕ
encode_type tx_begin = 1
encode_type kv_record = 2
encode_type delete_record = 3
encode_type tx_prepared_end = 4
encode_type page_end = 5

unfoldable pub decode_type : ℕ → Result RecordType
unfolding decode_error
decode_type b =
    if b == 1
    then ok tx_begin
    else if b == 2
    then ok kv_record
    else if b == 3
    then ok delete_record
    else if b == 4
    then ok tx_prepared_end
    else if b == 5
    then ok page_end
    else err (decode_error corruption)

pub record RecordHeader : Type 0 where
  pub format_version : ℕ
  pub record_type : RecordType
  pub encoded_len : ℕ
  pub commit_seq : ℕ
  pub tx_uuid : Uuid

unfoldable pub new : RecordType → ℕ → ℕ → Uuid → RecordHeader
new ty len seq id = record {
  format_version = vlog_format_version;
  record_type = ty;
  encoded_len = len;
  commit_seq = seq;
  tx_uuid = id;
}

unfoldable pub validate : RecordHeader → Result (Unit {0})
unfolding Uuid.is_zero decode_error
validate h = do
  reject_if (not (h.format_version == vlog_format_version)) (decode_error incompatible_format)
  reject_if (h.commit_seq == 0 || Uuid.is_zero h.tx_uuid) (decode_error corruption)

unfoldable pub covered : RecordHeader → Bytes
unfolding Uuid.to_bytes encode_type
covered h =
    record_header_magic
    ++ (to_le_16 h.format_version
        ++ (encode_type h.record_type
            ∷ (to_le_32 h.encoded_len ++ (to_le_64 h.commit_seq ++ Uuid.to_bytes h.tx_uuid))))

unfoldable pub layout : Crc → RecordHeader → Bytes
unfolding covered
layout crc h = covered h ++ to_le_32 (crc.crc32c (covered h))

unfoldable pub encode : Crc → RecordHeader → Result Bytes
unfolding as_encode_error
encode crc h = do map_err as_encode_error (validate h); ok (layout crc h)

-- The input may be a whole record: the header is its first 39 bytes.
unfoldable pub decode : Crc → Bytes → Result RecordHeader
unfolding differs
decode crc encoded = do
  reject_if (ltb (length encoded) 39 || differs (sub_slice encoded 0 4) record_header_magic)
      (decode_error corruption)
  stored_crc ← read_u32 encoded 35
  covered_bytes ← ok_or (sub_slice encoded 0 35) (decode_error corruption)
  reject_if (not (crc.crc32c covered_bytes == stored_crc)) (decode_error corruption)
  version ← read_u16 encoded 4
  reject_if (not (version == vlog_format_version)) (decode_error incompatible_format)
  type_byte ← ok_or (byte_at encoded 6) (decode_error corruption)
  ty ← decode_type type_byte
  len ← read_u32 encoded 7
  seq ← read_u64 encoded 11
  id ← read_array_16 encoded 19
  let header : RecordHeader = record {
    format_version = version;
    record_type = ty;
    encoded_len = len;
    commit_seq = seq;
    tx_uuid = id;
  }
  validate header
  ok header
