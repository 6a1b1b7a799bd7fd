-- ===== src/Vlog/Record.antt =====
-- src/vlog/format.rs: the records of a transaction in the Value Log and their encoders. A record is
-- its header, its body and a checksum over both; `reserves n` says whether the allocator grants `n`
-- bytes. The arrays that the source fills in place are written here as the parts put together.
pub mod Decode
use expirkv.Prelude.{
  ℕ, zero, suc, ◌+◌, ◌-◌, ◌^◌, Bool, true, false, not, ◌||◌, ◌&&◌, Option, none, some, ◌++◌, [],
  ◌∷◌, ltb, ◌==◌, if◌then◌else◌, length, Bytes, to_le_16, to_le_32, to_le_64, sub_slice,
}
use expirkv.Error.{
  StorageError, Result, ok, err, ◌>>=◌, ◌>>◌, ok_or, map_err, reject_if, invalid_argument,
  resource_exhausted, corruption,
}
use expirkv.Uuid
use expirkv.Uuid.{Uuid}
use expirkv.Crc.{Crc}
use expirkv.Vlog.Errors.{invalid_vlog_error, decode_error}
use expirkv.Vlog.Pointer.{
  checked_sub, checked_below, max_key_value_size, kv_record_fixed_len_with_crc,
}
use expirkv.Vlog.Geometry
use expirkv.Vlog.Geometry.{
  VLogPosition, VLogGeometry, validate_position, validate_record_start, page_end_min_size,
}
use expirkv.Vlog.RecordHeader
use expirkv.Vlog.RecordHeader.{
  RecordType, tx_begin, kv_record, delete_record, tx_prepared_end, page_end,
}

abbrev pub tx_begin_encoded_len : ℕ
tx_begin_encoded_len = 71

abbrev pub tx_prepared_end_encoded_len : ℕ
tx_prepared_end_encoded_len = 111

abbrev pub end_trailer_magic : Bytes
end_trailer_magic = b'R' ∷ b'K' ∷ b'T' ∷ b'E' ∷ []

pub record TxBegin : Type 0 where
  pub commit_seq : ℕ
  pub tx_uuid : Uuid
  pub vlog_begin : VLogPosition
  pub logical_op_count : ℕ
  pub distinct_key_count : ℕ

pub record TxPreparedEnd : Type 0 where
  pub commit_seq : ℕ
  pub tx_uuid : Uuid
  pub vlog_begin : VLogPosition
  pub vlog_end : VLogPosition
  pub logical_op_count : ℕ
  pub distinct_key_count : ℕ
  pub kv_record_count : ℕ
  pub delete_record_count : ℕ
  pub envelope_crc32c : ℕ

pub record KvRecordRef : Type 0 where
  pub commit_seq : ℕ
  pub tx_uuid : Uuid
  pub op_index : ℕ
  pub key : Bytes
  pub value : Bytes

pub record DeleteRecordRef : Type 0 where
  pub commit_seq : ℕ
  pub tx_uuid : Uuid
  pub op_index : ℕ
  pub key : Bytes

pub data DecodedRecord : Type 0 where
  a_tx_begin : TxBegin → DecodedRecord
  a_kv_record : KvRecordRef → DecodedRecord
  a_delete_record : DeleteRecordRef → DecodedRecord
  a_tx_prepared_end : TxPreparedEnd → DecodedRecord
  a_page_end : DecodedRecord

unfoldable pub validate_identity : ℕ → Uuid → Result (Unit {0})
unfolding Uuid.is_zero decode_error
validate_identity seq id = reject_if (seq == 0 || Uuid.is_zero id) (decode_error corruption)

unfoldable pub validate_tx_begin : TxBegin → Result (Unit {0})
unfolding validate_identity validate_position decode_error
validate_tx_begin b = do
  validate_identity b.commit_seq b.tx_uuid
  validate_position b.vlog_begin
  reject_if
      (b.logical_op_count == 0
        || b.distinct_key_count == 0
        || ltb b.logical_op_count b.distinct_key_count)
      (decode_error corruption)

-- The derived order of `VLogPosition`.
unfoldable pub position_lt : VLogPosition → VLogPosition → Bool
position_lt p q = ltb p.file_id q.file_id || p.file_id == q.file_id && ltb p.offset q.offset

unfoldable pub validate_tx_prepared_end : TxPreparedEnd → Result (Unit {0})
unfolding validate_identity validate_position decode_error position_lt
validate_tx_prepared_end f = do
  validate_identity f.commit_seq f.tx_uuid
  validate_position f.vlog_begin
  validate_position f.vlog_end
  actual ←
      ok_or (checked_below (2 ^ 64) (f.kv_record_count + f.delete_record_count))
        (decode_error corruption)
  reject_if
      (not (position_lt f.vlog_begin f.vlog_end)
        || f.logical_op_count == 0
        || f.distinct_key_count == 0
        || ltb f.logical_op_count f.distinct_key_count
        || not (actual == f.logical_op_count))
      (decode_error corruption)

unfoldable pub zeroed_record : (ℕ → Bool) → ℕ → Result (Unit {0})
unfolding invalid_vlog_error
zeroed_record reserves len = reject_if (not (reserves len)) (invalid_vlog_error resource_exhausted)

-- `write_standard_record_crc`: the checksum of all that stands before it.
unfoldable pub write_standard_record_crc : Crc → Bytes → Bytes
unfolding to_le_32
write_standard_record_crc crc record_bytes = record_bytes ++ to_le_32 (crc.crc32c record_bytes)

-- The steps that the encoders share: room, header, body, checksum.
unfoldable pub encode_record : (ℕ → Bool) → Crc → RecordType → ℕ → ℕ → Uuid → Bytes → Result Bytes
unfolding zeroed_record write_standard_record_crc
encode_record reserves crc ty len seq id body = do
  zeroed_record reserves len
  header ← RecordHeader.encode crc (RecordHeader.new ty len seq id)
  ok (write_standard_record_crc crc (header ++ body))

abbrev pub as_invalid : StorageError → StorageError
as_invalid e = invalid_vlog_error invalid_argument

unfoldable pub position_bytes : VLogPosition → Bytes
unfolding to_le_32 to_le_64
position_bytes p = to_le_32 p.file_id ++ to_le_64 p.offset

unfoldable pub tx_begin_body : TxBegin → Bytes
unfolding position_bytes to_le_64
tx_begin_body b =
    position_bytes b.vlog_begin ++ (to_le_64 b.logical_op_count ++ to_le_64 b.distinct_key_count)

unfoldable pub encode_tx_begin : (ℕ → Bool) → Crc → TxBegin → Result Bytes
unfolding validate_tx_begin encode_record tx_begin_body
encode_tx_begin reserves crc b = do
  map_err as_invalid (validate_tx_begin b)
  encode_record reserves crc tx_begin tx_begin_encoded_len b.commit_seq b.tx_uuid (tx_begin_body b)

unfoldable pub kv_record_body : KvRecordRef → Bytes
unfolding to_le_64 to_le_16
kv_record_body r =
    to_le_64 r.op_index
    ++ (to_le_16 (length r.key) ++ (to_le_16 (length r.value) ++ (r.key ++ r.value)))

unfoldable pub encode_kv_record : (ℕ → Bool) → Crc → KvRecordRef → Result Bytes
unfolding validate_identity encode_record kv_record_body invalid_vlog_error
encode_kv_record reserves crc r = do
  map_err as_invalid (validate_identity r.commit_seq r.tx_uuid)
  key_len ← ok_or (checked_below (2 ^ 16) (length r.key)) (invalid_vlog_error invalid_argument)
  reject_if (not (ltb (length r.value) (2 ^ 16))) (invalid_vlog_error invalid_argument)
  payload ←
      ok_or (checked_below (2 ^ 64) (length r.key + length r.value))
        (invalid_vlog_error invalid_argument)
  reject_if (key_len == 0 || ltb max_key_value_size payload) (invalid_vlog_error invalid_argument)
  len ←
      ok_or (checked_below (2 ^ 32) (kv_record_fixed_len_with_crc + payload))
        (invalid_vlog_error invalid_argument)
  encode_record reserves crc kv_record len r.commit_seq r.tx_uuid (kv_record_body r)

unfoldable pub delete_record_body : DeleteRecordRef → Bytes
unfolding to_le_64 to_le_16
delete_record_body r = to_le_64 r.op_index ++ (to_le_16 (length r.key) ++ r.key)

unfoldable pub encode_delete_record : (ℕ → Bool) → Crc → DeleteRecordRef → Result Bytes
unfolding validate_identity encode_record delete_record_body invalid_vlog_error
encode_delete_record reserves crc r = do
  map_err as_invalid (validate_identity r.commit_seq r.tx_uuid)
  key_len ← ok_or (checked_below (2 ^ 16) (length r.key)) (invalid_vlog_error invalid_argument)
  reject_if (key_len == 0 || ltb max_key_value_size (length r.key))
      (invalid_vlog_error invalid_argument)
  len ← ok_or (checked_below (2 ^ 32) (53 + key_len)) (invalid_vlog_error invalid_argument)
  encode_record reserves crc delete_record len r.commit_seq r.tx_uuid (delete_record_body r)

unfoldable pub prepared_end_body : TxPreparedEnd → Bytes
unfolding position_bytes to_le_64 to_le_32
prepared_end_body f =
    position_bytes f.vlog_begin
    ++ (position_bytes f.vlog_end
        ++ (to_le_64 f.logical_op_count
            ++ (to_le_64 f.distinct_key_count
                ++ (to_le_64 f.kv_record_count
                    ++ (to_le_64 f.delete_record_count ++ to_le_32 f.envelope_crc32c)))))

-- The trailer repeats the length, so that a footer is found from the end; its checksum stands before
-- it and covers it.
unfoldable pub trailer : Bytes
unfolding to_le_32
trailer = to_le_32 tx_prepared_end_encoded_len ++ end_trailer_magic

unfoldable pub encode_tx_prepared_end : (ℕ → Bool) → Crc → TxPreparedEnd → Result Bytes
unfolding validate_tx_prepared_end zeroed_record prepared_end_body trailer to_le_32
encode_tx_prepared_end reserves crc f = do
  map_err as_invalid (validate_tx_prepared_end f)
  zeroed_record reserves tx_prepared_end_encoded_len
  header ←
      RecordHeader.encode crc
        (RecordHeader.new tx_prepared_end tx_prepared_end_encoded_len f.commit_seq f.tx_uuid)
  let front : Bytes = header ++ prepared_end_body f
  ok (front ++ (to_le_32 (crc.crc32c_append (crc.crc32c front) trailer) ++ trailer))

unfoldable pub padding : ℕ → Bytes
padding zero = []
padding (suc n) = 0 ∷ padding n

unfoldable pub encode_page_end :
    (ℕ → Bool) → Crc → ℕ → Uuid → VLogPosition → VLogGeometry → Result Bytes
unfolding validate_identity encode_record padding invalid_vlog_error
encode_page_end reserves crc seq id start g = do
  map_err as_invalid (validate_identity seq id)
  Geometry.validate g
  map_err as_invalid (validate_record_start start g)
  end ← Geometry.page_end start.offset g
  long ← ok_or (checked_sub end start.offset) (invalid_vlog_error invalid_argument)
  len ← ok_or (checked_below (2 ^ 32) long) (invalid_vlog_error invalid_argument)
  reject_if (ltb len page_end_min_size) (invalid_vlog_error invalid_argument)
  encode_record reserves crc page_end len seq id (padding (len - 43))
