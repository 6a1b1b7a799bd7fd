-- ===== src/Vlog/Record/Decode.antt =====
-- src/vlog/format.rs: the decoders of the Value Log's records, and `decode_record_at`.
use expirkv.Prelude.{
  ℕ, ◌+◌, ◌^◌, Bool, false, not, ◌||◌, ◌&&◌, [], ◌∷◌, ltb, ◌==◌, length, Bytes, sub_slice,
}
use expirkv.Error.{Result, ok, ◌>>=◌, ◌>>◌, ok_or, map_err, reject_if, corruption}
use expirkv.Crc.{Crc}
use expirkv.Commit.Keys.{differs}
use expirkv.Vlog.Errors.{decode_error, read_u16, read_u32, read_u64}
use expirkv.Vlog.Pointer.{
  checked_sub, checked_below, max_key_value_size, min_kv_record_len, max_kv_record_len,
}
use expirkv.Vlog.Geometry
use expirkv.Vlog.Geometry.{VLogPosition, VLogGeometry, validate_record_start, page_end_min_size}
use expirkv.Vlog.RecordHeader
use expirkv.Vlog.RecordHeader.{
  RecordHeader, tx_begin, kv_record, delete_record, tx_prepared_end, page_end,
}
use expirkv.Vlog.Record.{
  TxBegin, TxPreparedEnd, KvRecordRef, DeleteRecordRef, DecodedRecord, a_tx_begin, a_kv_record,
  a_delete_record, a_tx_prepared_end, a_page_end, validate_tx_begin, validate_tx_prepared_end,
  tx_begin_encoded_len, tx_prepared_end_encoded_len, end_trailer_magic,
}

unfoldable pub verify_standard_record_crc : Crc → Bytes → Result (Unit {0})
unfolding decode_error read_u32 sub_slice
verify_standard_record_crc crc encoded = do
  offset ← ok_or (checked_sub (length encoded) 4) (decode_error corruption)
  stored ← read_u32 encoded offset
  covered ← ok_or (sub_slice encoded 0 offset) (decode_error corruption)
  reject_if (not (stored == crc.crc32c covered)) (decode_error corruption)

unfoldable pub read_position : Bytes → ℕ → ℕ → Result VLogPosition
unfolding read_u32 read_u64
read_position encoded at_file at_offset = do
  file ← read_u32 encoded at_file
  offset ← read_u64 encoded at_offset
  ok (record { file_id = file; offset = offset })

unfoldable pub decode_tx_begin : Crc → Bytes → RecordHeader → Result TxBegin
unfolding verify_standard_record_crc read_position read_u64 validate_tx_begin decode_error
decode_tx_begin crc encoded h = do
  reject_if (not (h.encoded_len == tx_begin_encoded_len)) (decode_error corruption)
  verify_standard_record_crc crc encoded
  begin ← read_position encoded 39 43
  operations ← read_u64 encoded 51
  keys ← read_u64 encoded 59
  let found : TxBegin = record {
    commit_seq = h.commit_seq;
    tx_uuid = h.tx_uuid;
    vlog_begin = begin;
    logical_op_count = operations;
    distinct_key_count = keys;
  }
  validate_tx_begin found
  ok found

-- The sums of lengths are of a `usize`, far below 2 ^ 64 for lengths of a `u16`.
unfoldable pub decode_kv_record : Crc → Bytes → RecordHeader → Result KvRecordRef
unfolding verify_standard_record_crc read_u16 read_u64 sub_slice decode_error
decode_kv_record crc encoded h = do
  reject_if (ltb h.encoded_len min_kv_record_len || ltb max_kv_record_len h.encoded_len)
      (decode_error corruption)
  key_len ← read_u16 encoded 47
  value_len ← read_u16 encoded 49
  payload ← ok_or (checked_below (2 ^ 64) (key_len + value_len)) (decode_error corruption)
  reject_if (key_len == 0 || ltb max_key_value_size payload) (decode_error corruption)
  expected ← ok_or (checked_below (2 ^ 64) (55 + payload)) (decode_error corruption)
  reject_if (not (expected == length encoded)) (decode_error corruption)
  verify_standard_record_crc crc encoded
  key_end ← ok_or (checked_below (2 ^ 64) (51 + key_len)) (decode_error corruption)
  value_end ← ok_or (checked_below (2 ^ 64) (key_end + value_len)) (decode_error corruption)
  key ← ok_or (sub_slice encoded 51 key_end) (decode_error corruption)
  value ← ok_or (sub_slice encoded key_end value_end) (decode_error corruption)
  index ← read_u64 encoded 39
  ok (record {
    commit_seq = h.commit_seq;
    tx_uuid = h.tx_uuid;
    op_index = index;
    key = key;
    value = value;
  })

unfoldable pub decode_delete_record : Crc → Bytes → RecordHeader → Result DeleteRecordRef
unfolding verify_standard_record_crc read_u16 read_u64 sub_slice decode_error
decode_delete_record crc encoded h = do
  reject_if (ltb h.encoded_len 54 || ltb 60_053 h.encoded_len) (decode_error corruption)
  key_len ← read_u16 encoded 47
  reject_if (key_len == 0 || ltb max_key_value_size key_len) (decode_error corruption)
  expected ← ok_or (checked_below (2 ^ 64) (53 + key_len)) (decode_error corruption)
  reject_if (not (expected == length encoded)) (decode_error corruption)
  verify_standard_record_crc crc encoded
  key_end ← ok_or (checked_below (2 ^ 64) (49 + key_len)) (decode_error corruption)
  key ← ok_or (sub_slice encoded 49 key_end) (decode_error corruption)
  index ← read_u64 encoded 39
  ok (record { commit_seq = h.commit_seq; tx_uuid = h.tx_uuid; op_index = index; key = key })

-- The slices `[0..99]` and `[103..111]` are in range: the record has 111 bytes.
unfoldable pub decode_tx_prepared_end : Crc → Bytes → RecordHeader → Result TxPreparedEnd
unfolding differs read_u32 read_u64 read_position sub_slice validate_tx_prepared_end decode_error
decode_tx_prepared_end crc encoded h = do
  reject_if
      (not (h.encoded_len == tx_prepared_end_encoded_len)
        || differs (sub_slice encoded 107 111) end_trailer_magic)
      (decode_error corruption)
  len ← read_u32 encoded 103
  reject_if (not (len == tx_prepared_end_encoded_len)) (decode_error corruption)
  stored ← read_u32 encoded 99
  front ← ok_or (sub_slice encoded 0 99) (decode_error corruption)
  back ← ok_or (sub_slice encoded 103 111) (decode_error corruption)
  reject_if (not (stored == crc.crc32c_append (crc.crc32c front) back)) (decode_error corruption)
  begin ← read_position encoded 39 43
  end ← read_position encoded 51 55
  operations ← read_u64 encoded 63
  keys ← read_u64 encoded 71
  puts ← read_u64 encoded 79
  deletes ← read_u64 encoded 87
  envelope ← read_u32 encoded 95
  let footer : TxPreparedEnd = record {
    commit_seq = h.commit_seq;
    tx_uuid = h.tx_uuid;
    vlog_begin = begin;
    vlog_end = end;
    logical_op_count = operations;
    distinct_key_count = keys;
    kv_record_count = puts;
    delete_record_count = deletes;
    envelope_crc32c = envelope;
  }
  validate_tx_prepared_end footer
  ok footer

unfoldable pub any_nonzero : Bytes → Bool
any_nonzero [] = false
any_nonzero (b ∷ bs) = not (b == 0) || any_nonzero bs

unfoldable pub decode_page_end : Crc → Bytes → VLogPosition → VLogGeometry → Result (Unit {0})
unfolding any_nonzero verify_standard_record_crc sub_slice decode_error
decode_page_end crc encoded start g = do
  len ← ok_or (checked_below (2 ^ 32) (length encoded)) (decode_error corruption)
  reject_if (ltb len page_end_min_size) (decode_error corruption)
  end ← ok_or (checked_below (2 ^ 64) (start.offset + len)) (decode_error corruption)
  page ← Geometry.page_end start.offset g
  reject_if (not (end == page)) (decode_error corruption)
  padding_end ← ok_or (checked_sub (length encoded) 4) (decode_error corruption)
  padding ← ok_or (sub_slice encoded 39 padding_end) (decode_error corruption)
  reject_if (any_nonzero padding) (decode_error corruption)
  verify_standard_record_crc crc encoded

unfoldable pub validate_record_bounds : Bytes → VLogPosition → VLogGeometry → Result (Unit {0})
unfolding validate_record_start decode_error
validate_record_bounds encoded start g = do
  map_err (λ _. decode_error corruption) (validate_record_start start g)
  end ← ok_or (checked_below (2 ^ 64) (start.offset + length encoded)) (decode_error corruption)
  reject_if (ltb g.max_file_size end) (decode_error corruption)
  page ← Geometry.page_end start.offset g
  reject_if (ltb page end) (decode_error corruption)

-- The arms of the `match` on the type of the record.
unfoldable pub decode_body :
    Crc → Bytes → VLogPosition → VLogGeometry → RecordHeader → Result DecodedRecord
unfolding decode_tx_begin decode_kv_record decode_delete_record decode_tx_prepared_end
    decode_page_end decode_error
decode_body crc encoded start g h = elim h.record_type [
  | tx_begin ↦ do found ← decode_tx_begin crc encoded h; ok (a_tx_begin found)
  | kv_record ↦ do found ← decode_kv_record crc encoded h; ok (a_kv_record found)
  | delete_record ↦ do found ← decode_delete_record crc encoded h; ok (a_delete_record found)
  | tx_prepared_end ↦ do
    footer ← decode_tx_prepared_end crc encoded h
    end ← ok_or (checked_below (2 ^ 64) (start.offset + h.encoded_len)) (decode_error corruption)
    reject_if (not (footer.vlog_end.file_id == start.file_id && footer.vlog_end.offset == end))
        (decode_error corruption)
    ok (a_tx_prepared_end footer)
  | page_end ↦ do decode_page_end crc encoded start g; ok a_page_end
]

unfoldable pub decode_record_at : Crc → Bytes → VLogPosition → VLogGeometry → Result DecodedRecord
unfolding validate_record_bounds decode_body decode_error
decode_record_at crc encoded start g = do
  Geometry.validate_for_decode g
  validate_record_bounds encoded start g
  h ← RecordHeader.decode crc encoded
  reject_if (not (h.encoded_len == length encoded)) (decode_error corruption)
  decode_body crc encoded start g h
