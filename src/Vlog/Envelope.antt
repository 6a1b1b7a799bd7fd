-- ===== src/Vlog/Envelope.antt =====
-- src/vlog/format.rs: `EnvelopeCrc32c`, the checksum over a transaction's records, and
-- `prepare_envelope`, which places a transaction in the Value Log and encodes it. `reserves n` says
-- whether the allocator grants room for `n` bytes or entries.
pub mod Checksum
pub mod Prepare
pub mod Pointers
pub mod Fit
use expirkv.Prelude.{
  ℕ, ◌+◌, ◌^◌, Bool, true, false, not, ◌||◌, Option, none, some, List, [], ◌∷◌, ◌++◌, ltb, ◌==◌,
  if◌then◌else◌, length, get_elem?, Bytes,
}
use expirkv.Error.{
  Result, ok, err, ◌>>=◌, ◌>>◌, ok_or, map_err, reject_if, invalid_argument, capacity_exceeded,
  resource_exhausted, invalid_layout,
}
use expirkv.Uuid
use expirkv.Uuid.{Uuid}
use expirkv.Crc.{Crc}
use expirkv.Commit.Descriptor.{is_seen}
use expirkv.Vlog.Errors.{invalid_vlog_error, decode_error}
use expirkv.Vlog.Pointer.{
  ValuePointer, checked_below, max_key_value_size, kv_record_fixed_len_with_crc,
  value_pointer_format_version,
}
use expirkv.Vlog.PageHeader
use expirkv.Vlog.FileHeader
use expirkv.Vlog.Geometry.{VLogPosition, VLogGeometry}
use expirkv.Vlog.Planner.{
  LayoutPlanner, LayoutPrelude, RecordPlacement, page_header, file_header, page_end, plan_record,
}
use expirkv.Vlog.Record.{
  TxBegin, TxPreparedEnd, KvRecordRef, DeleteRecordRef, validate_identity, as_invalid,
  tx_begin_encoded_len, tx_prepared_end_encoded_len, encode_tx_begin, encode_kv_record,
  encode_delete_record, encode_tx_prepared_end, encode_page_end,
}
use expirkv.Vlog.Envelope.Checksum.{
  new, update_tx_begin, update_kv_record, update_delete_record, finish_with_footer,
}

pub data LogicalOperationRef : Type 0 where
  put : (key value : Bytes) → LogicalOperationRef
  delete : (key : Bytes) → LogicalOperationRef

unfoldable pub operation_key : LogicalOperationRef → Bytes
operation_key (put key value) = key
operation_key (delete key) = key

pub record PhysicalChunk : Type 0 where
  pub position : VLogPosition
  pub bytes : Bytes

pub record PreparedEnvelope : Type 0 where
  pub commit_seq : ℕ
  pub tx_uuid : Uuid
  pub vlog_begin : VLogPosition
  pub vlog_end : VLogPosition
  pub envelope_crc32c : ℕ
  pub chunks : List PhysicalChunk
  pub value_pointers : List (Option ValuePointer)

-- The length of an operation's record.
unfoldable pub operation_len : LogicalOperationRef → Result ℕ
unfolding invalid_vlog_error operation_key
operation_len (put key value) = do
  reject_if (length key == 0 || ltb max_key_value_size (length key))
      (invalid_vlog_error invalid_argument)
  combined ←
      ok_or (checked_below (2 ^ 64) (length key + length value))
        (invalid_vlog_error invalid_argument)
  key_len ← ok_or (checked_below (2 ^ 16) (length key)) (invalid_vlog_error invalid_argument)
  reject_if (not (ltb (length value) (2 ^ 16))) (invalid_vlog_error invalid_argument)
  reject_if (key_len == 0 || ltb max_key_value_size combined) (invalid_vlog_error invalid_argument)
  payload ← ok_or (checked_below (2 ^ 32) combined) (invalid_vlog_error invalid_argument)
  ok_or (checked_below (2 ^ 32) (kv_record_fixed_len_with_crc + payload))
      (invalid_vlog_error invalid_argument)
operation_len (delete key) = do
  reject_if (length key == 0 || ltb max_key_value_size (length key))
      (invalid_vlog_error invalid_argument)
  key_len ← ok_or (checked_below (2 ^ 16) (length key)) (invalid_vlog_error invalid_argument)
  ok_or (checked_below (2 ^ 32) (53 + key_len)) (invalid_vlog_error invalid_argument)

-- What the first loop holds: the keys seen, the counts, and the lengths.
pub record Tally : Type 0 where
  pub distinct_keys : List Bytes
  pub kv_record_count : ℕ
  pub delete_record_count : ℕ
  pub record_lengths : List ℕ

unfoldable pub insert_key : Bytes → List Bytes → List Bytes
unfolding is_seen
insert_key key keys = if is_seen key keys then keys else key ∷ keys

unfoldable pub count_operation : Tally → LogicalOperationRef → ℕ → Result Tally
unfolding insert_key invalid_vlog_error
count_operation t (put key value) len = do
  puts ←
      ok_or (checked_below (2 ^ 64) (t.kv_record_count + 1)) (invalid_vlog_error capacity_exceeded)
  ok (record t {
    distinct_keys = insert_key key t.distinct_keys;
    kv_record_count = puts;
    record_lengths = t.record_lengths ++ (len ∷ []);
  })
count_operation t (delete key) len = do
  deletes ←
      ok_or (checked_below (2 ^ 64) (t.delete_record_count + 1))
        (invalid_vlog_error capacity_exceeded)
  ok (record t {
    distinct_keys = insert_key key t.distinct_keys;
    delete_record_count = deletes;
    record_lengths = t.record_lengths ++ (len ∷ []);
  })

unfoldable pub tally_operations : Tally → List LogicalOperationRef → Result Tally
unfolding operation_len count_operation
tally_operations t [] = ok t
tally_operations t (o ∷ ops) = do
  len ← operation_len o
  next ← count_operation t o len
  tally_operations next ops

unfoldable pub place_records :
    (ℕ → Bool) → LayoutPlanner → List ℕ → Result (LayoutPlanner × List RecordPlacement)
unfolding plan_record
place_records reserves planner [] = ok (planner, [])
place_records reserves planner (len ∷ lens) = do
  placed ← plan_record reserves planner len
  rest ← place_records reserves placed.0 lens
  ok (rest.0, placed.1 ∷ rest.1)

-- The loop over the operations that feeds the checksum.
unfoldable pub checksum_operations : Crc → ℕ → Uuid → ℕ → ℕ → List LogicalOperationRef → Result ℕ
unfolding update_kv_record update_delete_record
checksum_operations crc seq id c index [] = ok c
checksum_operations crc seq id c index (put key value ∷ ops) = do
  next ←
      update_kv_record crc c
        (record { commit_seq = seq; tx_uuid = id; op_index = index; key = key; value = value })
  checksum_operations crc seq id next (index + 1) ops
checksum_operations crc seq id c index (delete key ∷ ops) = do
  next ←
      update_delete_record crc c
        (record { commit_seq = seq; tx_uuid = id; op_index = index; key = key })
  checksum_operations crc seq id next (index + 1) ops
