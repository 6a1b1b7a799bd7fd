-- ===== src/Vlog/Envelope/Prepare.antt =====
-- src/vlog/format.rs: `append_placement` and `prepare_envelope`, after the tally of the records. On an
-- error the planner that was passed is kept, since the source plans on a copy.
use expirkv.Prelude.{
  ℕ, ◌+◌, ◌^◌, Bool, not, ◌||◌, Option, none, some, List, [], ◌∷◌, ◌++◌, ◌==◌, length, get_elem?,
  Bytes,
}
use expirkv.Error.{
  Result, ok, ◌>>=◌, ◌>>◌, ok_or, map_err, reject_if, invalid_argument, capacity_exceeded,
  resource_exhausted, invalid_layout,
}
use expirkv.Uuid
use expirkv.Uuid.{Uuid}
use expirkv.Crc.{Crc}
use expirkv.Vlog.Errors.{invalid_vlog_error, decode_error}
use expirkv.Vlog.Pointer.{ValuePointer, checked_below, value_pointer_format_version}
use expirkv.Vlog.PageHeader
use expirkv.Vlog.FileHeader
use expirkv.Vlog.Geometry.{VLogGeometry}
use expirkv.Vlog.Planner.{
  LayoutPlanner, LayoutPrelude, RecordPlacement, page_header, file_header, page_end,
}
use expirkv.Vlog.Record.{
  TxBegin, TxPreparedEnd, validate_identity, as_invalid, tx_begin_encoded_len,
  tx_prepared_end_encoded_len, encode_tx_begin, encode_kv_record, encode_delete_record,
  encode_tx_prepared_end, encode_page_end,
}
use expirkv.Vlog.Envelope.{
  LogicalOperationRef, put, delete, PhysicalChunk, PreparedEnvelope, tally_operations,
  place_records, checksum_operations,
}
use expirkv.Vlog.Envelope.Checksum.{update_tx_begin, finish_with_footer}
use expirkv.Vlog.Envelope.Checksum as Checksum

-- What the parts of an envelope share.
pub record Identity : Type 0 where
  pub database_uuid : Uuid
  pub commit_seq : ℕ
  pub tx_uuid : Uuid

-- The chunk of a prelude; `try_copy_structural_bytes` fails as the allocator does.
unfoldable pub prelude_chunk :
    (ℕ → Bool) → Crc → Identity → VLogGeometry → LayoutPrelude → Result PhysicalChunk
unfolding PageHeader.encode FileHeader.encode FileHeader.new encode_page_end invalid_vlog_error
    decode_error
prelude_chunk reserves crc i g (page_header p page_no) = do
  encoded ← PageHeader.encode crc (record { file_id = p.file_id; page_no = page_no })
  reject_if (not (reserves (length encoded))) (invalid_vlog_error resource_exhausted)
  ok (record { position = p; bytes = encoded })
prelude_chunk reserves crc i g (file_header p) = do
  encoded ← FileHeader.encode crc (FileHeader.new i.database_uuid p.file_id)
  reject_if (not (reserves (length encoded))) (invalid_vlog_error resource_exhausted)
  ok (record { position = p; bytes = encoded })
prelude_chunk reserves crc i g (page_end p len) = do
  bytes ← encode_page_end reserves crc i.commit_seq i.tx_uuid p g
  reject_if (not (length bytes == len)) (decode_error invalid_layout)
  ok (record { position = p; bytes = bytes })

unfoldable pub prelude_chunks :
    (ℕ → Bool) → Crc → Identity → VLogGeometry → List LayoutPrelude → Result (List PhysicalChunk)
unfolding prelude_chunk
prelude_chunks reserves crc i g [] = ok []
prelude_chunks reserves crc i g (p ∷ ps) = do
  chunk ← prelude_chunk reserves crc i g p
  rest ← prelude_chunks reserves crc i g ps
  ok (chunk ∷ rest)

-- The chunks that `append_placement` adds.
unfoldable pub append_placement :
    (ℕ → Bool)
    → Crc
    → Identity
    → VLogGeometry
    → RecordPlacement
    → Bytes
    → Result (List PhysicalChunk)
unfolding prelude_chunks decode_error
append_placement reserves crc i g placement bytes = do
  reject_if (not (length bytes == placement.encoded_len)) (decode_error invalid_layout)
  preludes ← prelude_chunks reserves crc i g placement.preludes
  ok (preludes ++ (record { position = placement.record_start; bytes = bytes } ∷ []))

-- An operation's record and the pointer to its value, if it has one.
unfoldable pub encode_operation :
    (ℕ → Bool)
    → Crc
    → Identity
    → RecordPlacement
    → ℕ
    → LogicalOperationRef
    → Result (Bytes × Option ValuePointer)
unfolding encode_kv_record encode_delete_record invalid_vlog_error decode_error
encode_operation reserves crc i placement index (put key value) = do
  bytes ← encode_kv_record reserves crc (record {
    commit_seq = i.commit_seq;
    tx_uuid = i.tx_uuid;
    op_index = index;
    key = key;
    value = value;
  })
  offset ←
      ok_or (checked_below (2 ^ 32) placement.record_start.offset) (decode_error invalid_layout)
  value_len ← ok_or (checked_below (2 ^ 16) (length value)) (invalid_vlog_error invalid_argument)
  ok (
    bytes,
    some (record {
      format_version = value_pointer_format_version;
      file_id = placement.record_start.file_id;
      record_offset = offset;
      record_len = placement.encoded_len;
      value_len = value_len;
    }),
  )
encode_operation reserves crc i placement index (delete key) = do
  bytes ←
      encode_delete_record reserves crc
        (record { commit_seq = i.commit_seq; tx_uuid = i.tx_uuid; op_index = index; key = key })
  ok (bytes, none)

-- The loop over the operations, which stand behind the first placement.
unfoldable pub encode_operations :
    (ℕ → Bool)
    → Crc
    → Identity
    → VLogGeometry
    → List RecordPlacement
    → ℕ
    → List LogicalOperationRef
    → Result (List PhysicalChunk × List (Option ValuePointer))
unfolding encode_operation append_placement decode_error
encode_operations reserves crc i g placements index [] = ok ([], [])
encode_operations reserves crc i g placements index (o ∷ ops) = do
  placement ← ok_or (get_elem? placements (index + 1)) (decode_error invalid_layout)
  encoded ← encode_operation reserves crc i placement index o
  chunks ← append_placement reserves crc i g placement encoded.0
  rest ← encode_operations reserves crc i g placements (index + 1) ops
  ok (chunks ++ rest.0, encoded.1 ∷ rest.1)

unfoldable pub last_placement : List RecordPlacement → Option RecordPlacement
last_placement [] = none
last_placement (p ∷ []) = some p
last_placement (p ∷ q ∷ ps) = last_placement (q ∷ ps)

unfoldable pub count_chunks : List RecordPlacement → ℕ
count_chunks [] = 0
count_chunks (p ∷ ps) = 1 + length p.preludes + count_chunks ps

-- The first half: the lengths, the placements, and the checksum of the envelope in the footer.
pub record Placed : Type 0 where
  pub planner : LayoutPlanner
  pub placements : List RecordPlacement
  pub begin : TxBegin
  pub footer : TxPreparedEnd

unfoldable pub place_envelope :
    (ℕ → Bool) → Crc → LayoutPlanner → Identity → List LogicalOperationRef → Result Placed
unfolding tally_operations place_records update_tx_begin checksum_operations finish_with_footer
    invalid_vlog_error Checksum.new validate_identity Uuid.is_zero
place_envelope reserves crc planner i ops = do
  map_err as_invalid (validate_identity i.commit_seq i.tx_uuid)
  reject_if (Uuid.is_zero i.database_uuid || length ops == 0) (invalid_vlog_error invalid_argument)
  count ← ok_or (checked_below (2 ^ 64) (length ops)) (invalid_vlog_error capacity_exceeded)
  reject_if (not (reserves count)) (invalid_vlog_error resource_exhausted)
  room ← ok_or (checked_below (2 ^ 64) (length ops + 2)) (invalid_vlog_error capacity_exceeded)
  reject_if (not (reserves room)) (invalid_vlog_error resource_exhausted)
  tally ←
      tally_operations
        (record {
          distinct_keys = [];
          kv_record_count = 0;
          delete_record_count = 0;
          record_lengths = tx_begin_encoded_len ∷ [];
        })
        ops
  let lengths : List ℕ = tally.record_lengths ++ (tx_prepared_end_encoded_len ∷ [])
  reject_if (not (reserves (length lengths))) (invalid_vlog_error resource_exhausted)
  placed ← place_records reserves planner lengths
  let begin : TxBegin = record {
    commit_seq = i.commit_seq;
    tx_uuid = i.tx_uuid;
    vlog_begin = planner.position;
    logical_op_count = count;
    distinct_key_count = length tally.distinct_keys;
  }
  let footer : TxPreparedEnd = record {
    commit_seq = i.commit_seq;
    tx_uuid = i.tx_uuid;
    vlog_begin = planner.position;
    vlog_end = placed.0.position;
    logical_op_count = count;
    distinct_key_count = length tally.distinct_keys;
    kv_record_count = tally.kv_record_count;
    delete_record_count = tally.delete_record_count;
    envelope_crc32c = 0;
  }
  c₁ ← update_tx_begin crc (Checksum.new crc) begin
  c₂ ← checksum_operations crc i.commit_seq i.tx_uuid c₁ 0 ops
  c₃ ← finish_with_footer crc c₂ footer
  ok (record {
    planner = placed.0;
    placements = placed.1;
    begin = begin;
    footer = record footer { envelope_crc32c = c₃ };
  })

unfoldable pub prepare_envelope :
    (ℕ → Bool)
    → Crc
    → LayoutPlanner
    → Identity
    → List LogicalOperationRef
    → Result (LayoutPlanner × PreparedEnvelope)
unfolding place_envelope count_chunks encode_tx_begin encode_tx_prepared_end append_placement
    encode_operations last_placement invalid_vlog_error decode_error
prepare_envelope reserves crc planner i ops = do
  placed ← place_envelope reserves crc planner i ops
  capacity ←
      ok_or (checked_below (2 ^ 64) (count_chunks placed.placements))
        (invalid_vlog_error capacity_exceeded)
  reject_if (not (reserves capacity)) (invalid_vlog_error resource_exhausted)
  reject_if (not (reserves (length ops))) (invalid_vlog_error resource_exhausted)
  begin_bytes ← encode_tx_begin reserves crc placed.begin
  first ← ok_or (get_elem? placed.placements 0) (decode_error invalid_layout)
  begin_chunks ← append_placement reserves crc i planner.geometry first begin_bytes
  middle ← encode_operations reserves crc i planner.geometry placed.placements 0 ops
  last ← ok_or (last_placement placed.placements) (decode_error invalid_layout)
  footer_bytes ← encode_tx_prepared_end reserves crc placed.footer
  end_chunks ← append_placement reserves crc i planner.geometry last footer_bytes
  ok (
    placed.planner,
    record {
      commit_seq = i.commit_seq;
      tx_uuid = i.tx_uuid;
      vlog_begin = planner.position;
      vlog_end = placed.planner.position;
      envelope_crc32c = placed.footer.envelope_crc32c;
      chunks = begin_chunks ++ (middle.0 ++ end_chunks);
      value_pointers = middle.1;
    },
  )
