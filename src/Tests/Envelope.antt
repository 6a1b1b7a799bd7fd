-- ===== src/Tests/Envelope.antt =====
-- The envelope of a small transaction in the Value Log.
use expirkv.Prelude.{◌≡◌, refl, List, [], ◌∷◌, Bytes, to_le_16, to_le_32, to_le_64, bytes_eq}
use expirkv.Error.{ok}
use expirkv.Uuid
use expirkv.Uuid.{Uuid, sample_uuid}
use expirkv.Crc.{sum_crc, sum_onto}
use expirkv.Vlog.Envelope.Prepare.{
  prelude_chunk, prelude_chunks, append_placement, encode_operation, encode_operations,
  last_placement, count_chunks, place_envelope, prepare_envelope,
}
use expirkv.Vlog.Envelope.Checksum
use expirkv.Vlog.Envelope.{
  operation_key, operation_len, insert_key, count_operation, tally_operations, place_records,
  checksum_operations,
}
use expirkv.Vlog.Record.{
  validate_identity, validate_tx_begin, position_lt, validate_tx_prepared_end, zeroed_record,
  write_standard_record_crc, encode_record, position_bytes, tx_begin_body, encode_tx_begin,
  kv_record_body, encode_kv_record, delete_record_body, encode_delete_record, prepared_end_body,
  trailer, encode_tx_prepared_end, padding, encode_page_end,
}
use expirkv.Vlog.Planner
use expirkv.Vlog.Geometry
use expirkv.Vlog.RecordHeader
use expirkv.Vlog.PageHeader
use expirkv.Vlog.FileHeader
use expirkv.Vlog.Planner.{LayoutPlanner}
use expirkv.Vlog.Geometry.{production}
use expirkv.Vlog.Envelope.{LogicalOperationRef, PreparedEnvelope}
use expirkv.Vlog.Envelope.Prepare.{Identity}
use expirkv.Vlog.Envelope.Pointers.{PointersFit}
use expirkv.Vlog.Envelope.Fit.{prepare_envelope-PointersFit}
use expirkv.Tests.Samples.{value_of, gives_all}

abbrev key : Bytes
key = b'k' ∷ []

abbrev planner : LayoutPlanner
planner = record { geometry = production; position = record { file_id = 0; offset = 0 } }

abbrev identity : Identity
identity = record { database_uuid = sample_uuid; commit_seq = 3; tx_uuid = sample_uuid }

abbrev operations : List LogicalOperationRef
operations = LogicalOperationRef.put key (b'v' ∷ b'w' ∷ []) ∷ LogicalOperationRef.delete key ∷ []

prepared :
    (out : LayoutPlanner × PreparedEnvelope) × (prepare_envelope gives_all sum_crc planner identity
        operations
      ≡ ok out)
unfolding Uuid.is_zero sum_onto to_le_16 to_le_32 to_le_64 bytes_eq prelude_chunk prelude_chunks
    append_placement encode_operation encode_operations last_placement count_chunks place_envelope
    prepare_envelope Checksum.new Checksum.update_u64 Checksum.update_position
    Checksum.update_record_prefix Checksum.update_tx_begin Checksum.update_kv_record
    Checksum.update_delete_record Checksum.finish_with_footer operation_key operation_len insert_key
    count_operation tally_operations place_records checksum_operations validate_identity
    validate_tx_begin position_lt validate_tx_prepared_end zeroed_record write_standard_record_crc
    encode_record position_bytes tx_begin_body encode_tx_begin kv_record_body encode_kv_record
    delete_record_body encode_delete_record prepared_end_body trailer encode_tx_prepared_end padding
    encode_page_end Planner.empty Planner.inside_headers Planner.from_position
    Planner.leave_full_file Planner.open_page Planner.ensure_record_area Planner.needs_page_end
    Planner.close_page Planner.place_record Planner.choose_page Planner.plan_placed
    Planner.plan_record_inner Planner.plan_record Geometry.validate_position Geometry.is_multiple_of
    Geometry.validate Geometry.validate_for_decode Geometry.page_end Geometry.remaining_in_page
    Geometry.validate_record_start Geometry.validate_transaction_record_end
    Geometry.next_chunk_position RecordHeader.encode_type RecordHeader.new RecordHeader.validate
    RecordHeader.covered RecordHeader.layout RecordHeader.encode PageHeader.covered
    PageHeader.layout PageHeader.encode FileHeader.new FileHeader.validate FileHeader.covered
    FileHeader.layout FileHeader.encode
prepared = value_of _ refl

prepare_envelope-PointersFit_example :
    PointersFit gives_all sum_crc identity prepared.0.1.chunks 0 operations
      prepared.0.1.value_pointers
prepare_envelope-PointersFit_example =
    prepare_envelope-PointersFit gives_all sum_crc planner identity operations prepared.0 prepared.1
