-- ===== src/Vlog/Envelope/Checksum.antt =====
-- src/vlog/format.rs: `EnvelopeCrc32c`, a checksum that the records of a transaction are fed into in
-- a canonical form. The struct holds the checksum alone, which stands for it here.
use expirkv.Prelude.{
  ℕ, ◌+◌, ◌^◌, ◌||◌, [], ◌∷◌, ltb, ◌==◌, length, Bytes, to_le_16, to_le_32, to_le_64,
}
use expirkv.Error.{Result, ok, ◌>>=◌, ◌>>◌, ok_or, reject_if, corruption}
use expirkv.Uuid
use expirkv.Crc.{Crc}
use expirkv.Vlog.Errors.{decode_error}
use expirkv.Vlog.Pointer.{checked_below, max_key_value_size}
use expirkv.Vlog.Geometry.{VLogPosition}
use expirkv.Vlog.RecordHeader.{
  RecordType, tx_begin, kv_record, delete_record, tx_prepared_end, encode_type,
}
use expirkv.Vlog.Record.{
  TxBegin, TxPreparedEnd, KvRecordRef, DeleteRecordRef, validate_identity, validate_tx_begin,
  validate_tx_prepared_end,
}

abbrev pub envelope_crc_magic : Bytes
envelope_crc_magic = b'R' ∷ b'K' ∷ b'E' ∷ b'N' ∷ b'V' ∷ b'0' ∷ []

unfoldable pub new : Crc → ℕ
new crc = crc.crc32c envelope_crc_magic

unfoldable pub update_u64 : Crc → ℕ → ℕ → ℕ
unfolding to_le_64
update_u64 crc c value = crc.crc32c_append c (to_le_64 value)

unfoldable pub update_position : Crc → ℕ → VLogPosition → ℕ
unfolding to_le_32 to_le_64
update_position crc c p =
    crc.crc32c_append (crc.crc32c_append c (to_le_32 p.file_id)) (to_le_64 p.offset)

unfoldable pub update_record_prefix : Crc → ℕ → RecordType → ℕ → ℕ
unfolding encode_type to_le_32
update_record_prefix crc c ty body_len =
    crc.crc32c_append (crc.crc32c_append c (encode_type ty ∷ [])) (to_le_32 body_len)

unfoldable pub update_tx_begin : Crc → ℕ → TxBegin → Result ℕ
unfolding validate_tx_begin update_record_prefix update_u64 update_position Uuid.to_bytes
update_tx_begin crc c b = do
  validate_tx_begin b
  let c₁ : ℕ = update_u64 crc (update_record_prefix crc c tx_begin 52) b.commit_seq
  let c₂ : ℕ = update_position crc (crc.crc32c_append c₁ (Uuid.to_bytes b.tx_uuid)) b.vlog_begin
  ok (update_u64 crc (update_u64 crc c₂ b.logical_op_count) b.distinct_key_count)

unfoldable pub update_kv_record : Crc → ℕ → KvRecordRef → Result ℕ
unfolding validate_identity update_record_prefix update_u64 to_le_16 Uuid.to_bytes decode_error
update_kv_record crc c r = do
  validate_identity r.commit_seq r.tx_uuid
  key_len ← ok_or (checked_below (2 ^ 16) (length r.key)) (decode_error corruption)
  value_len ← ok_or (checked_below (2 ^ 16) (length r.value)) (decode_error corruption)
  payload ← ok_or (checked_below (2 ^ 64) (length r.key + length r.value)) (decode_error corruption)
  reject_if (key_len == 0 || ltb max_key_value_size payload) (decode_error corruption)
  body_len ← ok_or (checked_below (2 ^ 32) (36 + payload)) (decode_error corruption)
  let c₁ : ℕ = update_u64 crc (update_record_prefix crc c kv_record body_len) r.commit_seq
  let c₂ : ℕ = update_u64 crc (crc.crc32c_append c₁ (Uuid.to_bytes r.tx_uuid)) r.op_index
  let c₃ : ℕ = crc.crc32c_append (crc.crc32c_append c₂ (to_le_16 key_len)) (to_le_16 value_len)
  ok (crc.crc32c_append (crc.crc32c_append c₃ r.key) r.value)

unfoldable pub update_delete_record : Crc → ℕ → DeleteRecordRef → Result ℕ
unfolding validate_identity update_record_prefix update_u64 to_le_16 Uuid.to_bytes decode_error
update_delete_record crc c r = do
  validate_identity r.commit_seq r.tx_uuid
  key_len ← ok_or (checked_below (2 ^ 16) (length r.key)) (decode_error corruption)
  reject_if (key_len == 0 || ltb max_key_value_size (length r.key)) (decode_error corruption)
  body_len ← ok_or (checked_below (2 ^ 32) (34 + key_len)) (decode_error corruption)
  let c₁ : ℕ = update_u64 crc (update_record_prefix crc c delete_record body_len) r.commit_seq
  let c₂ : ℕ = update_u64 crc (crc.crc32c_append c₁ (Uuid.to_bytes r.tx_uuid)) r.op_index
  ok (crc.crc32c_append (crc.crc32c_append c₂ (to_le_16 key_len)) r.key)

unfoldable pub finish_with_footer : Crc → ℕ → TxPreparedEnd → Result ℕ
unfolding validate_tx_prepared_end update_record_prefix update_u64 update_position Uuid.to_bytes
finish_with_footer crc c f = do
  validate_tx_prepared_end f
  let c₁ : ℕ = update_u64 crc (update_record_prefix crc c tx_prepared_end 80) f.commit_seq
  let c₂ : ℕ = update_position crc (crc.crc32c_append c₁ (Uuid.to_bytes f.tx_uuid)) f.vlog_begin
  let c₃ : ℕ = update_u64 crc (update_position crc c₂ f.vlog_end) f.logical_op_count
  let c₄ : ℕ = update_u64 crc (update_u64 crc c₃ f.distinct_key_count) f.kv_record_count
  ok (update_u64 crc c₄ f.delete_record_count)
