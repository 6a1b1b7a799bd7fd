-- ===== src/Commit/TxMeta.antt =====
-- src/commit/descriptor.rs: `TxMeta`, the head of a transaction descriptor, with its validation and
-- its 87-byte code.
pub mod RoundTrip
use expirkv.Prelude.{
  ℕ, ◌+◌, ◌-◌, Bool, true, false, not, ◌&&◌, ◌||◌, Option, none, some, ◌++◌, [], ◌∷◌, ltb, ◌==◌,
  if◌then◌else◌, length, Bytes, to_le_16, to_le_32, to_le_64, sub_slice, byte_at,
}
use mathlib.Core.Option
use expirkv.Error.{StorageError, Result, ok, err, ◌>>=◌, ◌>>◌, ok_or, reject_if}
use expirkv.Uuid
use expirkv.Uuid.{Uuid}
use expirkv.Commit.Errors.{
  encode_invalid, decode_corruption, decode_incompatible, read_array, read_u16_le, read_u32_le,
  read_u64_le,
}
use expirkv.Commit.Keys.{differs}
use expirkv.Commit.Position
use expirkv.Commit.Position.{VLogPos}

abbrev pub format_version : ℕ
format_version = 0

abbrev pub tx_meta_magic : Bytes
tx_meta_magic = b'R' ∷ b'K' ∷ b'T' ∷ b'M' ∷ []

pub data TransactionKind : Type 0 where
  vlog_envelope index_only_delete : TransactionKind

unfoldable pub encode_kind : TransactionKind → ℕ
encode_kind vlog_envelope = 0
encode_kind index_only_delete = 1

unfoldable pub decode_kind : ℕ → Result TransactionKind
decode_kind b =
    if b == 0
    then ok vlog_envelope
    else if b == 1
    then ok index_only_delete
    else err decode_corruption

pub record TxMeta : Type 0 where
  pub transaction_kind : TransactionKind
  pub commit_seq : ℕ
  pub tx_uuid : Uuid
  pub prev_seq : ℕ
  pub vlog_begin : VLogPos
  pub vlog_end : VLogPos
  pub logical_op_count : ℕ
  pub distinct_key_count : ℕ
  pub envelope_crc32c : ℕ
  pub descriptor_crc32c : ℕ

-- The derived order and equality of `VLogPos`.
unfoldable pub pos_lt : VLogPos → VLogPos → Bool
pos_lt p q = ltb p.file_id q.file_id || p.file_id == q.file_id && ltb p.offset q.offset

unfoldable pub pos_is_origin : VLogPos → Bool
pos_is_origin p = p.file_id == 0 && p.offset == 0

-- The guards of the two arms of the `match` on the kind.
unfoldable pub kind_fits : TransactionKind → TxMeta → Bool
unfolding pos_lt pos_is_origin Position.is_valid
kind_fits vlog_envelope m =
    Position.is_valid m.vlog_begin && Position.is_valid m.vlog_end && pos_lt m.vlog_begin m.vlog_end
kind_fits index_only_delete m =
    pos_is_origin m.vlog_begin && pos_is_origin m.vlog_end && m.envelope_crc32c == 0

-- `validate_tx_meta`; the flag `encoding` only chooses the error, which is given here. The first test
-- makes the subtraction exact.
unfoldable pub validate_tx_meta : StorageError → TxMeta → Result (Unit {0})
unfolding kind_fits Uuid.is_zero
validate_tx_meta invalid m = do
  reject_if
      (m.commit_seq == 0
        || not (m.prev_seq == m.commit_seq - 1)
        || Uuid.is_zero m.tx_uuid
        || m.logical_op_count == 0
        || m.distinct_key_count == 0
        || ltb m.logical_op_count m.distinct_key_count)
      invalid
  reject_if (not (kind_fits m.transaction_kind m)) invalid

-- `write_vlog_pos` and `read_vlog_pos`.
unfoldable pub write_vlog_pos : VLogPos → Bytes
write_vlog_pos p = to_le_32 p.file_id ++ to_le_64 p.offset

unfoldable pub pair_pos : Option ℕ → Option ℕ → Option VLogPos
pair_pos (some f) (some o) = some (record { file_id = f; offset = o })
pair_pos _ _ = none

unfoldable pub read_vlog_pos : Bytes → ℕ → Option VLogPos
unfolding pair_pos
read_vlog_pos input offset = pair_pos (read_u32_le input offset) (read_u64_le input (offset + 4))

unfoldable pub layout : TxMeta → Bytes
unfolding encode_kind write_vlog_pos Uuid.to_bytes
layout m =
    tx_meta_magic
    ++ (to_le_16 format_version
        ++ (encode_kind m.transaction_kind
            ∷ (to_le_64 m.commit_seq
                ++ (Uuid.to_bytes m.tx_uuid
                    ++ (to_le_64 m.prev_seq
                        ++ (write_vlog_pos m.vlog_begin
                            ++ (write_vlog_pos m.vlog_end
                                ++ (to_le_64 m.logical_op_count
                                    ++ (to_le_64 m.distinct_key_count
                                        ++ (to_le_32 m.envelope_crc32c
                                            ++ to_le_32 m.descriptor_crc32c))))))))))

unfoldable pub encode_tx_meta : TxMeta → Result Bytes
encode_tx_meta m = do validate_tx_meta encode_invalid m; ok (layout m)

unfoldable pub read_uuid : Bytes → ℕ → Option Uuid
unfolding read_array Uuid.from_bytes Option.bind
read_uuid input offset = Option.bind (read_array 16 input offset) Uuid.from_bytes

unfoldable pub decode_tx_meta : Bytes → Result TxMeta
unfolding differs decode_kind
decode_tx_meta encoded = do
  reject_if (not (length encoded == 87) || differs (sub_slice encoded 0 4) tx_meta_magic)
      decode_corruption
  version ← ok_or (read_u16_le encoded 4) decode_corruption
  reject_if (not (version == format_version)) decode_incompatible
  kind_byte ← ok_or (byte_at encoded 6) decode_corruption
  kind ← decode_kind kind_byte
  seq ← ok_or (read_u64_le encoded 7) decode_corruption
  id ← ok_or (read_uuid encoded 15) decode_corruption
  prev ← ok_or (read_u64_le encoded 31) decode_corruption
  begin ← ok_or (read_vlog_pos encoded 39) decode_corruption
  end ← ok_or (read_vlog_pos encoded 51) decode_corruption
  ops ← ok_or (read_u64_le encoded 63) decode_corruption
  keys ← ok_or (read_u64_le encoded 71) decode_corruption
  envelope_crc ← ok_or (read_u32_le encoded 79) decode_corruption
  descriptor_crc ← ok_or (read_u32_le encoded 83) decode_corruption
  let meta : TxMeta = record {
    transaction_kind = kind;
    commit_seq = seq;
    tx_uuid = id;
    prev_seq = prev;
    vlog_begin = begin;
    vlog_end = end;
    logical_op_count = ops;
    distinct_key_count = keys;
    envelope_crc32c = envelope_crc;
    descriptor_crc32c = descriptor_crc;
  }
  validate_tx_meta decode_corruption meta
  ok meta
