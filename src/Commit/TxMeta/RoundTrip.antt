-- ===== src/Commit/TxMeta/RoundTrip.antt =====
-- Decoding gives back the transaction head that was encoded.
use expirkv.Prelude.{
  ◌^◌, ◌<◌, ◌≡◌, refl, ap, some, arith, length, Bytes, to_le_64, sub_slice, byte_at, bytes_eq,
  from_le_32-to_le, from_le_64-to_le,
}
use expirkv.Error.{ok}
use expirkv.Uuid.{Uuid, uuid}
use expirkv.Commit.Errors.{encode_invalid, decode_corruption, read_u64_le, read_u32_le, read_u16_le}
use expirkv.Commit.Position.{VLogPos}
use mathlib.Core.Path.{ap₂}
use expirkv.Commit.TxMeta.{
  TransactionKind, vlog_envelope, index_only_delete, pair_pos, encode_kind, decode_kind,
  tx_meta_magic, format_version, TxMeta, layout, validate_tx_meta, encode_tx_meta, decode_tx_meta,
  read_vlog_pos, read_uuid,
}

pub record PosFits (p : VLogPos) : Type 0 where
  pub file_id_fits : p.file_id < 2 ^ 32
  pub offset_fits : p.offset < 2 ^ 64

-- Each number fits the machine type of its field.
pub record MetaFits (m : TxMeta) : Type 0 where
  pub seq_fits : m.commit_seq < 2 ^ 64
  pub prev_fits : m.prev_seq < 2 ^ 64
  pub begin_fits : PosFits m.vlog_begin
  pub end_fits : PosFits m.vlog_end
  pub ops_fit : m.logical_op_count < 2 ^ 64
  pub keys_fit : m.distinct_key_count < 2 ^ 64
  pub envelope_fits : m.envelope_crc32c < 2 ^ 32
  pub descriptor_fits : m.descriptor_crc32c < 2 ^ 32

pub encode_tx_meta-ok :
    (m : TxMeta) {bs : Bytes}
    → encode_tx_meta m ≡ ok bs
    → (validate_tx_meta encode_invalid m ≡ ok tt) × (bs ≡ layout m)
unfolding encode_tx_meta
encode_tx_meta-ok m h = ground arith

validate_any :
    (m : TxMeta)
    → validate_tx_meta encode_invalid m ≡ ok tt
    → validate_tx_meta decode_corruption m ≡ ok tt
unfolding validate_tx_meta
validate_any m h = ground arith

-- What the reads of the decoder find in the bytes of a head.
record Reads (m : TxMeta) : Type 0 where
  len : length (layout m) ≡ 87
  magic : sub_slice (layout m) 0 4 ≡ some (tx_meta_magic)
  version : read_u16_le (layout m) 4 ≡ some format_version
  kind : byte_at (layout m) 6 ≡ some (encode_kind m.transaction_kind)
  seq : read_u64_le (layout m) 7 ≡ some m.commit_seq
  id : read_uuid (layout m) 15 ≡ some m.tx_uuid
  prev : read_u64_le (layout m) 31 ≡ some m.prev_seq
  begin : read_vlog_pos (layout m) 39 ≡ some m.vlog_begin
  end : read_vlog_pos (layout m) 51 ≡ some m.vlog_end
  ops : read_u64_le (layout m) 63 ≡ some m.logical_op_count
  keys : read_u64_le (layout m) 71 ≡ some m.distinct_key_count
  envelope_crc : read_u32_le (layout m) 79 ≡ some m.envelope_crc32c
  descriptor_crc : read_u32_le (layout m) 83 ≡ some m.descriptor_crc32c

module _ (m : TxMeta) (fits : MetaFits m) where
  Reads-of_uuid : (id : Uuid) → Reads (record m { tx_uuid = id })
  unfolding layout read_u16_le read_u32_le read_u64_le read_vlog_pos read_uuid byte_at sub_slice
      to_le_64
  Reads-of_uuid (uuid a b c d e f g h i j k l n o p q) = record {
    len = refl;
    magic = refl;
    version = refl;
    kind = refl;
    seq = ap some (from_le_64-to_le _ fits.seq_fits);
    id = refl;
    prev = ap some (from_le_64-to_le _ fits.prev_fits);
    begin =
        ap₂ (λ x y. pair_pos (some x) (some y)) (from_le_32-to_le _ fits.begin_fits.file_id_fits)
          (from_le_64-to_le _ fits.begin_fits.offset_fits);
    end =
        ap₂ (λ x y. pair_pos (some x) (some y)) (from_le_32-to_le _ fits.end_fits.file_id_fits)
          (from_le_64-to_le _ fits.end_fits.offset_fits);
    ops = ap some (from_le_64-to_le _ fits.ops_fit);
    keys = ap some (from_le_64-to_le _ fits.keys_fit);
    envelope_crc = ap some (from_le_32-to_le _ fits.envelope_fits);
    descriptor_crc = ap some (from_le_32-to_le _ fits.descriptor_fits);
  }

  reads : Reads m
  reads = Reads-of_uuid m.tx_uuid

  decode_kind-encode_kind : (k : TransactionKind) → decode_kind (encode_kind k) ≡ ok k
  unfolding decode_kind encode_kind
  decode_kind-encode_kind vlog_envelope = refl
  decode_kind-encode_kind index_only_delete = refl

  decode-layout : validate_tx_meta decode_corruption m ≡ ok tt → decode_tx_meta (layout m) ≡ ok m
  unfolding decode_tx_meta bytes_eq
  decode-layout v =
      let r = reads in
      rw
        (
          r.len, r.magic, r.version, r.kind, decode_kind-encode_kind, r.seq, r.id, r.prev, r.begin,
          r.end, r.ops, r.keys, r.envelope_crc, r.descriptor_crc,
        )
        (rw v)

  -- A transaction head that the encoder accepts, whose numbers fit the types of their fields, is
  -- decoded to itself.
  pub decode_tx_meta-encode : (bs : Bytes) → encode_tx_meta m ≡ ok bs → decode_tx_meta bs ≡ ok m
  decode_tx_meta-encode bs h =
      let (v, e) = encode_tx_meta-ok m h in rw e (decode-layout (validate_any m v))
