-- ===== src/Commit/Frontier.antt =====
-- src/commit/descriptor.rs: `DurableVLogEnd` and `DurableFrontier`, the point up to which commits are
-- known to be durable.
pub mod RoundTrip
use expirkv.Prelude.{
  ℕ, ◌+◌, Bool, true, false, not, ◌||◌, ◌&&◌, Option, none, some, ◌++◌, [], ◌∷◌, ltb, ◌==◌,
  if◌then◌else◌, length, Bytes, to_le_16, to_le_32, to_le_64, sub_slice, byte_at,
}
use expirkv.Error.{StorageError, Result, ok, err, ◌>>=◌, ◌>>◌, ok_or, map_err, reject_if}
use expirkv.Crc.{Crc}
use expirkv.Commit.Errors.{
  encode_invalid, decode_corruption, decode_incompatible, read_u16_le, read_u64_le,
}
use expirkv.Commit.Position
use expirkv.Commit.Position.{VLogPos}
use expirkv.Commit.Keys.{differs}
use expirkv.Commit.TxMeta.{format_version, read_vlog_pos, write_vlog_pos, pos_is_origin}
use expirkv.Commit.Identity.{verify_crc}

abbrev pub durable_frontier_magic : Bytes
durable_frontier_magic = b'R' ∷ b'K' ∷ b'D' ∷ b'F' ∷ []

pub data DurableVLogEnd : Type 0 where
  empty : DurableVLogEnd
  position : VLogPos → DurableVLogEnd

-- `write_durable_end`, into an array of zeros.
unfoldable pub write_durable_end : DurableVLogEnd → Bytes
unfolding write_vlog_pos
write_durable_end empty = 0 ∷ write_vlog_pos (record { file_id = 0; offset = 0 })
write_durable_end (position p) = 1 ∷ write_vlog_pos p

unfoldable pub durable_end_of : ℕ → VLogPos → Result DurableVLogEnd
unfolding pos_is_origin Position.is_valid
durable_end_of tag p =
    if tag == 0
    then (if pos_is_origin p then ok empty else err decode_corruption)
    else if tag == 1
    then (if Position.is_valid p then ok (position p) else err decode_corruption)
    else err decode_corruption

unfoldable pub read_durable_end : Bytes → ℕ → Result DurableVLogEnd
unfolding durable_end_of
read_durable_end input offset = do
  tag ← ok_or (byte_at input offset) decode_corruption
  p ← ok_or (read_vlog_pos input (offset + 1)) decode_corruption
  durable_end_of tag p

-- The `match` on a sequence number and an end, which the frontier and the recovery state share: the
-- end is empty exactly for sequence 0, and valid otherwise.
unfoldable pub check_end : ℕ → DurableVLogEnd → Result (Unit {0})
unfolding Position.is_valid
check_end seq empty = if seq == 0 then ok tt else err decode_corruption
check_end seq (position p) =
    if seq == 0
    then err decode_corruption
    else if Position.is_valid p
    then ok tt
    else err decode_corruption

pub record DurableFrontier : Type 0 where
  pub durable_seq : ℕ
  pub durable_vlog_seq : ℕ
  pub durable_vlog_end : DurableVLogEnd

unfoldable pub validate : DurableFrontier → Result (Unit {0})
unfolding check_end
validate f = do
  reject_if (ltb f.durable_seq f.durable_vlog_seq) decode_corruption
  check_end f.durable_vlog_seq f.durable_vlog_end

unfoldable pub validate_against_head : DurableFrontier → ℕ → Result (Unit {0})
unfolding validate
validate_against_head f head_seq = do
  validate f
  reject_if (ltb head_seq f.durable_seq) decode_corruption

-- The bytes that the checksum covers.
unfoldable pub covered : DurableFrontier → Bytes
unfolding write_durable_end
covered f =
    durable_frontier_magic
    ++ (to_le_16 format_version
        ++ (to_le_64 f.durable_seq
            ++ (to_le_64 f.durable_vlog_seq ++ write_durable_end f.durable_vlog_end)))

unfoldable pub layout : Crc → DurableFrontier → Bytes
unfolding covered
layout crc f = covered f ++ to_le_32 (crc.crc32c (covered f))

unfoldable pub encode : Crc → DurableFrontier → Result Bytes
encode crc f = do map_err (λ _. encode_invalid) (validate f); ok (layout crc f)

unfoldable pub decode : Crc → Bytes → Result DurableFrontier
unfolding differs verify_crc
decode crc encoded = do
  reject_if (not (length encoded == 39) || differs (sub_slice encoded 0 4) durable_frontier_magic)
      decode_corruption
  verify_crc crc encoded 35 35
  version ← ok_or (read_u16_le encoded 4) decode_corruption
  reject_if (not (version == format_version)) decode_incompatible
  seq ← ok_or (read_u64_le encoded 6) decode_corruption
  vlog_seq ← ok_or (read_u64_le encoded 14) decode_corruption
  end ← read_durable_end encoded 22
  let frontier : DurableFrontier = record {
    durable_seq = seq;
    durable_vlog_seq = vlog_seq;
    durable_vlog_end = end;
  }
  validate frontier
  ok frontier
