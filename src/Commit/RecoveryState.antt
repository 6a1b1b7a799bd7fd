-- ===== src/Commit/RecoveryState.antt =====
-- src/commit/descriptor.rs: `RecoveryState`, the row that records how far an interrupted recovery
-- went.
pub mod RoundTrip
use expirkv.Prelude.{
  ℕ, ◌+◌, Bool, true, false, not, ◌||◌, ◌&&◌, Option, none, some, ◌++◌, [], ◌∷◌, ltb, ◌==◌,
  if◌then◌else◌, length, Bytes, to_le_16, to_le_32, to_le_64, sub_slice, byte_at,
}
use expirkv.Error.{StorageError, Result, ok, err, ◌>>=◌, ◌>>◌, ok_or, map_err, reject_if}
use expirkv.Crc.{Crc}
use expirkv.Commit.Errors.{
  encode_invalid, decode_corruption, decode_incompatible, read_u16_le, read_u64_le,
}
use expirkv.Commit.Keys.{differs}
use expirkv.Commit.TxMeta.{format_version}
use expirkv.Commit.Identity.{verify_crc}
use expirkv.Commit.Frontier.{DurableVLogEnd, check_end, write_durable_end, read_durable_end}

abbrev pub recovery_state_magic : Bytes
recovery_state_magic = b'R' ∷ b'K' ∷ b'R' ∷ b'S' ∷ []

pub data RecoveryPhase : Type 0 where
  undo trim finalize : RecoveryPhase

pub record RecoveryState : Type 0 where
  pub phase : RecoveryPhase
  pub original_head : ℕ
  pub target_seq : ℕ
  pub target_vlog_seq : ℕ
  pub target_vlog_end : DurableVLogEnd
  pub next_undo_seq : ℕ
  pub trim_required : Bool

unfoldable pub encode_phase : RecoveryPhase → ℕ
encode_phase undo = 1
encode_phase trim = 2
encode_phase finalize = 3

unfoldable pub decode_phase : ℕ → Result RecoveryPhase
decode_phase b =
    if b == 1
    then ok undo
    else if b == 2
    then ok trim
    else if b == 3
    then ok finalize
    else err decode_corruption

unfoldable pub encode_bool : Bool → ℕ
encode_bool false = 0
encode_bool true = 1

unfoldable pub decode_bool : ℕ → Result Bool
decode_bool b = if b == 0 then ok false else if b == 1 then ok true else err decode_corruption

-- The last `match` of `validate`: trimming and finalizing start only when the undo is complete.
unfoldable pub phase_fits : RecoveryPhase → RecoveryState → Bool
phase_fits undo s = true
phase_fits trim s = s.next_undo_seq == s.target_seq && s.trim_required
phase_fits finalize s = s.next_undo_seq == s.target_seq && not s.trim_required

unfoldable pub validate : RecoveryState → Result (Unit {0})
unfolding phase_fits check_end
validate s = do
  reject_if
      (ltb s.target_seq s.target_vlog_seq
        || ltb s.next_undo_seq s.target_seq
        || ltb s.original_head s.next_undo_seq)
      decode_corruption
  check_end s.target_vlog_seq s.target_vlog_end
  reject_if (not (phase_fits s.phase s)) decode_corruption

-- The bytes that the checksum covers.
unfoldable pub covered : RecoveryState → Bytes
unfolding write_durable_end encode_phase encode_bool
covered s =
    recovery_state_magic
    ++ (to_le_16 format_version
        ++ (encode_phase s.phase
            ∷ (to_le_64 s.original_head
                ++ (to_le_64 s.target_seq
                    ++ (to_le_64 s.target_vlog_seq
                        ++ (write_durable_end s.target_vlog_end
                            ++ (to_le_64 s.next_undo_seq
                                ++ (encode_bool s.trim_required ∷ []))))))))

unfoldable pub layout : Crc → RecoveryState → Bytes
unfolding covered
layout crc s = covered s ++ to_le_32 (crc.crc32c (covered s))

unfoldable pub encode : Crc → RecoveryState → Result Bytes
encode crc s = do map_err (λ _. encode_invalid) (validate s); ok (layout crc s)

unfoldable pub decode : Crc → Bytes → Result RecoveryState
unfolding differs verify_crc decode_phase decode_bool
decode crc encoded = do
  reject_if (not (length encoded == 57) || differs (sub_slice encoded 0 4) recovery_state_magic)
      decode_corruption
  verify_crc crc encoded 53 53
  version ← ok_or (read_u16_le encoded 4) decode_corruption
  reject_if (not (version == format_version)) decode_incompatible
  phase_byte ← ok_or (byte_at encoded 6) decode_corruption
  phase ← decode_phase phase_byte
  trim_byte ← ok_or (byte_at encoded 52) decode_corruption
  trim_required ← decode_bool trim_byte
  head ← ok_or (read_u64_le encoded 7) decode_corruption
  target ← ok_or (read_u64_le encoded 15) decode_corruption
  vlog_seq ← ok_or (read_u64_le encoded 23) decode_corruption
  end ← read_durable_end encoded 31
  next ← ok_or (read_u64_le encoded 44) decode_corruption
  let state : RecoveryState = record {
    phase = phase;
    original_head = head;
    target_seq = target;
    target_vlog_seq = vlog_seq;
    target_vlog_end = end;
    next_undo_seq = next;
    trim_required = trim_required;
  }
  validate state
  ok state
