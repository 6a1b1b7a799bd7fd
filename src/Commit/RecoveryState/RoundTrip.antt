-- ===== src/Commit/RecoveryState/RoundTrip.antt =====
-- Decoding gives back the recovery state that was encoded.
use mathlib.Core.Path.{ap₂}
use expirkv.Prelude.{
  ◌^◌, ◌<◌, ◌≡◌, refl, ap, ◌∙◌, some, Bool, true, false, arith, length, Bytes, to_le_64, sub_slice,
  byte_at, bytes_eq, from_le_32-to_le, from_le_64-to_le, ==_refl,
}
use expirkv.Error.{ok}
use expirkv.Crc.{Crc, IsCrc}
use expirkv.Commit.Errors.{read_u32_le, read_u16_le, read_u64_le}
use expirkv.Commit.TxMeta.{format_version, read_vlog_pos}
use expirkv.Commit.Frontier.{
  DurableVLogEnd, empty, position, check_end, read_durable_end, durable_end_of,
}
use expirkv.Commit.Frontier.RoundTrip.{durable_end_of-position, bounds_of_check_end}
use expirkv.Commit.RecoveryState.{
  RecoveryPhase, undo, trim, finalize, RecoveryState, recovery_state_magic, encode_phase,
  decode_phase, encode_bool, decode_bool, covered, layout, encode, decode, validate,
}

-- The sequence numbers fit a `u64`.
pub record StateFits (s : RecoveryState) : Type 0 where
  pub head_fits : s.original_head < 2 ^ 64
  pub target_fits : s.target_seq < 2 ^ 64
  pub vlog_seq_fits : s.target_vlog_seq < 2 ^ 64
  pub next_fits : s.next_undo_seq < 2 ^ 64

record Reads (crc : Crc) (s : RecoveryState) : Type 0 where
  len : length (layout crc s) ≡ 57
  magic : sub_slice (layout crc s) 0 4 ≡ some recovery_state_magic
  body : sub_slice (layout crc s) 0 53 ≡ some (covered s)
  checksum : read_u32_le (layout crc s) 53 ≡ some (crc.crc32c (covered s))
  version : read_u16_le (layout crc s) 4 ≡ some format_version
  phase_byte : byte_at (layout crc s) 6 ≡ some (encode_phase s.phase)
  trim_byte : byte_at (layout crc s) 52 ≡ some (encode_bool s.trim_required)
  head : read_u64_le (layout crc s) 7 ≡ some s.original_head
  target : read_u64_le (layout crc s) 15 ≡ some s.target_seq
  vlog_seq : read_u64_le (layout crc s) 23 ≡ some s.target_vlog_seq
  end : read_durable_end (layout crc s) 31 ≡ ok s.target_vlog_end
  next : read_u64_le (layout crc s) 44 ≡ some s.next_undo_seq

decode_phase-encode_phase : (p : RecoveryPhase) → decode_phase (encode_phase p) ≡ ok p
unfolding decode_phase encode_phase
decode_phase-encode_phase undo = refl
decode_phase-encode_phase trim = refl
decode_phase-encode_phase finalize = refl

decode_bool-encode_bool : (b : Bool) → decode_bool (encode_bool b) ≡ ok b
unfolding decode_bool encode_bool
decode_bool-encode_bool false = refl
decode_bool-encode_bool true = refl

module _ (crc : Crc) (laws : IsCrc crc) (s : RecoveryState) where
  encode-ok : {bs : Bytes} → encode crc s ≡ ok bs → (validate s ≡ ok tt) × (bs ≡ layout crc s)
  unfolding encode
  encode-ok h = ground arith

  checked : validate s ≡ ok tt → check_end s.target_vlog_seq s.target_vlog_end ≡ ok tt
  unfolding validate
  checked h = ground arith

  Reads-of_end :
      StateFits s
      → (end : DurableVLogEnd) → check_end s.target_vlog_seq end ≡ ok tt
      → Reads crc (record s { target_vlog_end = end })
  unfolding layout read_u16_le read_u32_le read_u64_le read_vlog_pos read_durable_end byte_at
      sub_slice to_le_64
  Reads-of_end fits empty c = record {
    len = refl;
    magic = refl;
    body = refl;
    checksum = ap some (from_le_32-to_le _ (laws.crc32c-lt _));
    version = refl;
    phase_byte = refl;
    trim_byte = refl;
    head = ap some (from_le_64-to_le _ fits.head_fits);
    target = ap some (from_le_64-to_le _ fits.target_fits);
    vlog_seq = ap some (from_le_64-to_le _ fits.vlog_seq_fits);
    end = refl;
    next = ap some (from_le_64-to_le _ fits.next_fits);
  }
  Reads-of_end fits (position p) c = record {
    len = refl;
    magic = refl;
    body = refl;
    checksum = ap some (from_le_32-to_le _ (laws.crc32c-lt _));
    version = refl;
    phase_byte = refl;
    trim_byte = refl;
    head = ap some (from_le_64-to_le _ fits.head_fits);
    target = ap some (from_le_64-to_le _ fits.target_fits);
    vlog_seq = ap some (from_le_64-to_le _ fits.vlog_seq_fits);
    end =
        ap₂ (λ x y. durable_end_of 1 (record { file_id = x; offset = y }))
          (from_le_32-to_le _ (bounds_of_check_end _ _ c).0)
          (from_le_64-to_le _ (bounds_of_check_end _ _ c).1)
        ∙ durable_end_of-position _ _ c;
    next = ap some (from_le_64-to_le _ fits.next_fits);
  }

  decode-layout : StateFits s → validate s ≡ ok tt → decode crc (layout crc s) ≡ ok s
  unfolding decode bytes_eq
  decode-layout fits v =
      let r = Reads-of_end fits s.target_vlog_end (checked v) in
      rw
        (
          r.len, r.magic, r.body, r.checksum, ==_refl, r.version, r.phase_byte,
          decode_phase-encode_phase, r.trim_byte, decode_bool-encode_bool, r.head, r.target,
          r.vlog_seq, r.end, r.next,
        )
        (rw v)

  -- For every checksum that keeps its documented laws, a recovery state that the encoder accepts,
  -- with sequence numbers that are `u64`s, is decoded to itself.
  pub decode_recovery_state-encode :
      (bs : Bytes) → StateFits s → encode crc s ≡ ok bs → decode crc bs ≡ ok s
  decode_recovery_state-encode bs fits h = let (v, e) = encode-ok h in rw e (decode-layout fits v)
