-- ===== src/Commit/Frontier/RoundTrip.antt =====
-- Decoding gives back the durable frontier that was encoded.
use mathlib.Core.Path.{ap₂}
use expirkv.Prelude.{
  ℕ, ◌^◌, ◌<◌, ◌≡◌, refl, ap, ◌∙◌, some, arith, length, Bytes, to_le_64, sub_slice, byte_at,
  bytes_eq, from_le_32-to_le, from_le_64-to_le, ==_refl,
}
use expirkv.Error.{ok}
use expirkv.Crc.{Crc, IsCrc}
use expirkv.Commit.Errors.{read_u32_le, read_u16_le, read_u64_le}
use expirkv.Commit.Position.{VLogPos}
use expirkv.Commit.TxMeta.{format_version, read_vlog_pos}
use expirkv.Commit.Frontier.{
  DurableVLogEnd, empty, position, DurableFrontier, durable_frontier_magic, covered, layout, encode,
  decode, check_end, validate, read_durable_end, durable_end_of,
}

-- The sequence numbers fit a `u64`.
pub record FrontierFits (f : DurableFrontier) : Type 0 where
  pub seq_fits : f.durable_seq < 2 ^ 64
  pub vlog_seq_fits : f.durable_vlog_seq < 2 ^ 64

record Reads (crc : Crc) (f : DurableFrontier) : Type 0 where
  len : length (layout crc f) ≡ 39
  magic : sub_slice (layout crc f) 0 4 ≡ some durable_frontier_magic
  body : sub_slice (layout crc f) 0 35 ≡ some (covered f)
  checksum : read_u32_le (layout crc f) 35 ≡ some (crc.crc32c (covered f))
  version : read_u16_le (layout crc f) 4 ≡ some format_version
  seq : read_u64_le (layout crc f) 6 ≡ some f.durable_seq
  vlog_seq : read_u64_le (layout crc f) 14 ≡ some f.durable_vlog_seq
  end : read_durable_end (layout crc f) 22 ≡ ok f.durable_vlog_end

-- An end that passed the check is read back from its tag and its position.
pub durable_end_of-position :
    (seq : ℕ) (p : VLogPos)
    → check_end seq (position p) ≡ ok tt
    → durable_end_of 1 p ≡ ok (position p)
unfolding check_end durable_end_of
durable_end_of-position seq p h = ground arith

pub bounds_of_check_end :
    (seq : ℕ) (p : VLogPos)
    → check_end seq (position p) ≡ ok tt
    → (p.file_id < 2 ^ 32) × (p.offset < 2 ^ 64)
unfolding check_end
bounds_of_check_end seq p h = ground arith

module _ (crc : Crc) (laws : IsCrc crc) (f : DurableFrontier) where
  encode-ok : {bs : Bytes} → encode crc f ≡ ok bs → (validate f ≡ ok tt) × (bs ≡ layout crc f)
  unfolding encode
  encode-ok h = ground arith

  checked : validate f ≡ ok tt → check_end f.durable_vlog_seq f.durable_vlog_end ≡ ok tt
  unfolding validate
  checked h = ground arith

  Reads-of_end :
      FrontierFits f
      → (end : DurableVLogEnd) → check_end f.durable_vlog_seq end ≡ ok tt
      → Reads crc (record f { durable_vlog_end = end })
  unfolding layout read_u16_le read_u32_le read_u64_le read_vlog_pos read_durable_end byte_at
      sub_slice to_le_64
  Reads-of_end fits empty c = record {
    len = refl;
    magic = refl;
    body = refl;
    checksum = ap some (from_le_32-to_le _ (laws.crc32c-lt _));
    version = refl;
    seq = ap some (from_le_64-to_le _ fits.seq_fits);
    vlog_seq = ap some (from_le_64-to_le _ fits.vlog_seq_fits);
    end = refl;
  }
  Reads-of_end fits (position p) c = record {
    len = refl;
    magic = refl;
    body = refl;
    checksum = ap some (from_le_32-to_le _ (laws.crc32c-lt _));
    version = refl;
    seq = ap some (from_le_64-to_le _ fits.seq_fits);
    vlog_seq = ap some (from_le_64-to_le _ fits.vlog_seq_fits);
    end =
        ap₂ (λ x y. durable_end_of 1 (record { file_id = x; offset = y }))
          (from_le_32-to_le _ (bounds_of_check_end _ _ c).0)
          (from_le_64-to_le _ (bounds_of_check_end _ _ c).1)
        ∙ durable_end_of-position _ _ c;
  }

  decode-layout : FrontierFits f → validate f ≡ ok tt → decode crc (layout crc f) ≡ ok f
  unfolding decode bytes_eq
  decode-layout fits v =
      let r = Reads-of_end fits f.durable_vlog_end (checked v) in
      rw (r.len, r.magic, r.body, r.checksum, ==_refl, r.version, r.seq, r.vlog_seq, r.end) (rw v)

  -- For every checksum that keeps its documented laws, a durable frontier that the encoder accepts,
  -- with sequence numbers that are `u64`s, is decoded to itself.
  pub decode_frontier-encode :
      (bs : Bytes) → FrontierFits f → encode crc f ≡ ok bs → decode crc bs ≡ ok f
  decode_frontier-encode bs fits h = let (v, e) = encode-ok h in rw e (decode-layout fits v)
