-- ===== src/Vlog/Pointer/RoundTrip.antt =====
-- Decoding gives back the value pointer that was encoded.
use expirkv.Prelude.{
  ◌^◌, ◌<◌, ◌≡◌, refl, ap, arith, length, Bytes, to_le_32, sub_slice, from_le_16-to_le,
  from_le_32-to_le,
}
use expirkv.Error.{ok}
use expirkv.Vlog.Errors.{read_u32, read_u16}
use expirkv.Vlog.Pointer.{
  ValuePointer, value_pointer_format_version, validate_fields, bytes, encode, decode,
}

-- The offset fits its `u32`; validation bounds the other fields.
record Reads (p : ValuePointer) : Type 0 where
  len : length (bytes p) ≡ 16
  version : read_u16 (bytes p) 0 ≡ ok p.format_version
  file : read_u32 (bytes p) 2 ≡ ok p.file_id
  offset : read_u32 (bytes p) 6 ≡ ok p.record_offset
  record_len : read_u32 (bytes p) 10 ≡ ok p.record_len
  value_len : read_u16 (bytes p) 14 ≡ ok p.value_len

record Bounded (p : ValuePointer) : Type 0 where
  version_is : p.format_version ≡ value_pointer_format_version
  file_id-lt : p.file_id < 2 ^ 32
  record_len-lt : p.record_len < 2 ^ 32
  value_len-lt : p.value_len < 2 ^ 16

module _ (p : ValuePointer) where
  pub encode-ok : {bs : Bytes} → encode p ≡ ok bs → (validate_fields p ≡ ok tt) × (bs ≡ bytes p)
  unfolding encode
  encode-ok h = ground arith

  bounded : validate_fields p ≡ ok tt → Bounded p
  unfolding validate_fields
  bounded v = ground arith

  reads : p.record_offset < 2 ^ 32 → Bounded p → Reads p
  unfolding bytes read_u16 read_u32 to_le_32 sub_slice
  reads fits b = record {
    len = refl;
    version = ap ok (from_le_16-to_le _ (omega arith));
    file = ap ok (from_le_32-to_le _ b.file_id-lt);
    offset = ap ok (from_le_32-to_le _ fits);
    record_len = ap ok (from_le_32-to_le _ b.record_len-lt);
    value_len = ap ok (from_le_16-to_le _ b.value_len-lt);
  }

  pub decode-bytes : p.record_offset < 2 ^ 32 → validate_fields p ≡ ok tt → decode (bytes p) ≡ ok p
  unfolding decode
  decode-bytes fits v =
      let b = bounded v in
      let r = reads fits b in
      rw (r.len, r.version, r.file, r.offset, r.record_len, r.value_len)
        (ground (arith, v, b.version_is))

  -- A value pointer that the encoder accepts, with an offset that is a `u32`, is decoded to itself.
  pub decode_pointer-encode :
      (bs : Bytes) → p.record_offset < 2 ^ 32 → encode p ≡ ok bs → decode bs ≡ ok p
  decode_pointer-encode bs fits h = let (v, e) = encode-ok h in rw e (decode-bytes fits v)
