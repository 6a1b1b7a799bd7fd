-- ===== src/Commit/Mutation/Code.antt =====
-- What the decoder of mutations reads in the bytes that the encoder wrote.
use expirkv.Prelude.{
  ◌+◌, ◌^◌, ◌<◌, ◌≡◌, refl, ap, sym, some, arith, [], ◌∷◌, ◌++◌, length, length-append,
  append_assoc, slice_from, slice_from-append, sub_slice-middle, Bytes, to_le_16, to_le_32,
  sub_slice, byte_at, from_le_16-to_le, sub_slice-append,
}
use expirkv.Error.{ok}
use expirkv.Vlog.Pointer
use expirkv.Vlog.Pointer.{ValuePointer, bytes, validate_fields}
use expirkv.Vlog.Pointer.RoundTrip.{decode-bytes}
use expirkv.Commit.Errors.{read_u16_le}
use expirkv.Commit.Mutation.{
  ValueState, absent, present, TxMutation, encode_value_state, decode_value_state,
  value_state_encoded_len,
}

-- The offset of a pointer fits its `u32`.
abbrev pub StateFits : ValueState → Type 0
StateFits absent = Unit
StateFits (present p) = p.record_offset < 2 ^ 32

pub record MutationFits (m : TxMutation) : Type 0 where
  pub before_fits : StateFits m.before_state
  pub after_fits : StateFits m.after_state

-- The code of a state.
abbrev pub state_bytes : ValueState → Bytes
state_bytes absent = 0 ∷ []
state_bytes (present p) = 1 ∷ bytes p

abbrev pub IsEncodable : ValueState → Type 0
IsEncodable absent = Unit
IsEncodable (present p) = validate_fields p ≡ ok tt

module _ (p : ValuePointer) where
  pointer_slice : sub_slice (1 ∷ bytes p) 1 17 ≡ some (bytes p)
  unfolding bytes sub_slice to_le_16 to_le_32
  pointer_slice = refl

  pub pointer_length : length (1 ∷ bytes p) ≡ 17
  unfolding bytes to_le_16 to_le_32
  pointer_length = refl

  encode-present :
      {bs : Bytes}
      → encode_value_state (present p) ≡ ok bs
      → IsEncodable (present p) × (bs ≡ state_bytes (present p))
  unfolding encode_value_state Pointer.encode
  encode-present h = ground arith

  decode-present :
      (rest : Bytes)
      → p.record_offset < 2 ^ 32
      → IsEncodable (present p)
      → decode_value_state ((1 ∷ bytes p) ++ rest) ≡ ok (present p, 17)
  unfolding decode_value_state byte_at
  decode-present rest fits v =
      rw (sub_slice-append (1 ∷ bytes p) rest 1 17 pointer_slice, decode-bytes p fits v) refl

pub encode_value_state-ok :
    (s : ValueState) {bs : Bytes}
    → encode_value_state s ≡ ok bs
    → IsEncodable s × (bs ≡ state_bytes s)
encode_value_state-ok absent h = unfold encode_value_state in (tt, ground arith)
encode_value_state-ok (present p) h = encode-present p h

pub decode_value_state-bytes :
    (s : ValueState) (rest : Bytes)
    → StateFits s
    → IsEncodable s
    → decode_value_state (state_bytes s ++ rest) ≡ ok (s, value_state_encoded_len s)
unfolding value_state_encoded_len decode_value_state byte_at
decode_value_state-bytes absent rest fits v = refl
decode_value_state-bytes (present p) rest fits v = decode-present p rest fits v

pub length-state_bytes : (s : ValueState) → length (state_bytes s) ≡ value_state_encoded_len s
unfolding value_state_encoded_len
length-state_bytes absent = refl
length-state_bytes (present p) = pointer_length p

-- What the reads of the decoder find in the bytes of a mutation.
module _ (key before after : Bytes) where
  abbrev pub code : Bytes
  code = to_le_16 (length key) ++ (key ++ (before ++ after))

  len_slice : sub_slice (to_le_16 (length key)) 0 2 ≡ some (to_le_16 (length key))
  unfolding to_le_16 sub_slice
  len_slice = refl

  pub read_len : length key < 2 ^ 16 → read_u16_le code 0 ≡ some (length key)
  unfolding read_u16_le
  read_len h =
      rw (sub_slice-append (to_le_16 (length key)) (key ++ (before ++ after)) 0 2 len_slice)
        (ap some (from_le_16-to_le (length key) h))

  len_code : length (to_le_16 (length key)) ≡ 2
  unfolding to_le_16
  len_code = refl

  pub read_key : sub_slice code 2 (2 + length key) ≡ some key
  read_key =
      sub_slice-middle (to_le_16 (length key)) 2 (sym len_code) key (before ++ after)
        (2 + length key) refl

  pub read_before : slice_from code (2 + length key) ≡ some (before ++ after)
  read_before = rw (sym (append_assoc (to_le_16 (length key)) key (before ++ after))) (
      slice_from-append (to_le_16 (length key) ++ key) (2 + length key)
        (omega (arith, len_code, length-append (to_le_16 (length key)) key)) (before ++ after))

  pub read_after : slice_from code (2 + length key + length before) ≡ some after
  read_after =
      rw
        (
          sym (append_assoc key before after),
          sym (append_assoc (to_le_16 (length key)) (key ++ before) after),
        )
        (slice_from-append (to_le_16 (length key) ++ (key ++ before))
          (2 + length key + length before)
          (omega (
            arith,
            len_code,
            length-append (to_le_16 (length key)) (key ++ before),
            length-append key before,
          ))
          after)

  pub length-code : length code ≡ 2 + length key + length before + length after
  length-code = omega (
    arith,
    len_code,
    length-append (to_le_16 (length key)) (key ++ (before ++ after)),
    length-append key (before ++ after),
    length-append before after,
  )
