-- ===== src/Commit/Keys/RoundTrip.antt =====
-- The key codecs invert one another, and the two kinds of key never read as one another.
use expirkv.Prelude.{
  ℕ, ◌^◌, ◌<◌, ◌≡◌, ◌≢◌, ap, some, arith, Bytes, to_be_64, to_le_64, sub_slice, byte_at,
  from_be_64-to_be, from_le_64-to_le,
}
use expirkv.Error.{ok, err}
use expirkv.Commit.Errors.{decode_corruption, read_u64_be, read_u64_le}
use expirkv.Commit.Keys.{
  meta_key_layout, mutation_key_layout, encode_tx_meta_key, decode_tx_meta_key,
  encode_tx_mutation_key, decode_tx_mutation_key, encode_head_seq, decode_head_seq,
}

module _ (seq : ℕ) where
  read-meta_key : seq < 2 ^ 64 → read_u64_be (meta_key_layout seq) 2 ≡ some seq
  unfolding meta_key_layout read_u64_be to_be_64
  read-meta_key h = ap some (from_be_64-to_be seq h)

  encode_tx_meta_key-ok :
      {bs : Bytes} → encode_tx_meta_key seq ≡ ok bs → (seq ≢ 0) × (bs ≡ meta_key_layout seq)
  unfolding encode_tx_meta_key
  encode_tx_meta_key-ok h = ground arith

  decode-meta_key_layout :
      seq < 2 ^ 64 → seq ≢ 0 → decode_tx_meta_key (meta_key_layout seq) ≡ ok seq
  unfolding decode_tx_meta_key meta_key_layout to_be_64 sub_slice byte_at
  decode-meta_key_layout fits pos = ground (arith, read-meta_key fits)

  -- A meta key that is made from a `u64` sequence number is decoded to that number.
  pub decode_tx_meta_key-encode :
      (bs : Bytes) → seq < 2 ^ 64 → encode_tx_meta_key seq ≡ ok bs → decode_tx_meta_key bs ≡ ok seq
  decode_tx_meta_key-encode bs fits h =
      let (pos, e) = encode_tx_meta_key-ok h in rw e (decode-meta_key_layout fits pos)

  -- A meta key is never taken for a mutation key: decoding it as one is refused as corruption.
  pub decode_tx_mutation_key-meta_key :
      (bs : Bytes)
      → encode_tx_meta_key seq ≡ ok bs
      → decode_tx_mutation_key bs ≡ err decode_corruption
  unfolding meta_key_layout decode_tx_mutation_key to_be_64
  decode_tx_mutation_key-meta_key bs h = rw (encode_tx_meta_key-ok h).1

module _ (seq ordinal : ℕ) where
  read-mutation_seq : seq < 2 ^ 64 → read_u64_be (mutation_key_layout seq ordinal) 2 ≡ some seq
  unfolding mutation_key_layout read_u64_be to_be_64
  read-mutation_seq h = ap some (from_be_64-to_be seq h)

  read-mutation_ordinal :
      ordinal < 2 ^ 64 → read_u64_be (mutation_key_layout seq ordinal) 11 ≡ some ordinal
  unfolding mutation_key_layout read_u64_be to_be_64
  read-mutation_ordinal h = ap some (from_be_64-to_be ordinal h)

  encode_tx_mutation_key-ok :
      {bs : Bytes}
      → encode_tx_mutation_key seq ordinal ≡ ok bs
      → (seq ≢ 0) × (bs ≡ mutation_key_layout seq ordinal)
  unfolding encode_tx_mutation_key
  encode_tx_mutation_key-ok h = ground arith

  decode-mutation_key_layout :
      seq < 2 ^ 64
      → ordinal < 2 ^ 64
      → seq ≢ 0
      → decode_tx_mutation_key (mutation_key_layout seq ordinal) ≡ ok (seq, ordinal)
  unfolding decode_tx_mutation_key mutation_key_layout to_be_64 sub_slice byte_at
  decode-mutation_key_layout hs ho pos =
      ground (arith, read-mutation_seq hs, read-mutation_ordinal ho)

  -- A mutation key that is made from a `u64` sequence number and a `u64` ordinal is decoded to
  -- both.
  pub decode_tx_mutation_key-encode :
      (bs : Bytes)
      → seq < 2 ^ 64
      → ordinal < 2 ^ 64
      → encode_tx_mutation_key seq ordinal ≡ ok bs
      → decode_tx_mutation_key bs ≡ ok (seq, ordinal)
  decode_tx_mutation_key-encode bs hs ho h =
      let (pos, e) = encode_tx_mutation_key-ok h in rw e (decode-mutation_key_layout hs ho pos)

-- A head row decodes to the head that was written.
pub decode_head_seq-encode :
    (head_seq : ℕ) → head_seq < 2 ^ 64 → decode_head_seq (encode_head_seq head_seq) ≡ ok head_seq
unfolding decode_head_seq encode_head_seq read_u64_le to_le_64
decode_head_seq-encode head_seq h = ap ok (from_le_64-to_le head_seq h)
