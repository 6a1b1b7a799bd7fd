-- ===== src/Commit/Keys.antt =====
-- src/commit/descriptor.rs: the keys under which the index stores a transaction's meta row and its
-- mutation rows, and the head sequence number. Sequence numbers in keys are big-endian, so that the
-- index's byte order is their order.
pub mod RoundTrip
use expirkv.Prelude.{
  ℕ, ◌+◌, ◌^◌, Bool, true, false, not, ◌||◌, Option, none, some, ◌++◌, [], ◌∷◌, ltb, ◌==◌,
  if◌then◌else◌, length, Bytes, to_le_64, to_be_64, sub_slice, byte_at, bytes_eq,
}
use expirkv.Error.{Result, ok, err, ◌>>=◌, ◌>>◌, ok_or, reject_if}
use expirkv.Commit.Errors.{
  encode_invalid, encode_capacity, decode_corruption, read_u64_le, read_u64_be,
}

abbrev pub tx_key_magic : Bytes
tx_key_magic = b'T' ∷ b'X' ∷ []

abbrev pub tx_meta_kind : ℕ
tx_meta_kind = 0

abbrev pub tx_mutation_kind : ℕ
tx_mutation_kind = 1

-- `encoded.get(start..end) != Some(magic)`.
unfoldable pub differs : Option Bytes → Bytes → Bool
unfolding bytes_eq
differs none magic = true
differs (some bs) magic = not (bytes_eq bs magic)

-- `encoded.get(i) != Some(&kind)`.
unfoldable pub kind_differs : Option ℕ → ℕ → Bool
kind_differs none kind = true
kind_differs (some b) kind = not (b == kind)

-- The rows' keys, as the encoders fill their arrays.
unfoldable pub meta_key_layout : ℕ → Bytes
meta_key_layout seq = tx_key_magic ++ (to_be_64 seq ++ (tx_meta_kind ∷ []))

unfoldable pub mutation_key_layout : ℕ → ℕ → Bytes
mutation_key_layout seq ordinal =
    tx_key_magic ++ (to_be_64 seq ++ (tx_mutation_kind ∷ to_be_64 ordinal))

unfoldable pub encode_tx_meta_key : ℕ → Result Bytes
encode_tx_meta_key seq = do reject_if (seq == 0) encode_invalid; ok (meta_key_layout seq)

unfoldable pub decode_tx_meta_key : Bytes → Result ℕ
unfolding differs kind_differs
decode_tx_meta_key encoded = do
  reject_if
      (not (length encoded == 11)
        || differs (sub_slice encoded 0 2) tx_key_magic
        || kind_differs (byte_at encoded 10) tx_meta_kind)
      decode_corruption
  seq ← ok_or (read_u64_be encoded 2) decode_corruption
  reject_if (seq == 0) decode_corruption
  ok seq

unfoldable pub encode_tx_mutation_key : ℕ → ℕ → Result Bytes
encode_tx_mutation_key seq ordinal = do
  reject_if (seq == 0) encode_invalid
  ok (mutation_key_layout seq ordinal)

unfoldable pub decode_tx_mutation_key : Bytes → Result (ℕ × ℕ)
unfolding differs kind_differs
decode_tx_mutation_key encoded = do
  reject_if
      (not (length encoded == 19)
        || differs (sub_slice encoded 0 2) tx_key_magic
        || kind_differs (byte_at encoded 10) tx_mutation_kind)
      decode_corruption
  seq ← ok_or (read_u64_be encoded 2) decode_corruption
  ordinal ← ok_or (read_u64_be encoded 11) decode_corruption
  reject_if (seq == 0) decode_corruption
  ok (seq, ordinal)

unfoldable pub encode_head_seq : ℕ → Bytes
encode_head_seq head_seq = to_le_64 head_seq

unfoldable pub decode_head_seq : Bytes → Result ℕ
decode_head_seq encoded = do
  reject_if (not (length encoded == 8)) decode_corruption
  ok_or (read_u64_le encoded 0) decode_corruption

-- `checked_add(1)` on a `u64`.
unfoldable pub next_commit_seq : ℕ → Result ℕ
next_commit_seq head_seq =
    if ltb (head_seq + 1) (2 ^ 64) then ok (head_seq + 1) else err encode_capacity
