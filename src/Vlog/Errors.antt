-- ===== src/Vlog/Errors.antt =====
-- src/vlog/format.rs: the errors of the Value Log codecs, and their checked reads.
use expirkv.Prelude.{
  ℕ, ◌+◌, ◌≡◌, ◌++◌, sub_slice-append, Option-cases, inl, inr, none, some, Bytes, sub_slice,
  from_le_16, from_le_32, from_le_64,
}
use expirkv.Error.{
  StorageError, StorageErrorKind, RetryAdvice, invalid_argument, resource_exhausted, corruption,
  incompatible_format, capacity_exceeded, op_write_batch, op_get, preflight, vlog_append, read,
  not_committed, fix_request_and_retry_same_instance, retry_same_instance, restore_or_repair,
  do_not_retry, codec_error, Result, ok, ◌>>=◌, ok_or,
}
use expirkv.Uuid
use expirkv.Uuid.{Uuid}

encode_advice : StorageErrorKind → RetryAdvice
encode_advice resource_exhausted = retry_same_instance
encode_advice incompatible_format = do_not_retry
encode_advice _ = fix_request_and_retry_same_instance

unfoldable pub invalid_vlog_error : StorageErrorKind → StorageError
unfolding codec_error encode_advice
invalid_vlog_error k =
    codec_error k op_write_batch vlog_append (some not_committed) (encode_advice k)

unfoldable pub capacity_error : StorageError
unfolding codec_error
capacity_error =
    codec_error capacity_exceeded op_write_batch vlog_append (some not_committed) do_not_retry

unfoldable pub encode_error : StorageError
unfolding codec_error
encode_error =
    codec_error invalid_argument op_write_batch preflight (some not_committed)
      fix_request_and_retry_same_instance

decode_advice : StorageErrorKind → RetryAdvice
decode_advice incompatible_format = do_not_retry
decode_advice _ = restore_or_repair

unfoldable pub decode_error : StorageErrorKind → StorageError
unfolding codec_error decode_advice
decode_error k = codec_error k op_get read none (decode_advice k)

-- The closure that the header encoders pass to `map_err`.
invalid_kind : StorageErrorKind → StorageErrorKind
invalid_kind incompatible_format = incompatible_format
invalid_kind _ = invalid_argument

unfoldable pub as_encode_error : StorageError → StorageError
unfolding invalid_vlog_error invalid_kind
as_encode_error e = invalid_vlog_error (invalid_kind e.kind)

unfoldable pub read_u16 : Bytes → ℕ → Result ℕ
unfolding from_le_16 decode_error
read_u16 encoded offset = do
  bytes ← ok_or (sub_slice encoded offset (offset + 2)) (decode_error corruption)
  ok (from_le_16 bytes)

unfoldable pub read_u32 : Bytes → ℕ → Result ℕ
unfolding from_le_32 decode_error
read_u32 encoded offset = do
  bytes ← ok_or (sub_slice encoded offset (offset + 4)) (decode_error corruption)
  ok (from_le_32 bytes)

unfoldable pub read_u64 : Bytes → ℕ → Result ℕ
unfolding from_le_64 decode_error
read_u64 encoded offset = do
  bytes ← ok_or (sub_slice encoded offset (offset + 8)) (decode_error corruption)
  ok (from_le_64 bytes)

unfoldable pub read_array_16 : Bytes → ℕ → Result Uuid
unfolding decode_error Uuid.from_bytes
read_array_16 encoded offset = do
  bytes ← ok_or (sub_slice encoded offset (offset + 16)) (decode_error corruption)
  ok_or (Uuid.from_bytes bytes) (decode_error corruption)

-- A read that succeeds on a prefix finds the same in the whole.
module _ (xs ys : Bytes) (start : ℕ) where
  read-append :
      (end : ℕ) {A : Type 0} (e : StorageError) (f : Bytes → Result A) {a : A}
      → (ok_or (sub_slice xs start end) e >>= f) ≡ ok a
      → (ok_or (sub_slice (xs ++ ys) start end) e >>= f) ≡ ok a
  read-append end e f h = elim (Option-cases (sub_slice xs start end)) [
    | inl missing ↦ cc (missing, h)
    | inr (found, p) ↦ rw (sub_slice-append xs ys start end p) (rw p at h)
  ]

  pub read_u16-append : {n : ℕ} → read_u16 xs start ≡ ok n → read_u16 (xs ++ ys) start ≡ ok n
  unfolding read_u16
  read_u16-append h = read-append (start + 2) _ _ h

  pub read_u32-append : {n : ℕ} → read_u32 xs start ≡ ok n → read_u32 (xs ++ ys) start ≡ ok n
  unfolding read_u32
  read_u32-append h = read-append (start + 4) _ _ h

  pub read_u64-append : {n : ℕ} → read_u64 xs start ≡ ok n → read_u64 (xs ++ ys) start ≡ ok n
  unfolding read_u64
  read_u64-append h = read-append (start + 8) _ _ h

  pub read_array_16-append :
      {u : Uuid} → read_array_16 xs start ≡ ok u → read_array_16 (xs ++ ys) start ≡ ok u
  unfolding read_array_16
  read_array_16-append h = read-append (start + 16) _ _ h
