-- ===== src/Commit/Mutation.antt =====
-- src/commit/descriptor.rs: `TxMutation`, one key's change in a transaction, and `ValueState`, the
-- value that the key had before or has after it. `reserves n` says whether the allocator grants `n`
-- bytes; checked sums of lengths are at the width of a `usize`.
pub mod Code
pub mod RoundTrip
use expirkv.Prelude.{
  ℕ, ◌+◌, ◌-◌, ◌^◌, Bool, true, false, not, ◌||◌, Option, none, some, List, ◌++◌, [], ◌∷◌, ltb, leb,
  ◌==◌, if◌then◌else◌, length, drop, Bytes, to_le_16, sub_slice, slice_from, byte_at,
}
use expirkv.Error.{StorageError, Result, ok, err, ◌>>=◌, ◌>>◌, ok_or, map_err, reject_if}
use expirkv.Vlog.Pointer
use expirkv.Vlog.Pointer.{ValuePointer, ValuePointerLayout, checked_below}
use expirkv.Commit.Errors.{
  encode_invalid, encode_capacity, encode_allocation, decode_corruption, decode_allocation,
  metadata_error_from_pointer, read_u16_le,
}

abbrev pub max_user_key_len : ℕ
max_user_key_len = 60000

pub data ValueState : Type 0 where
  absent : ValueState
  present : ValuePointer → ValueState

pub record TxMutation : Type 0 where
  pub user_key : Bytes
  pub before_state : ValueState
  pub after_state : ValueState

-- The flag `encoding` of the validations.
unfoldable pub invalid : Bool → StorageError
invalid encoding = if encoding then encode_invalid else decode_corruption

unfoldable pub validate_user_key : Bool → Bytes → Result (Unit {0})
validate_user_key encoding key =
    reject_if (length key == 0 || ltb max_user_key_len (length key)) (invalid encoding)

unfoldable pub value_state_encoded_len : ValueState → ℕ
value_state_encoded_len absent = 1
value_state_encoded_len (present p) = 17

unfoldable pub pointer_error : Bool → StorageError → StorageError
pointer_error encoding e = if encoding then encode_invalid else metadata_error_from_pointer e.kind

unfoldable pub validate_value_state_key_len : Bool → ValueState → ℕ → Result (Unit {0})
unfolding pointer_error invalid
validate_value_state_key_len encoding absent key_len = ok tt
validate_value_state_key_len encoding (present p) key_len = do
  layout ← map_err (pointer_error encoding) (Pointer.layout p)
  reject_if (not (layout.key_len == key_len)) (invalid encoding)

unfoldable pub encode_value_state : ValueState → Result Bytes
encode_value_state absent = ok (0 ∷ [])
encode_value_state (present p) = do encoded ← Pointer.encode p; ok (1 ∷ encoded)

unfoldable pub decode_present : Bytes → Result (ValueState × ℕ)
decode_present encoded = do
  pointer_bytes ← ok_or (sub_slice encoded 1 17) decode_corruption
  pointer ← map_err (λ e. metadata_error_from_pointer e.kind) (Pointer.decode pointer_bytes)
  ok (present pointer, 17)

unfoldable pub decode_value_state : Bytes → Result (ValueState × ℕ)
unfolding decode_present
decode_value_state encoded = elim (byte_at encoded 0) [
  | none ↦ err decode_corruption
  | some tag ↦
      if tag == 0
      then ok (absent, 1)
      else if tag == 1
      then decode_present encoded
      else err decode_corruption
]

unfoldable pub encode_tx_mutation : (ℕ → Bool) → TxMutation → Result Bytes
unfolding validate_user_key value_state_encoded_len
encode_tx_mutation reserves m = do
  validate_user_key true m.user_key
  validate_value_state_key_len true m.before_state (length m.user_key)
  validate_value_state_key_len true m.after_state (length m.user_key)
  key_len ← ok_or (checked_below (2 ^ 16) (length m.user_key)) encode_capacity
  encoded_len ←
      ok_or
        (checked_below (2 ^ 64) (
          2
          + length m.user_key
          + value_state_encoded_len m.before_state
          + value_state_encoded_len m.after_state))
        encode_capacity
  reject_if (not (reserves encoded_len)) encode_allocation
  before ← encode_value_state m.before_state
  after ← encode_value_state m.after_state
  ok (to_le_16 key_len ++ (m.user_key ++ (before ++ after)))

unfoldable pub decode_tx_mutation : (ℕ → Bool) → Bytes → Result TxMutation
decode_tx_mutation reserves encoded = do
  user_key_len ← ok_or (read_u16_le encoded 0) decode_corruption
  reject_if (user_key_len == 0 || ltb max_user_key_len user_key_len) decode_corruption
  key_end ← ok_or (checked_below (2 ^ 64) (2 + user_key_len)) decode_corruption
  user_key ← ok_or (sub_slice encoded 2 key_end) decode_corruption
  reject_if (not (reserves user_key_len)) decode_allocation
  before_bytes ← ok_or (slice_from encoded key_end) decode_corruption
  before ← decode_value_state before_bytes
  after_start ← ok_or (checked_below (2 ^ 64) (key_end + before.1)) decode_corruption
  after_bytes ← ok_or (slice_from encoded after_start) decode_corruption
  after ← decode_value_state after_bytes
  consumed ← ok_or (checked_below (2 ^ 64) (after_start + after.1)) decode_corruption
  reject_if (not (consumed == length encoded)) decode_corruption
  validate_value_state_key_len false before.0 (length user_key)
  validate_value_state_key_len false after.0 (length user_key)
  ok (record { user_key = user_key; before_state = before.0; after_state = after.0 })
