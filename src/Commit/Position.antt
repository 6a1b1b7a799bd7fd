-- ===== src/Commit/Position.antt =====
-- src/commit/descriptor.rs: `VLogPos`, a position in the Value Log, and its twelve-byte code.
use expirkv.Prelude.{
  ℕ, ◌^◌, ◌<◌, ◌≡◌, refl, ap, Bool, true, not, ◌&&◌, some, ◌++◌, arith, leb, ◌==◌, length, Bytes,
  to_le_32, to_le_64, from_le_32-to_le, from_le_64-to_le,
}
use expirkv.Error.{Result, ok, ◌>>=◌, ◌>>◌, ok_or, reject_if}
use expirkv.Commit.Errors.{encode_invalid, decode_corruption, read_u32_le, read_u64_le}

abbrev pub max_vlog_file_id : ℕ
max_vlog_file_id = 999_999

abbrev pub max_vlog_offset : ℕ
max_vlog_offset = 2 ^ 32

pub record VLogPos : Type 0 where
  pub file_id : ℕ
  pub offset : ℕ

unfoldable pub is_valid : VLogPos → Bool
is_valid p = leb p.file_id max_vlog_file_id && leb p.offset max_vlog_offset

unfoldable pub encode : VLogPos → Result Bytes
unfolding is_valid
encode p = do
  reject_if (not (is_valid p)) encode_invalid
  ok (to_le_32 p.file_id ++ to_le_64 p.offset)

unfoldable pub decode : Bytes → Result VLogPos
unfolding is_valid
decode encoded = do
  reject_if (not (length encoded == 12)) decode_corruption
  f ← ok_or (read_u32_le encoded 0) decode_corruption
  o ← ok_or (read_u64_le encoded 4) decode_corruption
  let position : VLogPos = record { file_id = f; offset = o }
  reject_if (not (is_valid position)) decode_corruption
  ok position

-- The bytes of a position.
unfoldable pub layout : VLogPos → Bytes
layout p = to_le_32 p.file_id ++ to_le_64 p.offset

read-file_id : (p : VLogPos) → p.file_id < 2 ^ 32 → read_u32_le (layout p) 0 ≡ some p.file_id
unfolding layout read_u32_le to_le_32 to_le_64
read-file_id p h = ap some (from_le_32-to_le p.file_id h)

read-offset : (p : VLogPos) → p.offset < 2 ^ 64 → read_u64_le (layout p) 4 ≡ some p.offset
unfolding layout read_u64_le to_le_32 to_le_64
read-offset p h = ap some (from_le_64-to_le p.offset h)

length-layout : (p : VLogPos) → length (layout p) ≡ 12
unfolding layout to_le_32 to_le_64
length-layout p = refl

encode-ok : (p : VLogPos) (bs : Bytes) → encode p ≡ ok bs → (is_valid p ≡ true) × (bs ≡ layout p)
unfolding encode layout
encode-ok p bs h = ground arith

-- Every Value Log position that `VLogPos::encode` accepts is decoded to itself.
pub decode_position-encode : (p : VLogPos) (bs : Bytes) → encode p ≡ ok bs → decode bs ≡ ok p
unfolding decode
decode_position-encode p bs h =
    let (v, e) = encode-ok p bs h in
    rw e (ground (arith, v, length-layout p, read-file_id p, read-offset p))
