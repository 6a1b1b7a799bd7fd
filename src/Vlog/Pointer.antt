-- ===== src/Vlog/Pointer.antt =====
-- src/vlog/format.rs: `ValuePointer`, which the index stores for a key, its sixteen-byte code, and the
-- layout that it determines.
pub mod RoundTrip
pub mod Bounds
use expirkv.Prelude.{
  ℕ, ◌+◌, ◌-◌, ◌*◌, ◌/◌, ◌^◌, Bool, true, false, not, ◌||◌, Option, none, some, ◌++◌, ltb, leb,
  ◌==◌, if◌then◌else◌, length, Bytes, to_le_16, to_le_32,
}
use expirkv.Error.{
  Result, ok, err, ◌>>=◌, ◌>>◌, ok_or, map_err, reject_if, corruption, incompatible_format,
}
use expirkv.Vlog.Errors.{encode_error, decode_error, read_u16, read_u32}

abbrev pub value_pointer_format_version : ℕ
value_pointer_format_version = 0

abbrev pub max_vlog_file_id : ℕ
max_vlog_file_id = 999_999

abbrev pub max_vlog_file_size : ℕ
max_vlog_file_size = 2 ^ 32

abbrev pub vlog_page_size : ℕ
vlog_page_size = 65_536

abbrev pub first_page_record_area_start : ℕ
first_page_record_area_start = 64

abbrev pub other_page_record_area_offset : ℕ
other_page_record_area_offset = 16

abbrev pub min_kv_record_len : ℕ
min_kv_record_len = 56

abbrev pub max_kv_record_len : ℕ
max_kv_record_len = 60_055

abbrev pub max_key_value_size : ℕ
max_key_value_size = 60_000

abbrev pub kv_record_fixed_len_with_crc : ℕ
kv_record_fixed_len_with_crc = 55

abbrev pub record_crc_len : ℕ
record_crc_len = 4

pub record ValuePointer : Type 0 where
  pub format_version : ℕ
  pub file_id : ℕ
  pub record_offset : ℕ
  pub record_len : ℕ
  pub value_len : ℕ

pub record ValuePointerLayout : Type 0 where
  pub key_len : ℕ
  pub value_relative_offset : ℕ
  pub value_start : ℕ
  pub value_end : ℕ
  pub record_end : ℕ

-- `checked_sub`, `checked_add` and `checked_mul` at a word of the given size, and `u16::try_from`.
abbrev pub checked_sub : ℕ → ℕ → Option ℕ
checked_sub a b = if ltb a b then none else some (a - b)

abbrev pub checked_below : ℕ → ℕ → Option ℕ
checked_below limit n = if ltb n limit then some n else none

unfoldable pub validate_fields : ValuePointer → Result (Unit {0})
unfolding decode_error
validate_fields p = do
  reject_if (not (p.format_version == value_pointer_format_version))
      (decode_error incompatible_format)
  reject_if
      (ltb max_vlog_file_id p.file_id
        || ltb p.record_len min_kv_record_len
        || ltb max_kv_record_len p.record_len
        || ltb max_key_value_size p.value_len)
      (decode_error corruption)
  payload ← ok_or (checked_sub p.record_len kv_record_fixed_len_with_crc) (decode_error corruption)
  key ← ok_or (checked_sub payload p.value_len) (decode_error corruption)
  total ← ok_or (checked_below (2 ^ 32) (key + p.value_len)) (decode_error corruption)
  reject_if (key == 0 || ltb max_key_value_size total) (decode_error corruption)

unfoldable pub bytes : ValuePointer → Bytes
bytes p =
    to_le_16 p.format_version
    ++ (to_le_32 p.file_id
        ++ (to_le_32 p.record_offset ++ (to_le_32 p.record_len ++ to_le_16 p.value_len)))

unfoldable pub encode : ValuePointer → Result Bytes
unfolding encode_error
encode p = do map_err (λ _. encode_error) (validate_fields p); ok (bytes p)

unfoldable pub decode : Bytes → Result ValuePointer
decode encoded = do
  reject_if (not (length encoded == 16)) (decode_error corruption)
  version ← read_u16 encoded 0
  reject_if (not (version == value_pointer_format_version)) (decode_error incompatible_format)
  file ← read_u32 encoded 2
  offset ← read_u32 encoded 6
  len ← read_u32 encoded 10
  value ← read_u16 encoded 14
  let pointer : ValuePointer = record {
    format_version = version;
    file_id = file;
    record_offset = offset;
    record_len = len;
    value_len = value;
  }
  validate_fields pointer
  ok pointer

unfoldable pub layout : ValuePointer → Result ValuePointerLayout
unfolding validate_fields
layout p = do
  validate_fields p
  payload ← ok_or (checked_sub p.record_len kv_record_fixed_len_with_crc) (decode_error corruption)
  key ← ok_or (checked_sub payload p.value_len) (decode_error corruption)
  key_u16 ← ok_or (checked_below (2 ^ 16) key) (decode_error corruption)
  without_crc ← ok_or (checked_sub p.record_len record_crc_len) (decode_error corruption)
  relative ← ok_or (checked_sub without_crc p.value_len) (decode_error corruption)
  record_end ←
      ok_or (checked_below (2 ^ 64) (p.record_offset + p.record_len)) (decode_error corruption)
  start ← ok_or (checked_below (2 ^ 64) (p.record_offset + relative)) (decode_error corruption)
  end ← ok_or (checked_sub record_end record_crc_len) (decode_error corruption)
  ok (record {
    key_len = key_u16;
    value_relative_offset = relative;
    value_start = start;
    value_end = end;
    record_end = record_end;
  })

unfoldable pub validate_file_bounds : ValuePointer → ℕ → Result ValuePointerLayout
validate_file_bounds p file_st_size = do
  l ← layout p
  reject_if
      (ltb max_vlog_file_size file_st_size
        || ltb max_vlog_file_size l.record_end
        || ltb file_st_size l.record_end)
      (decode_error corruption)
  let page_no = p.record_offset / vlog_page_size
  page_start ← ok_or (checked_below (2 ^ 64) (page_no * vlog_page_size)) (decode_error corruption)
  area ←
      ok_or
        (if page_no == 0
          then some first_page_record_area_start
          else checked_below (2 ^ 64) (page_start + other_page_record_area_offset))
        (decode_error corruption)
  page_end ← ok_or (checked_below (2 ^ 64) (page_start + vlog_page_size)) (decode_error corruption)
  reject_if (ltb p.record_offset area || ltb page_end l.record_end) (decode_error corruption)
  ok l
