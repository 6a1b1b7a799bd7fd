-- ===== src/Vlog/Pointer/Bounds.antt =====
-- What a validated pointer says of the record and the value that it points to.
use expirkv.Prelude.{ℕ, ◌+◌, ◌%◌, ◌≤◌, ◌<◌, ◌≡◌, arith}
use expirkv.Error.{ok}
use expirkv.Vlog.Pointer.{
  ValuePointer, ValuePointerLayout, max_vlog_file_size, vlog_page_size,
  first_page_record_area_start, layout, validate_file_bounds,
}

-- A layout places the key before the value and the value before the checksum, inside the record.
pub record IsLaidOut (p : ValuePointer) (l : ValuePointerLayout) : Type 0 where
  pub key_pos : 0 < l.key_len
  pub parts : 51 + l.key_len + p.value_len + 4 ≡ p.record_len
  pub relative : l.value_relative_offset ≡ 51 + l.key_len
  pub start : l.value_start ≡ p.record_offset + l.value_relative_offset
  pub stop : l.value_end ≡ l.value_start + p.value_len
  pub record_stop : l.record_end ≡ l.value_end + 4

pub layout-IsLaidOut : (p : ValuePointer) (l : ValuePointerLayout) → layout p ≡ ok l → IsLaidOut p l
unfolding layout
layout-IsLaidOut p l h = ground arith

-- A record lies within the file and within one page, past that page's headers.
pub record IsPlaced (p : ValuePointer) (l : ValuePointerLayout) (file_size : ℕ) : Type 0 where
  pub in_file : l.record_end ≤ file_size
  pub file_bounded : file_size ≤ max_vlog_file_size
  pub past_headers : first_page_record_area_start ≤ p.record_offset
  pub past_page_header : 16 ≤ p.record_offset % vlog_page_size
  pub one_page : p.record_offset % vlog_page_size + p.record_len ≤ vlog_page_size

module _ (p : ValuePointer) (file_size : ℕ) (l : ValuePointerLayout) where
  layout-ok : validate_file_bounds p file_size ≡ ok l → layout p ≡ ok l
  unfolding validate_file_bounds
  layout-ok h = ground arith

  placed :
      validate_file_bounds p file_size ≡ ok l
      → l.record_end ≡ p.record_offset + p.record_len
      → IsPlaced p l file_size
  unfolding validate_file_bounds
  placed h e = ground arith

  -- A pointer that `validate_file_bounds` accepts for a file size points at a record that lies
  -- inside the file and inside one page, past that page's headers, with its key, its value and its
  -- checksum one after the other.
  pub validate_file_bounds-IsPlaced :
      validate_file_bounds p file_size ≡ ok l → IsLaidOut p l × IsPlaced p l file_size
  validate_file_bounds-IsPlaced h =
      let out = layout-IsLaidOut p l (layout-ok h) in (out, placed h (omega arith))
