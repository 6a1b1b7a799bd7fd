-- ===== src/Vlog/Geometry.antt =====
-- src/vlog/format.rs: `VLogPosition`, `VLogGeometry` and the page arithmetic.
use expirkv.Prelude.{ℕ, ◌+◌, ◌*◌, ◌/◌, ◌%◌, ◌^◌, Bool, not, ◌||◌, ltb, leb, ◌==◌, if◌then◌else◌}
use expirkv.Error.{
  Result, ok, err, ◌>>=◌, ◌>>◌, ok_or, map_err, reject_if, corruption, invalid_argument,
  invalid_layout,
}
use expirkv.Vlog.Errors.{invalid_vlog_error, decode_error}
use expirkv.Vlog.Pointer.{
  max_vlog_file_id, max_vlog_file_size, vlog_page_size, first_page_record_area_start,
  other_page_record_area_offset, checked_sub, checked_below,
}

abbrev pub page_end_min_size : ℕ
page_end_min_size = 43

pub record VLogPosition : Type 0 where
  pub file_id : ℕ
  pub offset : ℕ

-- `VLogPosition::validate`.
unfoldable pub validate_position : VLogPosition → Result (Unit {0})
unfolding decode_error
validate_position p =
    reject_if (ltb max_vlog_file_id p.file_id || ltb max_vlog_file_size p.offset)
      (decode_error corruption)

-- The derived equality and order.
pub record VLogGeometry : Type 0 where
  pub page_size : ℕ
  pub max_file_size : ℕ
  pub max_file_id : ℕ

abbrev pub production : VLogGeometry
production = record {
  page_size = vlog_page_size;
  max_file_size = max_vlog_file_size;
  max_file_id = max_vlog_file_id;
}

-- `is_multiple_of` for a positive divisor; the first test of `validate` makes the page size positive.
unfoldable pub is_multiple_of : ℕ → ℕ → Bool
is_multiple_of n d = n % d == 0

unfoldable pub validate : VLogGeometry → Result (Unit {0})
unfolding is_multiple_of invalid_vlog_error
validate g = do
  reject_if
      (leb g.page_size first_page_record_area_start
        || ltb vlog_page_size g.page_size
        || g.max_file_size == 0
        || ltb max_vlog_file_size g.max_file_size
        || not (is_multiple_of g.max_file_size g.page_size)
        || ltb max_vlog_file_id g.max_file_id)
      (invalid_vlog_error invalid_argument)
  let page_count = g.max_file_size / g.page_size
  reject_if (page_count == 0 || ltb 65_536 page_count) (invalid_vlog_error invalid_argument)

unfoldable pub validate_for_decode : VLogGeometry → Result (Unit {0})
unfolding validate decode_error
validate_for_decode g = map_err (λ _. decode_error corruption) (validate g)

-- `page_end`: the product is a `u64`, and must not pass the end of the file.
unfoldable pub page_end : ℕ → VLogGeometry → Result ℕ
unfolding decode_error
page_end offset g = do
  reject_if (leb g.max_file_size offset) (decode_error invalid_layout)
  end ←
      ok_or (checked_below (2 ^ 64) ((offset / g.page_size + 1) * g.page_size))
        (decode_error invalid_layout)
  reject_if (ltb g.max_file_size end) (decode_error invalid_layout)
  ok end

unfoldable pub remaining_in_page : ℕ → VLogGeometry → Result ℕ
unfolding page_end
remaining_in_page offset g = do
  end ← page_end offset g
  ok_or (checked_sub end offset) (decode_error invalid_layout)

unfoldable pub validate_record_start : VLogPosition → VLogGeometry → Result (Unit {0})
unfolding decode_error
validate_record_start p g = do
  reject_if (ltb g.max_file_id p.file_id || leb g.max_file_size p.offset)
      (decode_error invalid_layout)
  let area =
      if ltb p.offset g.page_size
      then first_page_record_area_start
      else other_page_record_area_offset
  reject_if (ltb (p.offset % g.page_size) area) (decode_error invalid_layout)

-- `validate_transaction_record_end`: a record leaves its page full, or with room for a page end.
unfoldable pub validate_transaction_record_end : VLogPosition → VLogGeometry → Result (Unit {0})
unfolding remaining_in_page is_multiple_of
validate_transaction_record_end p g = do
  reject_if (ltb g.max_file_id p.file_id || ltb g.max_file_size p.offset) (decode_error corruption)
  if p.offset == g.max_file_size || is_multiple_of p.offset g.page_size then ok tt else do
    remaining ← map_err (λ _. decode_error corruption) (remaining_in_page p.offset g)
    reject_if (ltb remaining page_end_min_size) (decode_error corruption)

-- `next_chunk_position`: a full file continues at the start of the next.
unfoldable pub next_chunk_position : VLogPosition → VLogGeometry → Result VLogPosition
unfolding decode_error
next_chunk_position p g =
    if ltb p.offset g.max_file_size
    then ok p
    else if not (p.offset == g.max_file_size) || leb g.max_file_id p.file_id
    then err (decode_error corruption)
    else ok (record { file_id = p.file_id + 1; offset = 0 })
