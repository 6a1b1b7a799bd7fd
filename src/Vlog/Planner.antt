-- ===== src/Vlog/Planner.antt =====
-- src/vlog/format.rs: `LayoutPlanner`, which places a transaction's records on pages and files. A
-- mutable planner is passed and returned; on an error the planner is dropped, as `plan_record`
-- works on a clone. `reserves n` says whether the allocator grants room for `n` preludes.
pub mod Invariant
pub mod Records
pub mod Plan
use expirkv.Prelude.{
  ℕ, ◌+◌, ◌-◌, ◌/◌, ◌%◌, ◌^◌, Bool, true, false, not, ◌||◌, ◌&&◌, Option, none, some, List, [], ◌∷◌,
  ◌++◌, ltb, leb, ◌==◌, if◌then◌else◌,
}
use expirkv.Error.{
  Result, ok, err, ◌>>=◌, ◌>>◌, ok_or, reject_if, invalid_argument, invalid_layout,
  resource_exhausted,
}
use expirkv.Vlog.Errors.{invalid_vlog_error, capacity_error, decode_error}
use expirkv.Vlog.Pointer.{
  first_page_record_area_start, other_page_record_area_offset, checked_sub, checked_below,
}
use expirkv.Vlog.Geometry
use expirkv.Vlog.Geometry.{
  VLogPosition, VLogGeometry, page_end_min_size, is_multiple_of, remaining_in_page,
  validate_record_start,
}

pub data LayoutPrelude : Type 0 where
  page_header : VLogPosition → ℕ → LayoutPrelude
  file_header : VLogPosition → LayoutPrelude
  page_end : VLogPosition → ℕ → LayoutPrelude

pub record RecordPlacement : Type 0 where
  pub preludes : List LayoutPrelude
  pub record_start : VLogPosition
  pub encoded_len : ℕ

pub record LayoutPlanner : Type 0 where
  pub geometry : VLogGeometry
  pub position : VLogPosition

unfoldable pub empty : VLogGeometry → Result LayoutPlanner
empty g = do
  Geometry.validate g
  ok (record { geometry = g; position = record { file_id = 0; offset = 0 } })

-- Where a page's record area starts before the offset that a planner resumes at.
unfoldable pub inside_headers : VLogGeometry → VLogPosition → Bool
inside_headers g p =
    let page_offset = p.offset % g.page_size in
    let minimum =
      if ltb p.offset g.page_size
      then first_page_record_area_start
      else other_page_record_area_offset in
    not (p.offset == 0)
    && not (p.offset == g.max_file_size)
    && not (page_offset == 0)
    && ltb page_offset minimum

unfoldable pub from_position : VLogGeometry → VLogPosition → Result LayoutPlanner
unfolding inside_headers invalid_vlog_error
from_position g p = do
  Geometry.validate g
  reject_if (ltb g.max_file_id p.file_id || ltb g.max_file_size p.offset)
      (invalid_vlog_error invalid_argument)
  reject_if (inside_headers g p) (invalid_vlog_error invalid_argument)
  ok (record { geometry = g; position = p })

-- The first part of `ensure_record_area`: a full file is followed by the next one.
unfoldable pub leave_full_file : VLogGeometry → VLogPosition → Result VLogPosition
unfolding capacity_error
leave_full_file g p =
    if p.offset == g.max_file_size
    then (if leb g.max_file_id p.file_id then err capacity_error else do
      file ← ok_or (checked_below (2 ^ 32) (p.file_id + 1)) capacity_error
      ok (record { file_id = file; offset = 0 }))
    else ok p

-- The second part: at the start of a page the headers come first.
unfoldable pub open_page : VLogGeometry → VLogPosition → Result (VLogPosition × List LayoutPrelude)
unfolding is_multiple_of capacity_error decode_error
open_page g p =
    if p.offset == 0
    then ok (
      record p { offset = first_page_record_area_start },
      page_header p 0 ∷ file_header (record p { offset = 16 }) ∷ [],
    )
    else if is_multiple_of p.offset g.page_size
    then (do
      page_no ←
          ok_or (checked_below (2 ^ 32) (p.offset / g.page_size)) (decode_error invalid_layout)
      next ←
          ok_or (checked_below (2 ^ 64) (p.offset + other_page_record_area_offset)) capacity_error
      ok (record p { offset = next }, page_header p page_no ∷ []))
    else ok (p, [])

unfoldable pub ensure_record_area :
    VLogGeometry → VLogPosition → Result (VLogPosition × List LayoutPrelude)
ensure_record_area g p = do
  q ← leave_full_file g p
  opened ← open_page g q
  validate_record_start opened.0 g
  ok opened

-- `needs_page_end`: the record does not fit, or would leave too little for a page end.
unfoldable pub needs_page_end : ℕ → ℕ → Bool
needs_page_end remaining len =
    ltb remaining len || not (remaining == len) && leb (remaining - len) 42

-- The branch that closes the current page and moves to the next.
unfoldable pub close_page :
    VLogGeometry → VLogPosition → ℕ → Result (VLogPosition × List LayoutPrelude)
unfolding decode_error
close_page g p remaining = do
  reject_if (ltb remaining page_end_min_size) (decode_error invalid_layout)
  len ← ok_or (checked_below (2 ^ 32) remaining) (decode_error invalid_layout)
  offset ← ok_or (checked_below (2 ^ 64) (p.offset + remaining)) (decode_error invalid_layout)
  opened ← ensure_record_area g (record p { offset = offset })
  ok (opened.0, page_end p len ∷ opened.1)

-- The last part of `plan_record_inner`: the record goes at the position.
unfoldable pub place_record :
    VLogGeometry → VLogPosition → List LayoutPrelude → ℕ → Result (LayoutPlanner × RecordPlacement)
unfolding invalid_vlog_error decode_error capacity_error
place_record g p preludes len = do
  remaining ← remaining_in_page p.offset g
  reject_if (ltb remaining len) (invalid_vlog_error invalid_argument)
  after ← ok_or (checked_sub remaining len) (decode_error invalid_layout)
  reject_if (not (after == 0) && ltb after page_end_min_size) (decode_error invalid_layout)
  offset ← ok_or (checked_below (2 ^ 64) (p.offset + len)) capacity_error
  reject_if (ltb g.max_file_size offset) capacity_error
  ok (
    record { geometry = g; position = record p { offset = offset } },
    record { preludes = preludes; record_start = p; encoded_len = len },
  )

-- The branch on `needs_page_end`.
unfoldable pub choose_page :
    VLogGeometry
    → VLogPosition × List LayoutPrelude
    → ℕ
    → ℕ
    → Result (VLogPosition × List LayoutPrelude)
choose_page g opened remaining len =
    if needs_page_end remaining len
    then (do closed ← close_page g opened.0 remaining; ok (closed.0, opened.1 ++ closed.1))
    else ok opened

-- `plan_record_inner` after the reservation of room for four preludes.
unfoldable pub plan_placed : LayoutPlanner → ℕ → Result (LayoutPlanner × RecordPlacement)
plan_placed planner len = do
  opened ← ensure_record_area planner.geometry planner.position
  remaining ← remaining_in_page opened.0.offset planner.geometry
  moved ← choose_page planner.geometry opened remaining len
  place_record planner.geometry moved.0 moved.1 len

unfoldable pub plan_record_inner :
    (ℕ → Bool) → LayoutPlanner → ℕ → Result (LayoutPlanner × RecordPlacement)
unfolding invalid_vlog_error
plan_record_inner reserves planner len = do
  reject_if (not (reserves 4)) (invalid_vlog_error resource_exhausted)
  plan_placed planner len

unfoldable pub plan_record :
    (ℕ → Bool) → LayoutPlanner → ℕ → Result (LayoutPlanner × RecordPlacement)
unfolding invalid_vlog_error
plan_record reserves planner len = do
  reject_if (ltb len page_end_min_size || ltb planner.geometry.page_size len)
      (invalid_vlog_error invalid_argument)
  plan_record_inner reserves planner len
