-- ===== src/Vlog/Planner/Invariant.antt =====
-- On the production geometry the planner keeps every record inside one page, past the headers, and
-- always leaves a page full or with room for a page end.
use expirkv.Prelude.{◌+◌, ◌-◌, ◌%◌, ◌≤◌, ◌<◌, ◌≡◌, ◌≢◌, ◌⊎◌, List, arith}
use expirkv.Error.{StorageError, ok, err}
use expirkv.Vlog.Errors.{capacity_error}
use expirkv.Vlog.Pointer.{max_vlog_file_id, max_vlog_file_size}
use expirkv.Vlog.Geometry.{VLogPosition, production, remaining_in_page, validate_record_start}
use expirkv.Vlog.Planner.{LayoutPrelude, leave_full_file, open_page}

-- A position between two records: a page boundary, or past the headers with room for a page end.
pub record IsReady (p : VLogPosition) : Type 0 where
  pub file_bound : p.file_id ≤ max_vlog_file_id
  pub offset_bound : p.offset ≤ max_vlog_file_size
  pub inside :
      p.offset % 65_536 ≢ 0
      → (64 ≤ p.offset) × (16 ≤ p.offset % 65_536) × (p.offset % 65_536 + 43 ≤ 65_536)

-- `q` is `p`, or comes after it in the log.
abbrev pub AtOrAfter : VLogPosition → VLogPosition → Type 0
AtOrAfter p q = (p.file_id < q.file_id) ⊎ ((p.file_id ≡ q.file_id) × (p.offset ≤ q.offset))

-- A position where a record may start.
pub record IsRecordArea (p : VLogPosition) : Type 0 where
  pub file_bound : p.file_id ≤ max_vlog_file_id
  pub offset_bound : p.offset < max_vlog_file_size
  pub past_first : 64 ≤ p.offset
  pub past_header : 16 ≤ p.offset % 65_536
  pub room : p.offset % 65_536 + 43 ≤ 65_536

module _ (p : VLogPosition) (ready : IsReady p) where
  pub leave_full_file-ok :
      (q : VLogPosition)
      → leave_full_file production p ≡ ok q
      → IsReady q × (q.offset < max_vlog_file_size) × AtOrAfter p q × (q.file_id ≤ p.file_id + 1)
  unfolding leave_full_file
  leave_full_file-ok q h = ground arith

  pub leave_full_file-err :
      {e : StorageError}
      → leave_full_file production p ≡ err e
      → (e ≡ capacity_error) × (p.file_id ≡ max_vlog_file_id)
  unfolding leave_full_file
  leave_full_file-err h = ground arith

-- After the headers of a page, its record area starts, and no `u64` wraps.
module _ (q : VLogPosition) (ready : IsReady q) (short : q.offset < max_vlog_file_size) where
  pub open_page-ok :
      (r : VLogPosition × List LayoutPrelude)
      → open_page production q ≡ ok r
      → IsRecordArea r.0 × AtOrAfter q r.0 × (r.0.file_id ≡ q.file_id)
  unfolding open_page
  open_page-ok r h = ground arith

  pub not-open_page-err : {e : StorageError} → open_page production q ≢ err e
  unfolding open_page
  not-open_page-err h = ground arith

pub not-validate_record_start-err :
    (p : VLogPosition) {e : StorageError}
    → IsRecordArea p
    → validate_record_start p production ≢ err e
unfolding validate_record_start
not-validate_record_start-err p a h = ground arith

pub remaining_of_area :
    (p : VLogPosition)
    → IsRecordArea p
    → remaining_in_page p.offset production ≡ ok (65_536 - p.offset % 65_536)
unfolding remaining_in_page
remaining_of_area p a = ground arith
