-- ===== src/Vlog/Planner/Records.antt =====
-- Planning a record on the production geometry: where the record goes, and the only failure.
use expirkv.Prelude.{refl, ◌∙◌, ℕ, ◌+◌, ◌-◌, ◌%◌, ◌≤◌, ◌≡◌, ◌⊎◌, inl, inr, false, List, arith}
use expirkv.Error.{◌>>=◌, StorageError, ok, err, bind-eq-ok, bind-eq-err}
use expirkv.Vlog.Errors.{capacity_error}
use expirkv.Vlog.Pointer.{max_vlog_file_id, max_kv_record_len}
use expirkv.Vlog.Geometry.{VLogPosition, production, validate_record_start}
use expirkv.Vlog.Planner.{
  LayoutPrelude, LayoutPlanner, RecordPlacement, leave_full_file, open_page, ensure_record_area,
  needs_page_end, place_record,
}
use expirkv.Vlog.Planner.Invariant.{
  IsReady, IsRecordArea, leave_full_file-ok, leave_full_file-err, open_page-ok, AtOrAfter,
  not-open_page-err, not-validate_record_start-err, remaining_of_area,
}

pub AtOrAfter-trans : {p q r : VLogPosition} → AtOrAfter p q → AtOrAfter q r → AtOrAfter p r
AtOrAfter-trans h k = ground arith

module _ (p : VLogPosition) (ready : IsReady p) where
  pub ensure_record_area-ok :
      (r : VLogPosition × List LayoutPrelude)
      → ensure_record_area production p ≡ ok r
      → IsRecordArea r.0 × AtOrAfter p r.0 × (r.0.file_id ≤ p.file_id + 1)
  unfolding ensure_record_area
  ensure_record_area-ok r h =
      let (q, left, rest) = bind-eq-ok (leave_full_file production p) _ h in
      let (opened, done, rest') = bind-eq-ok (open_page production q) _ rest in
      let (valid, checked, same) = bind-eq-ok (validate_record_start opened.0 production) _ rest' in
      let (ready', short, order, near) = leave_full_file-ok p ready q left in
      let (area, order', same_file) = open_page-ok q ready' short r (done ∙ same) in
      (area, AtOrAfter-trans {p = p} {q = q} {r = r.0} order order', omega arith)

  pub ensure_record_area-err :
      {e : StorageError}
      → ensure_record_area production p ≡ err e
      → (e ≡ capacity_error) × (p.file_id ≡ max_vlog_file_id)
  unfolding ensure_record_area
  ensure_record_area-err {e} h = elim (bind-eq-err (leave_full_file production p) _ h) [
    | inl left ↦ leave_full_file-err p ready left
    | inr (q, left, rest) ↦ absurd (opened q left rest)
  ]
    where
      opened :
          (q : VLogPosition)
          → leave_full_file production p ≡ ok q
          → (open_page production q >>= λ opened.
              validate_record_start opened.0 production >>= λ _. ok opened)
            ≡ err e
          → ⊥
      opened q left rest =
          let (ready', short, order, near) = leave_full_file-ok p ready q left in
          elim (bind-eq-err (open_page production q) _ rest) [
            | inl failed ↦ not-open_page-err q ready' short failed
            | inr (r, done, rest') ↦
                elim (bind-eq-err (validate_record_start r.0 production) _ rest') [
                  | inl failed ↦
                      not-validate_record_start-err r.0 (open_page-ok q ready' short r done).0
                        failed
                  | inr (_, _, wrong) ↦ cc
                ]
          ]

-- A record of this length fills the page, or leaves room for a page end.
abbrev pub FitsPage : VLogPosition → ℕ → Type 0
FitsPage p len = (p.offset % 65_536 + len ≡ 65_536) ⊎ (p.offset % 65_536 + len + 43 ≤ 65_536)

pub FitsPage-of_test :
    (p : VLogPosition) (len : ℕ)
    → IsRecordArea p
    → needs_page_end (65_536 - p.offset % 65_536) len ≡ false
    → FitsPage p len
unfolding needs_page_end
FitsPage-of_test p len a h = ground arith

-- A page that was just opened has room for every key-value record.
pub FitsPage-of_fresh :
    (p : VLogPosition) (len : ℕ) → p.offset % 65_536 ≤ 64 → len ≤ max_kv_record_len → FitsPage p len
FitsPage-of_fresh p len h fits = omega arith

-- Where a record was placed, and the position after it.
pub record IsPlaced (before : VLogPosition) (len : ℕ) (planner : LayoutPlanner)
    (placed : RecordPlacement) : Type 0 where
  pub geometry_same : planner.geometry ≡ production
  pub ready : IsReady planner.position
  pub area : IsRecordArea placed.record_start
  pub len_same : placed.encoded_len ≡ len
  pub one_page : placed.record_start.offset % 65_536 + len ≤ 65_536
  pub after :
      planner.position
      ≡ record { file_id = placed.record_start.file_id; offset = placed.record_start.offset + len }
  pub order : AtOrAfter before placed.record_start

module _ (p : VLogPosition) (area : IsRecordArea p) where
  pub place_record-ok :
      (preludes : List LayoutPrelude) (len : ℕ)
      → FitsPage p len
      → place_record production p preludes len
        ≡ ok (
          record { geometry = production; position = record p { offset = p.offset + len } },
          record { preludes = preludes; record_start = p; encoded_len = len },
        )
  unfolding place_record
  place_record-ok preludes len fits = rw (remaining_of_area p area) (ground arith)

  pub place_record-IsPlaced :
      (before : VLogPosition) (preludes : List LayoutPrelude) (len : ℕ)
      → AtOrAfter before p
      → FitsPage p len
      → IsPlaced before len
          (record { geometry = production; position = record p { offset = p.offset + len } })
          (record { preludes = preludes; record_start = p; encoded_len = len })
  place_record-IsPlaced before preludes len order fits = record {
    geometry_same = refl;
    ready = ground arith;
    area = area;
    len_same = refl;
    one_page = omega arith;
    after = refl;
    order = order;
  }

  pub closed-IsReady : IsReady (record p { offset = p.offset + (65_536 - p.offset % 65_536) })
  closed-IsReady = ground arith
