-- ===== src/Vlog/Planner/Plan.antt =====
-- `plan_record` on the production geometry: every record up to the longest is placed, or the last
-- file is full.
use expirkv.Prelude.{
  true, Bool, ◌∙◌, ℕ, ◌+◌, ◌-◌, ◌%◌, ◌≤◌, ◌<◌, ◌≡◌, inl, inr, List, ◌∷◌, Bool-cases, arith,
}
use mathlib.Core.Path.{subst, subst₂}
use expirkv.Error.{◌>>=◌, StorageError, Result, ok, err, bind-eq-ok, bind-eq-err, Result-cases}
use expirkv.Vlog.Errors.{capacity_error}
use expirkv.Vlog.Pointer.{max_vlog_file_id, max_kv_record_len}
use expirkv.Vlog.Geometry.{VLogPosition, production, page_end_min_size, validate_record_start}
use expirkv.Vlog.Planner.{
  LayoutPrelude, LayoutPlanner, RecordPlacement, leave_full_file, open_page, ensure_record_area,
  needs_page_end, close_page, choose_page, plan_placed, plan_record_inner, plan_record,
}
use expirkv.Vlog.Planner.Invariant.{IsReady, IsRecordArea, AtOrAfter, remaining_of_area}
use expirkv.Vlog.Planner.Records.{
  AtOrAfter-trans, ensure_record_area-ok, ensure_record_area-err, FitsPage, FitsPage-of_test,
  FitsPage-of_fresh, IsPlaced, place_record-ok, place_record-IsPlaced, closed-IsReady,
}

-- From a page boundary the record area that is opened is that of a fresh page.
leave_boundary :
    (p q : VLogPosition)
    → p.offset % 65_536 ≡ 0
    → leave_full_file production p ≡ ok q
    → q.offset % 65_536 ≡ 0
unfolding leave_full_file
leave_boundary p q b h = ground arith

open_boundary :
    (q : VLogPosition) (r : VLogPosition × List LayoutPrelude)
    → q.offset % 65_536 ≡ 0
    → open_page production q ≡ ok r
    → r.0.offset % 65_536 ≤ 64
unfolding open_page
open_boundary q r b h = ground arith

ensure_boundary :
    (p : VLogPosition) (r : VLogPosition × List LayoutPrelude)
    → p.offset % 65_536 ≡ 0
    → ensure_record_area production p ≡ ok r
    → r.0.offset % 65_536 ≤ 64
unfolding ensure_record_area
ensure_boundary p r b h =
    let (q, left, rest) = bind-eq-ok (leave_full_file production p) _ h in
    let (opened, done, rest') = bind-eq-ok (open_page production q) _ rest in
    let (valid, checked, same) = bind-eq-ok (validate_record_start opened.0 production) _ rest' in
    open_boundary q r (leave_boundary p q b left) (done ∙ same)

abbrev end_of_page : VLogPosition → VLogPosition
end_of_page p = record p { offset = p.offset + (65_536 - p.offset % 65_536) }

-- Closing a page from a record area moves to its end, and opens the next page there.
close_page-eq :
    (p : VLogPosition)
    → IsRecordArea p
    → close_page production p (65_536 - p.offset % 65_536) ≡ (
        ensure_record_area production (end_of_page p) >>= λ opened.
        ok (opened.0, LayoutPrelude.page_end p (65_536 - p.offset % 65_536) ∷ opened.1))
unfolding close_page
close_page-eq p area = ground arith

-- From `p` a record area was found at `q` that takes a record of this length.
record Landed (p q : VLogPosition) (len : ℕ) : Type 0 where
  area : IsRecordArea q
  order : AtOrAfter p q
  fits : FitsPage q len

IsPlaced_of_eq :
    (p : VLogPosition) (len : ℕ) (a b : LayoutPlanner) (put placed : RecordPlacement)
    → ◌≡◌ {A = Result (LayoutPlanner × RecordPlacement)} (ok (a, put)) (ok (b, placed))
    → IsPlaced p len a put
    → IsPlaced p len b placed
IsPlaced_of_eq p len a b put placed e h =
    let same_planner : a ≡ b = cc in
    let same_placed : put ≡ placed = cc in
    subst₂ (λ x y. IsPlaced p len x y) same_planner same_placed h

module _ (len : ℕ) (short : len ≤ max_kv_record_len) where
  close_page-ok :
      (p : VLogPosition) (area : IsRecordArea p) (r : VLogPosition × List LayoutPrelude)
      → close_page production p (65_536 - p.offset % 65_536) ≡ ok r
      → Landed p r.0 len
  close_page-ok p area r h =
      let (opened, done, same) =
        bind-eq-ok (ensure_record_area production (end_of_page p)) _
          (rw (close_page-eq p area) at h) in
      let (area', order, near) =
        ensure_record_area-ok (end_of_page p) (closed-IsReady p area) opened done in
      let fresh = ensure_boundary (end_of_page p) opened (omega arith) done in
      let moved : opened.0 ≡ r.0 = cc in
      subst (λ q. Landed p q len) moved
        (record {
          area = area';
          order = AtOrAfter-trans {p = p} {q = end_of_page p} {r = opened.0} (omega arith) order;
          fits = FitsPage-of_fresh opened.0 len fresh short;
        })

  choose_page-ok :
      (opened moved : VLogPosition × List LayoutPrelude)
      → IsRecordArea opened.0
      → choose_page production opened (65_536 - opened.0.offset % 65_536) len ≡ ok moved
      → Landed opened.0 moved.0 len
  unfolding choose_page
  choose_page-ok opened moved area h =
      elim (Bool-cases (needs_page_end (65_536 - opened.0.offset % 65_536) len)) [
        | inl yes_end ↦
            let (closed, done, same) =
              bind-eq-ok (close_page production opened.0 (65_536 - opened.0.offset % 65_536)) _
                (rw yes_end at h) in
            let landed : closed.0 ≡ moved.0 = cc in
            subst (λ q. Landed opened.0 q len) landed (close_page-ok opened.0 area closed done)
        | inr stay ↦
            let same : ok opened ≡ ok moved = rw stay at h in
            let landed : opened.0 ≡ moved.0 = cc in
            subst (λ q. Landed opened.0 q len) landed
              (record {
                area = area;
                order = omega arith;
                fits = FitsPage-of_test opened.0 len area stay;
              })
      ]

  close_page-err :
      (p : VLogPosition) (area : IsRecordArea p) {e : StorageError}
      → close_page production p (65_536 - p.offset % 65_536) ≡ err e
      → (e ≡ capacity_error) × (p.file_id ≡ max_vlog_file_id)
  close_page-err p area h =
      elim (bind-eq-err (ensure_record_area production (end_of_page p)) _
        (rw (close_page-eq p area) at h)) [
          | inl failed ↦ ensure_record_area-err (end_of_page p) (closed-IsReady p area) failed
          | inr (_, _, wrong) ↦ absurd (cc)
        ]

  choose_page-err :
      (opened : VLogPosition × List LayoutPrelude) {e : StorageError}
      → IsRecordArea opened.0
      → choose_page production opened (65_536 - opened.0.offset % 65_536) len ≡ err e
      → (e ≡ capacity_error) × (opened.0.file_id ≡ max_vlog_file_id)
  unfolding choose_page
  choose_page-err opened {e} area h =
      elim (Bool-cases (needs_page_end (65_536 - opened.0.offset % 65_536) len)) [
        | inl yes_end ↦
            elim (bind-eq-err (close_page production opened.0 (65_536 - opened.0.offset % 65_536)) _
              (rw yes_end at h)) [
                | inl failed ↦ close_page-err opened.0 area failed
                | inr (_, _, wrong) ↦ absurd (cc)
              ]
        | inr stay ↦ let wrong : ok opened ≡ err e = rw stay at h in absurd (cc)
      ]

  module _ (p : VLogPosition) (ready : IsReady p) where
    plan_placed-IsPlaced :
        (planner : LayoutPlanner) (placed : RecordPlacement)
        → plan_placed (record { geometry = production; position = p }) len ≡ ok (planner, placed)
        → IsPlaced p len planner placed
    unfolding plan_placed
    plan_placed-IsPlaced planner placed h =
        let (opened, e₁, h₁) = bind-eq-ok (ensure_record_area production p) _ h in
        let (area, order, near) = ensure_record_area-ok p ready opened e₁ in
        let h₂ = rw (remaining_of_area opened.0 area) at h₁ in
        let (moved, e₂, h₃) =
          bind-eq-ok (choose_page production opened (65_536 - opened.0.offset % 65_536) len) _ h₂ in
        let landed = choose_page-ok opened moved area e₂ in
        IsPlaced_of_eq p len _ planner _ placed
          (rw (place_record-ok moved.0 landed.area moved.1 len landed.fits) at h₃)
          (place_record-IsPlaced moved.0 landed.area p moved.1 len
            (AtOrAfter-trans {p = p} {q = opened.0} {r = moved.0} order landed.order) landed.fits)

    plan_placed-err :
        {e : StorageError}
        → plan_placed (record { geometry = production; position = p }) len ≡ err e
        → (e ≡ capacity_error) × (max_vlog_file_id ≤ p.file_id + 1)
    unfolding plan_placed
    plan_placed-err {e} h = elim (bind-eq-err (ensure_record_area production p) _ h) [
      | inl failed ↦ let (cap, last) = ensure_record_area-err p ready failed in (cap, omega arith)
      | inr (opened, e₁, h₁) ↦
          let (area, order, near) = ensure_record_area-ok p ready opened e₁ in
          let h₂ = rw (remaining_of_area opened.0 area) at h₁ in
          elim (bind-eq-err (choose_page production opened (65_536 - opened.0.offset % 65_536) len)
            _ h₂) [
              | inl failed ↦
                  let (cap, last) = choose_page-err opened area failed in (cap, omega arith)
              | inr (moved, e₂, h₃) ↦
                  let landed = choose_page-ok opened moved area e₂ in
                  absurd (cc (h₃, place_record-ok moved.0 landed.area moved.1 len landed.fits))
            ]
    ]

    -- On the production geometry a record of legal length that is planned from a ready position is
    -- placed inside one page, past its headers, not before the old position; the next position is
    -- the end of the record, and is ready again.
    pub plan_record-IsPlaced :
        (reserves : ℕ → Bool) (planner : LayoutPlanner) (placed : RecordPlacement)
        → plan_record reserves (record { geometry = production; position = p }) len
          ≡ ok (planner, placed)
        → IsPlaced p len planner placed
    unfolding plan_record plan_record_inner
    plan_record-IsPlaced reserves planner placed h =
        plan_placed-IsPlaced planner placed (ground arith)

    -- On the production geometry planning a record of legal length, at least the smallest record's,
    -- from a ready position succeeds whenever the file ids leave two more files and there is memory
    -- for four preludes.
    pub plan_record-ok :
        (reserves : ℕ → Bool)
        → reserves 4 ≡ true
        → page_end_min_size ≤ len
        → p.file_id + 1 < max_vlog_file_id
        → (r : LayoutPlanner × RecordPlacement) × (plan_record reserves
              (record { geometry = production; position = p })
              len
            ≡ ok r)
    unfolding plan_record plan_record_inner
    plan_record-ok reserves grants least spare =
        let start : LayoutPlanner = record { geometry = production; position = p } in
        elim (Result-cases (plan_placed start len)) [
          | inl (r, done) ↦ (r, ground arith)
          | inr (e, failed) ↦ absurd (omega (arith, plan_placed-err failed))
        ]
