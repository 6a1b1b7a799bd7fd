-- ===== src/Vlog/Envelope/Fit.antt =====
-- The value pointers of a whole envelope, against its operations.
use expirkv.Prelude.{
  ℕ, ◌+◌, ◌^◌, ◌≡◌, sym, ap, Bool, not, Option, List, [], ◌∷◌, ◌++◌, length, get_elem?, Bytes,
}
use expirkv.Error.{
  Result, ok, err, ok_or, reject_if, invalid_layout, capacity_exceeded, resource_exhausted,
  bind-eq-ok,
}
use expirkv.Crc.{Crc}
use expirkv.Vlog.Errors.{invalid_vlog_error, decode_error}
use expirkv.Vlog.Pointer.{ValuePointer, checked_below}
use expirkv.Vlog.Geometry.{VLogGeometry}
use expirkv.Vlog.Planner.{LayoutPlanner, RecordPlacement}
use expirkv.Vlog.Record.{encode_tx_begin, encode_tx_prepared_end}
use expirkv.Vlog.Envelope.{LogicalOperationRef, put, delete, PhysicalChunk, PreparedEnvelope}
use expirkv.Vlog.Envelope.Prepare.{
  Identity, encode_operation, encode_operations, append_placement, prepare_envelope, place_envelope,
  count_chunks, last_placement,
}
use expirkv.Vlog.Envelope.Pointers.{
  Holds, Holds-left, Holds-right, PointersFit, PointsTo-more, PointersFit-more, put_encoded,
  delete_encoded,
}
use mathlib.Core.Path.{subst}

one_fits :
    (reserves : ℕ → Bool) (crc : Crc) (i : Identity) (g : VLogGeometry)
    (placement : RecordPlacement) (index : ℕ) (o : LogicalOperationRef)
    (ops : List LogicalOperationRef) (encoded : Bytes × Option ValuePointer)
    (chunks rest : List PhysicalChunk) (pointers : List (Option ValuePointer))
    → encode_operation reserves crc i placement index o ≡ ok encoded
    → append_placement reserves crc i g placement encoded.0 ≡ ok chunks
    → PointersFit reserves crc i rest (index + 1) ops pointers
    → PointersFit reserves crc i (chunks ++ rest) index (o ∷ ops) (encoded.1 ∷ pointers)
one_fits reserves crc i g placement index (put key value) ops encoded chunks rest pointers h
      appended later =
    let (e, points) =
      put_encoded reserves crc i g placement index key value encoded chunks h appended in
    rw e (
      PointsTo-more reserves crc i chunks (chunks ++ rest) (Holds-left chunks rest) index key value
          _ points,
      PointersFit-more reserves crc i rest (chunks ++ rest) (Holds-right chunks rest) (index + 1)
          ops pointers later,
    )
one_fits reserves crc i g placement index (delete key) ops encoded chunks rest pointers h appended
      later =
    rw (delete_encoded reserves crc i placement index key encoded h) (
      PointersFit-more reserves crc i rest (chunks ++ rest) (Holds-right chunks rest) (index + 1)
        ops pointers later)

operations_step :
    (reserves : ℕ → Bool) (crc : Crc) (i : Identity) (g : VLogGeometry)
    (placements : List RecordPlacement) (index : ℕ) (o : LogicalOperationRef)
    (ops : List LogicalOperationRef) (out : List PhysicalChunk × List (Option ValuePointer))
    → encode_operations reserves crc i g placements index (o ∷ ops) ≡ ok out
    → (placement : RecordPlacement) × (encoded : Bytes × Option ValuePointer) × (chunks : List
        PhysicalChunk)
      × (rest : List PhysicalChunk × List (Option ValuePointer)) × (encode_operation reserves crc i
            placement index o
          ≡ ok encoded)
      × (append_placement reserves crc i g placement encoded.0 ≡ ok chunks)
      × (encode_operations reserves crc i g placements (index + 1) ops ≡ ok rest)
      × (out ≡ (chunks ++ rest.0, encoded.1 ∷ rest.1))
unfolding encode_operations
operations_step reserves crc i g placements index o ops out h =
    let (placement, _, h₁) =
      bind-eq-ok (ok_or (get_elem? placements (index + 1)) (decode_error invalid_layout)) _ h in
    let (encoded, e₁, h₂) = bind-eq-ok (encode_operation reserves crc i placement index o) _ h₁ in
    let (chunks, e₂, h₃) =
      bind-eq-ok (append_placement reserves crc i g placement encoded.0) _ h₂ in
    let (rest, e₃, h₄) =
      bind-eq-ok (encode_operations reserves crc i g placements (index + 1) ops) _ h₃ in
    let e : (chunks ++ rest.0, encoded.1 ∷ rest.1) ≡ out = cc in
    (placement, encoded, chunks, rest, e₁, e₂, e₃, sym e)

encode_operations-PointersFit :
    (reserves : ℕ → Bool) (crc : Crc) (i : Identity) (g : VLogGeometry)
    (placements : List RecordPlacement) (index : ℕ) (ops : List LogicalOperationRef)
    (out : List PhysicalChunk × List (Option ValuePointer))
    → encode_operations reserves crc i g placements index ops ≡ ok out
    → PointersFit reserves crc i out.0 index ops out.1
encode_operations-PointersFit reserves crc i g placements index [] out h =
    let e : ([], []) ≡ out = unfold encode_operations in cc in rw (sym e) tt
encode_operations-PointersFit reserves crc i g placements index (o ∷ ops) out h =
    let (placement, encoded, chunks, rest, e₁, e₂, e₃, e) =
      operations_step reserves crc i g placements index o ops out h in
    let later = encode_operations-PointersFit reserves crc i g placements (index + 1) ops rest e₃ in
    rw e (one_fits reserves crc i g placement index o ops encoded chunks rest.0 rest.1 e₁ e₂ later)

abbrev parts_in :
    Result (LayoutPlanner × PreparedEnvelope) → List PhysicalChunk × List (Option ValuePointer)
parts_in (ok out) = (out.1.chunks, out.1.value_pointers)
parts_in (err e) = ([], [])

-- What an envelope keeps of its parts.
envelope_middle :
    (reserves : ℕ → Bool) (crc : Crc) (planner : LayoutPlanner) (i : Identity)
    (ops : List LogicalOperationRef) (out : LayoutPlanner × PreparedEnvelope)
    → prepare_envelope reserves crc planner i ops ≡ ok out
    → (placements : List RecordPlacement) × (middle : List PhysicalChunk
        × List (Option ValuePointer))
      × (encode_operations reserves crc i planner.geometry placements 0 ops ≡ ok middle)
      × (before : List PhysicalChunk) × (after : List PhysicalChunk) × (◌≡◌
          {A = List PhysicalChunk × List (Option ValuePointer)}
          (out.1.chunks, out.1.value_pointers)
          (before ++ (middle.0 ++ after), middle.1))
unfolding prepare_envelope
envelope_middle reserves crc planner i ops out h =
    let (placed, _, h₁) = bind-eq-ok (place_envelope reserves crc planner i ops) _ h in
    let (capacity, _, h₂) =
      bind-eq-ok
        (ok_or (checked_below (2 ^ 64) (count_chunks placed.placements))
          (invalid_vlog_error capacity_exceeded))
        _ h₁ in
    let (_, _, h₃) =
      bind-eq-ok (reject_if (not (reserves capacity)) (invalid_vlog_error resource_exhausted)) _
        h₂ in
    let (_, _, h₄) =
      bind-eq-ok (reject_if (not (reserves (length ops))) (invalid_vlog_error resource_exhausted)) _
        h₃ in
    let (begin_bytes, _, h₅) = bind-eq-ok (encode_tx_begin reserves crc placed.begin) _ h₄ in
    let (first, _, h₆) =
      bind-eq-ok (ok_or (get_elem? placed.placements 0) (decode_error invalid_layout)) _ h₅ in
    let (begin_chunks, _, h₇) =
      bind-eq-ok (append_placement reserves crc i planner.geometry first begin_bytes) _ h₆ in
    let (middle, e, h₈) =
      bind-eq-ok (encode_operations reserves crc i planner.geometry placed.placements 0 ops) _ h₇ in
    let (last, _, h₉) =
      bind-eq-ok (ok_or (last_placement placed.placements) (decode_error invalid_layout)) _ h₈ in
    let (footer_bytes, _, h₁₀) =
      bind-eq-ok (encode_tx_prepared_end reserves crc placed.footer) _ h₉ in
    let (end_chunks, _, h₁₁) =
      bind-eq-ok (append_placement reserves crc i planner.geometry last footer_bytes) _ h₁₀ in
    (
      placed.placements,
      middle,
      e,
      begin_chunks,
      end_chunks,
      ap (λ (r : Result (LayoutPlanner × PreparedEnvelope)). parts_in r) (sym h₁₁),
    )

-- A prepared envelope gives each `put` a pointer to its own record: among the envelope's chunks, at the
-- file and offset of the pointer, stands the encoded record of this operation with its index, key and
-- value, the pointer's lengths are those of the record (the key and the value with 55 bytes around
-- them) and of the value, and its offset fits a `u32`. A `delete` gets no pointer.
pub prepare_envelope-PointersFit :
    (reserves : ℕ → Bool) (crc : Crc) (planner : LayoutPlanner) (i : Identity)
    (ops : List LogicalOperationRef) (out : LayoutPlanner × PreparedEnvelope)
    → prepare_envelope reserves crc planner i ops ≡ ok out
    → PointersFit reserves crc i out.1.chunks 0 ops out.1.value_pointers
prepare_envelope-PointersFit reserves crc planner i ops out h =
    let (placements, middle, e, before, after, same) =
      envelope_middle reserves crc planner i ops out h in
    let fits =
      encode_operations-PointersFit reserves crc i planner.geometry placements 0 ops middle e in
    let inside : (chunk : PhysicalChunk)
        → Holds middle.0 chunk
        → Holds (before ++ (middle.0 ++ after)) chunk =
      λ chunk held.
        Holds-right before (middle.0 ++ after) chunk (Holds-left middle.0 after chunk held) in
    let all =
      PointersFit-more reserves crc i middle.0 (before ++ (middle.0 ++ after)) inside 0 ops middle.1
        fits in
    subst
      (λ (parts : List PhysicalChunk × List (Option ValuePointer)).
        PointersFit reserves crc i parts.0 0 ops parts.1)
      (sym same) all
