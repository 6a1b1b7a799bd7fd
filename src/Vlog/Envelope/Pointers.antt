-- ===== src/Vlog/Envelope/Pointers.antt =====
-- The value pointers that a prepared envelope hands out, against its operations.
use expirkv.Prelude.{
  ℕ, ◌+◌, ◌^◌, ◌≡◌, ◌<◌, ◌⊎◌, inl, inr, refl, sym, ap, Bool, Option, none, some, List, [], ◌∷◌,
  ◌++◌, length, length-append, Bytes, to_le_16, to_le_32, to_le_64, arith,
}
use expirkv.Error.{ok, ◌>>=◌, ok_or, invalid_argument, invalid_layout, bind-eq-ok, Result-cases}
use expirkv.Uuid
use expirkv.Uuid.{Uuid}
use expirkv.Crc.{Crc}
use expirkv.Vlog.Errors.{invalid_vlog_error, decode_error}
use expirkv.Vlog.Pointer.{ValuePointer, checked_below}
use expirkv.Vlog.Geometry.{VLogGeometry}
use expirkv.Vlog.Planner.{RecordPlacement}
use expirkv.Vlog.RecordHeader
use expirkv.Vlog.RecordHeader.{RecordType, RecordHeader, kv_record}
use expirkv.Vlog.Record.{
  KvRecordRef, encode_record, kv_record_body, DeleteRecordRef, encode_delete_record,
  encode_kv_record, validate_identity, write_standard_record_crc, zeroed_record,
}
use expirkv.Vlog.Envelope.{LogicalOperationRef, put, delete, PhysicalChunk}
use expirkv.Vlog.Envelope.Prepare.{Identity, encode_operation, append_placement, prelude_chunks}

-- A chunk is among those that are written.
abbrev pub Holds : List PhysicalChunk → PhysicalChunk → Type 0
Holds [] chunk = ⊥
Holds (c ∷ cs) chunk = (c ≡ chunk) ⊎ Holds cs chunk

pub Holds-left :
    (xs ys : List PhysicalChunk) (chunk : PhysicalChunk) → Holds xs chunk → Holds (xs ++ ys) chunk
Holds-left [] ys chunk h = absurd h
Holds-left (x ∷ xs) ys chunk (inl e) = inl e
Holds-left (x ∷ xs) ys chunk (inr h) = inr (Holds-left xs ys chunk h)

pub Holds-right :
    (xs ys : List PhysicalChunk) (chunk : PhysicalChunk) → Holds ys chunk → Holds (xs ++ ys) chunk
Holds-right [] ys chunk h = h
Holds-right (x ∷ xs) ys chunk h = inr (Holds-right xs ys chunk h)

abbrev pub record_of : Identity → ℕ → Bytes → Bytes → KvRecordRef
record_of i index key value = record {
  commit_seq = i.commit_seq;
  tx_uuid = i.tx_uuid;
  op_index = index;
  key = key;
  value = value;
}

abbrev pub chunk_at : ℕ → ℕ → Bytes → PhysicalChunk
chunk_at file_id offset bytes = record {
  position = record { file_id = file_id; offset = offset };
  bytes = bytes;
}

-- A pointer to the record of this operation: at the pointer's place the chunks hold the encoded record,
-- and its length and the value's are the pointer's.
pub record PointsTo (reserves : ℕ → Bool) (crc : Crc) (i : Identity) (chunks : List PhysicalChunk)
    (index : ℕ) (key value : Bytes) (p : ValuePointer) : Type 0 where
  pub stored : Bytes
  pub encodes : encode_kv_record reserves crc (record_of i index key value) ≡ ok stored
  pub placed : Holds chunks (chunk_at p.file_id p.record_offset stored)
  pub record_len_is : p.record_len ≡ length stored
  pub record_len_fits : length stored ≡ 55 + (length key + length value)
  pub value_len_is : p.value_len ≡ length value
  pub version_is : p.format_version ≡ 0
  pub offset_fits : p.record_offset < 2 ^ 32

module _ (reserves : ℕ → Bool) (crc : Crc) (i : Identity) where
  -- From an index on, each `put` has a pointer to its record, each `delete` has none, and there are no
  -- others.
  abbrev pub PointersFit :
      List PhysicalChunk → ℕ → List LogicalOperationRef → List (Option ValuePointer) → Type 0
  PointersFit chunks index [] [] = Unit
  PointersFit chunks index [] (p ∷ ps) = ⊥
  PointersFit chunks index (o ∷ ops) [] = ⊥
  PointersFit chunks index (put key value ∷ ops) (some p ∷ ps) =
      PointsTo reserves crc i chunks index key value p × PointersFit chunks (index + 1) ops ps
  PointersFit chunks index (put key value ∷ ops) (none ∷ ps) = ⊥
  PointersFit chunks index (delete key ∷ ops) (some p ∷ ps) = ⊥
  PointersFit chunks index (delete key ∷ ops) (none ∷ ps) = PointersFit chunks (index + 1) ops ps

  pub PointsTo-more :
      (xs ys : List PhysicalChunk)
      → ((chunk : PhysicalChunk) → Holds xs chunk → Holds ys chunk)
      → (index : ℕ) (key value : Bytes) (p : ValuePointer)
      → PointsTo reserves crc i xs index key value p
      → PointsTo reserves crc i ys index key value p
  PointsTo-more xs ys more index key value p points = record {
    stored = points.stored;
    encodes = points.encodes;
    placed = more _ points.placed;
    record_len_is = points.record_len_is;
    record_len_fits = points.record_len_fits;
    value_len_is = points.value_len_is;
    version_is = points.version_is;
    offset_fits = points.offset_fits;
  }

  -- More chunks keep the pointers.
  pub PointersFit-more :
      (xs ys : List PhysicalChunk)
      → ((chunk : PhysicalChunk) → Holds xs chunk → Holds ys chunk)
      → (index : ℕ) (ops : List LogicalOperationRef) (ps : List (Option ValuePointer))
      → PointersFit xs index ops ps
      → PointersFit ys index ops ps
  PointersFit-more xs ys more index [] [] h = h
  PointersFit-more xs ys more index [] (p ∷ ps) h = absurd h
  PointersFit-more xs ys more index (o ∷ ops) [] h = absurd h
  PointersFit-more xs ys more index (put key value ∷ ops) (some p ∷ ps) (points, later) = (
    PointsTo-more xs ys more index key value p points,
    PointersFit-more xs ys more (index + 1) ops ps later,
  )
  PointersFit-more xs ys more index (put key value ∷ ops) (none ∷ ps) h = absurd h
  PointersFit-more xs ys more index (delete key ∷ ops) (some p ∷ ps) h = absurd h
  PointersFit-more xs ys more index (delete key ∷ ops) (none ∷ ps) h =
      PointersFit-more xs ys more (index + 1) ops ps h

header_length :
    (crc : Crc) (h : RecordHeader) (bs : Bytes) → RecordHeader.encode crc h ≡ ok bs → length bs ≡ 39
unfolding RecordHeader.encode RecordHeader.layout RecordHeader.covered to_le_64
header_length crc h bs e =
    let same : RecordHeader.layout crc h ≡ bs = ground arith in
    rw (sym same) (
      omega (
        arith,
        length-append (Uuid.to_bytes h.tx_uuid) (to_le_32 (crc.crc32c (RecordHeader.covered h))),
        Uuid.length-to_bytes h.tx_uuid,
      ))

sealed :
    (crc : Crc) (header body : Bytes)
    → length header ≡ 39
    → length (write_standard_record_crc crc (header ++ body)) ≡ 43 + length body
unfolding write_standard_record_crc to_le_32
sealed crc header body e = omega (
  arith,
  length-append header body,
  length-append (header ++ body) (to_le_32 (crc.crc32c (header ++ body))),
)

length-encode_record :
    (reserves : ℕ → Bool) (crc : Crc) (ty : RecordType) (len seq : ℕ) (id : Uuid) (body bs : Bytes)
    → encode_record reserves crc ty len seq id body ≡ ok bs
    → length bs ≡ 43 + length body
unfolding encode_record write_standard_record_crc
length-encode_record reserves crc ty len seq id body bs h =
    let (_, _, h₁) = bind-eq-ok (zeroed_record reserves len) _ h in
    let (header, encodes, h₂) =
      bind-eq-ok (RecordHeader.encode crc (RecordHeader.new ty len seq id)) _ h₁ in
    let e : write_standard_record_crc crc (header ++ body) ≡ bs = cc in
    rw (sym e)
      (sealed crc header body (header_length crc (RecordHeader.new ty len seq id) header encodes))

kv_record_inside :
    (reserves : ℕ → Bool) (crc : Crc) (r : KvRecordRef) (bs : Bytes)
    → encode_kv_record reserves crc r ≡ ok bs
    → encode_record reserves crc kv_record
        (55 + (length r.key + length r.value))
        r.commit_seq
        r.tx_uuid
        (kv_record_body r)
      ≡ ok bs
unfolding encode_kv_record
kv_record_inside reserves crc r bs h =
    elim (Result-cases (validate_identity r.commit_seq r.tx_uuid)) [
      | inl (_, valid) ↦ ground arith
      | inr (_, refused) ↦ absurd (ground arith)
    ]

body_length : (r : KvRecordRef) → length (kv_record_body r) ≡ 12 + (length r.key + length r.value)
unfolding kv_record_body to_le_64 to_le_16
body_length r = omega (arith, length-append r.key r.value)

pub length-encode_kv_record :
    (reserves : ℕ → Bool) (crc : Crc) (r : KvRecordRef) (bs : Bytes)
    → encode_kv_record reserves crc r ≡ ok bs
    → length bs ≡ 55 + (length r.key + length r.value)
length-encode_kv_record reserves crc r bs h = omega (
  arith,
  length-encode_record reserves crc kv_record (55 + (length r.key + length r.value)) r.commit_seq
      r.tx_uuid (kv_record_body r) bs (kv_record_inside reserves crc r bs h),
  body_length r,
)

append_placement_fits :
    (reserves : ℕ → Bool) (crc : Crc) (i : Identity) (g : VLogGeometry)
    (placement : RecordPlacement) (bytes : Bytes) (chunks : List PhysicalChunk)
    → append_placement reserves crc i g placement bytes ≡ ok chunks
    → (length bytes ≡ placement.encoded_len)
      × (preludes : List PhysicalChunk) × (chunks
          ≡ preludes ++ (record { position = placement.record_start; bytes = bytes } ∷ []))
unfolding append_placement
append_placement_fits reserves crc i g placement bytes chunks h =
    elim (Result-cases (prelude_chunks reserves crc i g placement.preludes)) [
      | inl (preludes, done) ↦ (ground arith, preludes, ground arith)
      | inr (_, failed) ↦ absurd (ground arith)
    ]

append_placement-Holds :
    (placement : RecordPlacement) (bytes : Bytes) (preludes chunks : List PhysicalChunk)
    → chunks ≡ preludes ++ (record { position = placement.record_start; bytes = bytes } ∷ [])
    → Holds chunks (chunk_at placement.record_start.file_id placement.record_start.offset bytes)
append_placement-Holds placement bytes preludes chunks e =
    rw e (Holds-right preludes _ _ (inl refl))

-- The pointer that an operation's placement gives.
pub pointer_of : RecordPlacement → ℕ → ValuePointer
pointer_of placement value_len = record {
  format_version = 0;
  file_id = placement.record_start.file_id;
  record_offset = placement.record_start.offset;
  record_len = placement.encoded_len;
  value_len = value_len;
}

pointer_made :
    (placement : RecordPlacement) (bytes : Bytes) (n : ℕ) (encoded : Bytes × Option ValuePointer)
    → (ok_or (checked_below (2 ^ 32) placement.record_start.offset) (decode_error invalid_layout)
        >>= λ offset.
            ok_or (checked_below (2 ^ 16) n) (invalid_vlog_error invalid_argument) >>= λ value_len.
            ok (
              bytes,
              some (record {
                format_version = 0;
                file_id = placement.record_start.file_id;
                record_offset = offset;
                record_len = placement.encoded_len;
                value_len = value_len;
              }),
            ))
      ≡ ok encoded
    → (placement.record_start.offset < 2 ^ 32) × (encoded ≡ (bytes, some (pointer_of placement n)))
unfolding pointer_of
pointer_made placement bytes n encoded h = ground arith

pub put_encoded :
    (reserves : ℕ → Bool) (crc : Crc) (i : Identity) (g : VLogGeometry)
    (placement : RecordPlacement) (index : ℕ) (key value : Bytes)
    (encoded : Bytes × Option ValuePointer) (chunks : List PhysicalChunk)
    → encode_operation reserves crc i placement index (put key value) ≡ ok encoded
    → append_placement reserves crc i g placement encoded.0 ≡ ok chunks
    → (encoded.1 ≡ some (pointer_of placement (length value)))
      × PointsTo reserves crc i chunks index key value (pointer_of placement (length value))
unfolding encode_operation
put_encoded reserves crc i g placement index key value encoded chunks h appended =
    let r = record_of i index key value in
    let (bytes, encodes, h₁) = bind-eq-ok (encode_kv_record reserves crc r) _ h in
    let (fits, e) = pointer_made placement bytes (length value) encoded h₁ in
    let long = length-encode_kv_record reserves crc r bytes encodes in
    let (same_len, preludes, made) =
      append_placement_fits reserves crc i g placement bytes chunks (rw e at appended) in
    (
      ap (λ (x : Bytes × Option ValuePointer). x.1) e,
      record {
        stored = bytes;
        encodes = encodes;
        placed = unfold pointer_of in append_placement-Holds placement bytes preludes chunks made;
        record_len_is = unfold pointer_of in sym same_len;
        record_len_fits = long;
        value_len_is = unfold pointer_of in refl;
        version_is = unfold pointer_of in refl;
        offset_fits = unfold pointer_of in fits;
      },
    )

pub delete_encoded :
    (reserves : ℕ → Bool) (crc : Crc) (i : Identity) (placement : RecordPlacement) (index : ℕ)
    (key : Bytes) (encoded : Bytes × Option ValuePointer)
    → encode_operation reserves crc i placement index (delete key) ≡ ok encoded
    → encoded.1 ≡ none
delete_encoded reserves crc i placement index key encoded h =
    unfold encode_operation in
    let r : DeleteRecordRef = record {
      commit_seq = i.commit_seq;
      tx_uuid = i.tx_uuid;
      op_index = index;
      key = key;
    } in
    let (bytes, encodes, h₁) = bind-eq-ok (encode_delete_record reserves crc r) _ h in
    let e : (bytes, none) ≡ encoded = cc in ap (λ (x : Bytes × Option ValuePointer). x.1) (sym e)
