-- ===== src/Vlog/PageHeader/RoundTrip.antt =====
-- Decoding gives back the page header that was encoded.
use expirkv.Prelude.{
  ◌≤◌, ◌≡◌, refl, ap, some, arith, length, Bytes, to_le_32, sub_slice, bytes_eq, from_le_32-to_le,
  ==_refl,
}
use expirkv.Error.{ok}
use expirkv.Crc.{Crc, IsCrc}
use expirkv.Vlog.Errors.{read_u32}
use expirkv.Vlog.Pointer.{max_vlog_file_id}
use expirkv.Vlog.PageHeader.{PageHeader, page_header_magic, covered, layout, encode, decode}

record Reads (crc : Crc) (h : PageHeader) : Type 0 where
  len : length (layout crc h) ≡ 16
  magic : sub_slice (layout crc h) 0 4 ≡ some page_header_magic
  checksum : read_u32 (layout crc h) 12 ≡ ok (crc.crc32c (covered h))
  body : sub_slice (layout crc h) 0 12 ≡ some (covered h)
  file : read_u32 (layout crc h) 4 ≡ ok h.file_id
  page : read_u32 (layout crc h) 8 ≡ ok h.page_no

record IsInRange (h : PageHeader) : Type 0 where
  file_bound : h.file_id ≤ max_vlog_file_id
  page_bound : h.page_no ≤ 65_535

module _ (crc : Crc) (laws : IsCrc crc) (h : PageHeader) where
  encode-ok : {bs : Bytes} → encode crc h ≡ ok bs → IsInRange h × (bs ≡ layout crc h)
  unfolding encode
  encode-ok e = ground arith

  reads : IsInRange h → Reads crc h
  unfolding layout read_u32 sub_slice to_le_32
  reads r = record {
    len = refl;
    magic = refl;
    checksum = ap ok (from_le_32-to_le _ (laws.crc32c-lt _));
    body = refl;
    file = ap ok (from_le_32-to_le _ (omega arith));
    page = ap ok (from_le_32-to_le _ (omega arith));
  }

  decode-layout : IsInRange h → decode crc (layout crc h) ≡ ok h
  unfolding decode bytes_eq
  decode-layout range =
      let r = reads range in
      rw (r.len, r.magic, r.checksum, r.body, ==_refl, r.file, r.page) (ground arith)

  -- For every checksum that keeps its documented laws, a page header that the encoder accepts is
  -- decoded to itself.
  pub decode_page_header-encode : (bs : Bytes) → encode crc h ≡ ok bs → decode crc bs ≡ ok h
  decode_page_header-encode bs e = let (range, eq) = encode-ok e in rw eq (decode-layout range)
