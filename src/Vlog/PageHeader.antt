-- ===== src/Vlog/PageHeader.antt =====
-- src/vlog/format.rs: `PageHeader`, the sixteen bytes at the start of every page.
pub mod RoundTrip
use expirkv.Prelude.{
  ℕ, ◌+◌, Bool, true, not, ◌||◌, Option, none, some, ◌++◌, [], ◌∷◌, ltb, ◌==◌, if◌then◌else◌,
  length, Bytes, to_le_32, sub_slice,
}
use expirkv.Error.{Result, ok, err, ◌>>=◌, ◌>>◌, ok_or, reject_if, corruption, invalid_argument}
use expirkv.Crc.{Crc}
use expirkv.Commit.Keys.{differs}
use expirkv.Vlog.Errors.{invalid_vlog_error, decode_error, read_u32}
use expirkv.Vlog.Pointer.{max_vlog_file_id}

abbrev pub page_header_magic : Bytes
page_header_magic = b'R' ∷ b'K' ∷ b'V' ∷ b'P' ∷ []

pub record PageHeader : Type 0 where
  pub file_id : ℕ
  pub page_no : ℕ

unfoldable pub covered : PageHeader → Bytes
covered h = page_header_magic ++ (to_le_32 h.file_id ++ to_le_32 h.page_no)

unfoldable pub layout : Crc → PageHeader → Bytes
unfolding covered
layout crc h = covered h ++ to_le_32 (crc.crc32c (covered h))

unfoldable pub encode : Crc → PageHeader → Result Bytes
encode crc h = do
  reject_if (ltb max_vlog_file_id h.file_id || ltb 65_535 h.page_no)
      (invalid_vlog_error invalid_argument)
  ok (layout crc h)

unfoldable pub decode : Crc → Bytes → Result PageHeader
unfolding differs
decode crc encoded = do
  reject_if (not (length encoded == 16) || differs (sub_slice encoded 0 4) page_header_magic)
      (decode_error corruption)
  stored_crc ← read_u32 encoded 12
  covered_bytes ← ok_or (sub_slice encoded 0 12) (decode_error corruption)
  reject_if (not (crc.crc32c covered_bytes == stored_crc)) (decode_error corruption)
  file ← read_u32 encoded 4
  page ← read_u32 encoded 8
  reject_if (ltb max_vlog_file_id file || ltb 65_535 page) (decode_error corruption)
  ok (record { file_id = file; page_no = page })
