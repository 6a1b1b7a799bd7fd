-- ===== src/Vlog/FileHeader.antt =====
-- src/vlog/format.rs: `VLogFileHeader`, which follows the first page header of a Value Log file.
pub mod RoundTrip
use expirkv.Prelude.{
  ℕ, ◌+◌, ◌^◌, Bool, true, not, ◌||◌, Option, none, some, ◌++◌, [], ◌∷◌, ltb, ◌==◌, if◌then◌else◌,
  length, Bytes, to_le_32, to_le_64, sub_slice,
}
use expirkv.Error.{
  Result, ok, err, ◌>>=◌, ◌>>◌, ok_or, map_err, reject_if, corruption, incompatible_format,
}
use expirkv.Uuid
use expirkv.Uuid.{Uuid}
use expirkv.Crc.{Crc}
use expirkv.Commit.Keys.{differs}
use expirkv.Vlog.Errors.{as_encode_error, decode_error, read_u32, read_u64, read_array_16}
use expirkv.Vlog.Pointer.{max_vlog_file_id, max_vlog_file_size, vlog_page_size}

abbrev pub file_header_magic : Bytes
file_header_magic = b'R' ∷ b'K' ∷ b'V' ∷ b'L' ∷ b'O' ∷ b'G' ∷ b'0' ∷ b'0' ∷ []

abbrev pub file_format_version : ℕ
file_format_version = 0

pub record VLogFileHeader : Type 0 where
  pub format_version : ℕ
  pub database_uuid : Uuid
  pub file_id : ℕ
  pub page_size : ℕ
  pub max_file_size : ℕ

unfoldable pub new : Uuid → ℕ → VLogFileHeader
new database_uuid file_id = record {
  format_version = file_format_version;
  database_uuid = database_uuid;
  file_id = file_id;
  page_size = vlog_page_size;
  max_file_size = max_vlog_file_size;
}

unfoldable pub validate : VLogFileHeader → Result (Unit {0})
unfolding Uuid.is_zero decode_error
validate h = do
  reject_if (not (h.format_version == file_format_version)) (decode_error incompatible_format)
  reject_if
      (Uuid.is_zero h.database_uuid
        || ltb max_vlog_file_id h.file_id
        || not (h.page_size == vlog_page_size)
        || not (h.max_file_size == max_vlog_file_size))
      (decode_error corruption)

unfoldable pub covered : VLogFileHeader → Bytes
unfolding Uuid.to_bytes
covered h =
    file_header_magic
    ++ (to_le_32 h.format_version
        ++ (Uuid.to_bytes h.database_uuid
            ++ (to_le_32 h.file_id ++ (to_le_32 h.page_size ++ to_le_64 h.max_file_size))))

unfoldable pub layout : Crc → VLogFileHeader → Bytes
unfolding covered
layout crc h = covered h ++ to_le_32 (crc.crc32c (covered h))

unfoldable pub encode : Crc → VLogFileHeader → Result Bytes
unfolding as_encode_error
encode crc h = do map_err as_encode_error (validate h); ok (layout crc h)

unfoldable pub decode : Crc → Bytes → Result VLogFileHeader
unfolding differs
decode crc encoded = do
  reject_if (not (length encoded == 48) || differs (sub_slice encoded 0 8) file_header_magic)
      (decode_error corruption)
  stored_crc ← read_u32 encoded 44
  covered_bytes ← ok_or (sub_slice encoded 0 44) (decode_error corruption)
  reject_if (not (crc.crc32c covered_bytes == stored_crc)) (decode_error corruption)
  version ← read_u32 encoded 8
  reject_if (not (version == file_format_version)) (decode_error incompatible_format)
  id ← read_array_16 encoded 12
  file ← read_u32 encoded 28
  page ← read_u32 encoded 32
  size ← read_u64 encoded 36
  let header : VLogFileHeader = record {
    format_version = version;
    database_uuid = id;
    file_id = file;
    page_size = page;
    max_file_size = size;
  }
  validate header
  ok header
