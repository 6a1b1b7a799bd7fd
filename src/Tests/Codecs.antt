-- ===== src/Tests/Codecs.antt =====
-- The codecs of fixed-size metadata, of FORMAT and of the Value Log headers, on samples.
use expirkv.Prelude.{◌≡◌, refl, ◌^◌, true, arith}
use expirkv.Error.{ok}
use expirkv.Uuid.{sample_uuid}
use expirkv.Commit.Keys
use expirkv.Commit.Keys.RoundTrip.{decode_tx_meta_key-encode}
use expirkv.Commit.Position.{VLogPos}
use expirkv.Commit.Identity.{DatabaseIdentity}
use expirkv.Commit.Frontier.{DurableFrontier, position}
use expirkv.Commit.RecoveryState.{RecoveryState, undo}
use expirkv.Vlog.PageHeader.{PageHeader}
use expirkv.Vlog.FileHeader.{VLogFileHeader}
use expirkv.Vlog.RecordHeader.{RecordHeader, kv_record}

abbrev end_position : VLogPos
end_position = record { file_id = 3; offset = 70_000 }

abbrev identity : DatabaseIdentity
identity = record {
  identity_version = 0;
  database_version = 0;
  database_uuid = sample_uuid;
  keyspace_version = 0;
}

abbrev frontier : DurableFrontier
frontier = record {
  durable_seq = 9;
  durable_vlog_seq = 8;
  durable_vlog_end = position end_position;
}

abbrev recovery : RecoveryState
recovery = record {
  phase = undo;
  original_head = 12;
  target_seq = 9;
  target_vlog_seq = 8;
  target_vlog_end = position end_position;
  next_undo_seq = 11;
  trim_required = true;
}

abbrev page : PageHeader
page = record { file_id = 3; page_no = 1 }

abbrev file : VLogFileHeader
file = record {
  format_version = 0;
  database_uuid = sample_uuid;
  file_id = 3;
  page_size = 65_536;
  max_file_size = 2 ^ 32;
}

abbrev header : RecordHeader
header = record {
  format_version = 0;
  record_type = kv_record;
  encoded_len = 60;
  commit_seq = 9;
  tx_uuid = sample_uuid;
}

decode_tx_meta_key-encode_example : Keys.decode_tx_meta_key (Keys.meta_key_layout 300) ≡ ok 300
unfolding Keys.encode_tx_meta_key
decode_tx_meta_key-encode_example =
    decode_tx_meta_key-encode 300 (Keys.meta_key_layout 300) (omega arith) refl
