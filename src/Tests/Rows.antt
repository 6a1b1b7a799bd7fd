-- ===== src/Tests/Rows.antt =====
-- The rows of a transaction, and the pointers and positions of the Value Log, on samples.
use expirkv.Prelude.{ℕ, ◌≡◌, refl, true, [], ◌∷◌, Bytes, arith, to_le_16, to_le_32, to_be_64}
use expirkv.Error.{ok}
use expirkv.Uuid.{sample_uuid}
use expirkv.Crc.{sum_crc, sum_onto, sum_crc-IsCrc}
use expirkv.Commit.TxMeta
use expirkv.Commit.TxMeta.{TxMeta, vlog_envelope}
use expirkv.Commit.TxMeta.RoundTrip.{MetaFits, decode_tx_meta-encode}
use expirkv.Commit.Mutation
use expirkv.Commit.Mutation.{TxMutation, absent, present}
use expirkv.Commit.Mutation.Code.{MutationFits}
use expirkv.Commit.Mutation.RoundTrip.{decode_tx_mutation-encode}
use expirkv.Commit.Descriptor
use expirkv.Commit.Descriptor.{TransactionDescriptor, EncodedDescriptor}
use expirkv.Commit.Descriptor.RoundTrip.{decode_descriptor-encode}
use expirkv.Commit.Keys
use expirkv.Vlog.Pointer
use expirkv.Vlog.Pointer.{ValuePointer, ValuePointerLayout}
use expirkv.Vlog.Pointer.RoundTrip.{decode_pointer-encode}
use expirkv.Vlog.Pointer.Bounds.{IsLaidOut, IsPlaced, validate_file_bounds-IsPlaced}

abbrev pointer : ValuePointer
pointer = record {
  format_version = 0;
  file_id = 3;
  record_offset = 70_000;
  record_len = 60;
  value_len = 3;
}

abbrev pointer_layout : ValuePointerLayout
pointer_layout = record {
  key_len = 2;
  value_relative_offset = 53;
  value_start = 70_053;
  value_end = 70_056;
  record_end = 70_060;
}

decode_pointer-encode_example : Pointer.decode (Pointer.bytes pointer) ≡ ok pointer
unfolding Pointer.encode Pointer.validate_fields
decode_pointer-encode_example =
    decode_pointer-encode pointer (Pointer.bytes pointer) (omega arith) refl

validate_file_bounds-IsPlaced_example :
    IsLaidOut pointer pointer_layout × IsPlaced pointer pointer_layout 131_072
unfolding Pointer.validate_file_bounds Pointer.layout
validate_file_bounds-IsPlaced_example =
    validate_file_bounds-IsPlaced pointer 131_072 pointer_layout refl

abbrev meta : TxMeta
meta = record {
  transaction_kind = vlog_envelope;
  commit_seq = 9;
  tx_uuid = sample_uuid;
  prev_seq = 8;
  vlog_begin = record { file_id = 3; offset = 69_000 };
  vlog_end = record { file_id = 3; offset = 71_000 };
  logical_op_count = 3;
  distinct_key_count = 2;
  envelope_crc32c = 77;
  descriptor_crc32c = 0;
}

meta-MetaFits : MetaFits meta
meta-MetaFits = record {
  seq_fits = omega arith;
  prev_fits = omega arith;
  begin_fits = record { file_id_fits = omega arith; offset_fits = omega arith };
  end_fits = record { file_id_fits = omega arith; offset_fits = omega arith };
  ops_fit = omega arith;
  keys_fit = omega arith;
  envelope_fits = omega arith;
  descriptor_fits = omega arith;
}

decode_tx_meta-encode_example : TxMeta.decode_tx_meta (TxMeta.layout meta) ≡ ok meta
unfolding TxMeta.encode_tx_meta TxMeta.validate_tx_meta
decode_tx_meta-encode_example = decode_tx_meta-encode meta meta-MetaFits (TxMeta.layout meta) refl

abbrev put_mutation : TxMutation
put_mutation = record {
  user_key = b'k' ∷ b'1' ∷ [];
  before_state = absent;
  after_state = present pointer;
}

abbrev delete_mutation : TxMutation
delete_mutation = record {
  user_key = b'k' ∷ b'2' ∷ [];
  before_state = present pointer;
  after_state = absent;
}

put_mutation-MutationFits : MutationFits put_mutation
put_mutation-MutationFits = record { before_fits = tt; after_fits = omega arith }

abbrev put_code : Bytes
put_code =
    2 ∷ 0 ∷ b'k' ∷ b'1' ∷ 0 ∷ 1 ∷ 0 ∷ 0 ∷ 3 ∷ 0 ∷ 0 ∷ 0 ∷ 112 ∷ 17 ∷ 1 ∷ 0 ∷ 60 ∷ 0 ∷ 0 ∷ 0 ∷ 3 ∷ 0
    ∷ []

abbrev delete_code : Bytes
delete_code =
    2 ∷ 0 ∷ b'k' ∷ b'2' ∷ 1 ∷ 0 ∷ 0 ∷ 3 ∷ 0 ∷ 0 ∷ 0 ∷ 112 ∷ 17 ∷ 1 ∷ 0 ∷ 60 ∷ 0 ∷ 0 ∷ 0 ∷ 3 ∷ 0 ∷ 0
    ∷ []

put_code-is : Mutation.encode_tx_mutation (λ _. true) put_mutation ≡ ok put_code
unfolding Mutation.encode_tx_mutation Mutation.validate_value_state_key_len
    Mutation.encode_value_state Pointer.layout Pointer.encode to_le_16 Pointer.bytes to_le_32
put_code-is = refl

decode_tx_mutation-encode_example :
    Mutation.decode_tx_mutation (λ _. true) put_code ≡ ok put_mutation
decode_tx_mutation-encode_example =
    decode_tx_mutation-encode (λ _. true) (λ _. true) put_mutation put_code
      put_mutation-MutationFits refl put_code-is

abbrev descriptor : TransactionDescriptor
descriptor = record { meta = meta; mutations = put_mutation ∷ delete_mutation ∷ [] }

abbrev encoded : EncodedDescriptor
encoded = record {
  meta_key = Keys.meta_key_layout 9;
  meta_value = TxMeta.layout (record meta { descriptor_crc32c = 2431 });
  mutations =
      record { key = Keys.mutation_key_layout 9 0; value = put_code }
      ∷ record { key = Keys.mutation_key_layout 9 1; value = delete_code }
      ∷ [];
}

delete_code-is : Mutation.encode_tx_mutation (λ _. true) delete_mutation ≡ ok delete_code
unfolding Mutation.encode_tx_mutation Mutation.validate_value_state_key_len
    Mutation.encode_value_state Pointer.layout Pointer.encode to_le_16 Pointer.bytes to_le_32
delete_code-is = refl

encoded-is : Descriptor.encode_descriptor (λ _. true) sum_crc descriptor ≡ ok encoded
unfolding Descriptor.encode_descriptor Descriptor.encode_each Keys.encode_tx_mutation_key
    TxMeta.encode_tx_meta TxMeta.validate_tx_meta Descriptor.descriptor_crc Keys.encode_tx_meta_key
    Descriptor.validate_transaction_mutations sum_onto to_le_32 Keys.mutation_key_layout to_be_64
    TxMeta.layout
encoded-is = rw (put_code-is, delete_code-is) refl

decode_descriptor-encode_example :
    (sum : ℕ) × (Descriptor.decode_descriptor
        (λ _. true)
        sum_crc
        encoded.meta_key
        encoded.meta_value
        encoded.mutations
      ≡ ok (record {
        meta = record meta { descriptor_crc32c = sum };
        mutations = put_mutation ∷ delete_mutation ∷ [];
      }))
decode_descriptor-encode_example =
    decode_descriptor-encode (λ _. true) (λ _. true) (λ _. refl) sum_crc sum_crc-IsCrc descriptor
      (record {
        meta_fits = meta-MetaFits;
        mutations_fit = (
          put_mutation-MutationFits,
          (record { before_fits = omega arith; after_fits = tt }, tt),
        );
      })
      encoded encoded-is
