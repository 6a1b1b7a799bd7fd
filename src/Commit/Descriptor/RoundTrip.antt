-- ===== src/Commit/Descriptor/RoundTrip.antt =====
-- Decoding gives back the transaction that was encoded.
use expirkv.Prelude.{
  ℕ, ◌+◌, ◌^◌, ◌<◌, ◌≡◌, refl, Bool, true, false, some, arith, List, [], ◌∷◌, length, Bytes,
  ==_refl, take, sub_slice, to_le_32, to_le_64, inl, inr,
}
use expirkv.Error.{ok, Result-cases}
use expirkv.Crc.{Crc, IsCrc}
use expirkv.Uuid.{Uuid, uuid}
use expirkv.Commit.Errors.{encode_capacity}
use expirkv.Commit.Keys.{encode_tx_meta_key}
use expirkv.Commit.Keys.RoundTrip.{decode_tx_meta_key-encode}
use expirkv.Commit.TxMeta.{
  TxMeta, TransactionKind, vlog_envelope, index_only_delete, encode_tx_meta, layout,
}
use expirkv.Commit.TxMeta.RoundTrip.{MetaFits, encode_tx_meta-ok, decode_tx_meta-encode}
use expirkv.Commit.Mutation.{TxMutation}
use expirkv.Commit.Descriptor.{
  TransactionDescriptor, EncodedMutation, EncodedDescriptor, encode_each, crc_row, crc_rows,
  crc_start, descriptor_crc, encode_descriptor, decode_descriptor, validate_transaction_mutations,
}
use expirkv.Commit.Descriptor.Rows.{AllFit, crc_rows-cons, crc_rows-nil, decode_each-encode}

same_kind :
    (k : TransactionKind) (ms : List TxMutation)
    → validate_transaction_mutations true k ms ≡ ok tt
    → validate_transaction_mutations false k ms ≡ ok tt
unfolding validate_transaction_mutations
same_kind vlog_envelope ms h = refl
same_kind index_only_delete ms h = ground arith

-- The checksum covers the meta row up to its last field, which it becomes.
layout_covered :
    (m : TxMeta) (id : Uuid) (a b : ℕ)
    → sub_slice (layout (record m { tx_uuid = id; descriptor_crc32c = a })) 0 83
      ≡ some (take 83 (layout (record m { tx_uuid = id; descriptor_crc32c = b })))
unfolding layout sub_slice to_le_64
layout_covered m (uuid a b c d e f g h i j k l n o p q) x y = refl

meta_covered :
    (m : TxMeta) (sum : ℕ) {bs₀ bs : Bytes}
    → encode_tx_meta (record m { descriptor_crc32c = 0 }) ≡ ok bs₀
    → encode_tx_meta (record m { descriptor_crc32c = sum }) ≡ ok bs
    → sub_slice bs 0 83 ≡ some (take 83 bs₀)
meta_covered m sum h₀ h =
    rw ((encode_tx_meta-ok _ h).1, (encode_tx_meta-ok _ h₀).1) (layout_covered m m.tx_uuid sum 0)

-- What a successful encoding went through.
module _ (reserves : ℕ → Bool) (crc : Crc) (d : TransactionDescriptor) where
  record Encoded (e : EncodedDescriptor) : Type 0 where
    meta_bytes : Bytes
    sum : ℕ
    count_is : d.meta.distinct_key_count ≡ length d.mutations
    kind_ok : validate_transaction_mutations true d.meta.transaction_kind d.mutations ≡ ok tt
    rows_are : encode_each reserves d.meta.commit_seq 0 [] d.mutations ≡ ok e.mutations
    without_crc : encode_tx_meta (record d.meta { descriptor_crc32c = 0 }) ≡ ok meta_bytes
    sum_is : crc_rows encode_capacity crc (crc_start crc (take 83 meta_bytes)) e.mutations ≡ ok sum
    key_is : encode_tx_meta_key d.meta.commit_seq ≡ ok e.meta_key
    value_is : encode_tx_meta (record d.meta { descriptor_crc32c = sum }) ≡ ok e.meta_value

  encode_descriptor-ok :
      {e : EncodedDescriptor} → encode_descriptor reserves crc d ≡ ok e → Encoded e
  unfolding encode_descriptor descriptor_crc
  encode_descriptor-ok h =
      elim (Result-cases (encode_each reserves d.meta.commit_seq 0 [] d.mutations)) [
        | inr (x, r) ↦ absurd (ground arith)
        | inl (rows, r) ↦
            elim (Result-cases (encode_tx_meta (record d.meta { descriptor_crc32c = 0 }))) [
              | inr (x, b) ↦ absurd (ground arith)
              | inl (bs, b) ↦
                  elim (Result-cases
                    (crc_rows encode_capacity crc (crc_start crc (take 83 bs)) rows)) [
                      | inr (x, s) ↦ absurd (ground arith)
                      | inl (sum, s) ↦ record {
                        meta_bytes = bs;
                        sum = sum;
                        count_is = ground arith;
                        kind_ok = ground arith;
                        rows_are = ground arith;
                        without_crc = b;
                        sum_is = ground arith;
                        key_is = ground arith;
                        value_is = ground arith;
                      }
                    ]
            ]
      ]

-- Every number of the descriptor fits the machine type of its field.
pub record DescriptorFits (d : TransactionDescriptor) : Type 0 where
  pub meta_fits : MetaFits d.meta
  pub mutations_fit : AllFit d.mutations

crc_row-lt :
    (crc : Crc)
    → IsCrc crc
    → (c : ℕ) (key value : Bytes) {n : ℕ} → crc_row encode_capacity crc c key value ≡ ok n
    → n < 2 ^ 32
unfolding crc_row
crc_row-lt crc laws c key value h = ground (
  arith,
  laws.append-lt (crc.crc32c_append (crc.crc32c_append c key) (to_le_32 (length value))) value,
)

crc_rows-lt :
    (crc : Crc)
    → IsCrc crc
    → (c : ℕ) (rows : List EncodedMutation) (sum : ℕ) → c < 2 ^ 32
    → crc_rows encode_capacity crc c rows ≡ ok sum
    → sum < 2 ^ 32
crc_rows-lt crc laws c [] sum lt h = omega (arith, crc_rows-nil crc c h)
crc_rows-lt crc laws c (row ∷ rows) sum lt h =
    let (n, r, rest) = crc_rows-cons crc c row rows h in
    crc_rows-lt crc laws n rows sum (crc_row-lt crc laws c row.key row.value r) rest

sum_fits :
    (m : TxMeta) (sum : ℕ)
    → MetaFits m
    → sum < 2 ^ 32
    → MetaFits (record m { descriptor_crc32c = sum })
sum_fits m sum f lt = record {
  seq_fits = f.seq_fits;
  prev_fits = f.prev_fits;
  begin_fits = f.begin_fits;
  end_fits = f.end_fits;
  ops_fit = f.ops_fit;
  keys_fit = f.keys_fit;
  envelope_fits = f.envelope_fits;
  descriptor_fits = lt;
}

module _ (reserves granted : ℕ → Bool) (grants : (n : ℕ) → granted n ≡ true) (crc : Crc)
    (laws : IsCrc crc) (d : TransactionDescriptor) (fits : DescriptorFits d) where
  decoded :
      {e : EncodedDescriptor} (k : Encoded reserves crc d e)
      → decode_descriptor granted crc e.meta_key e.meta_value e.mutations
        ≡ ok
            (record { meta = record d.meta { descriptor_crc32c = k.sum }; mutations = d.mutations })
  unfolding decode_descriptor
  decoded {e = e} k =
      let f = fits.meta_fits in
      let sum_lt =
        crc_rows-lt crc laws (crc_start crc (take 83 k.meta_bytes)) e.mutations k.sum
          (unfold crc_start in laws.append-lt _ _) k.sum_is in
      let count = k.count_is in
      let room : 0 + length d.mutations < 2 ^ 64 = omega (arith, f.keys_fit) in
      let (loop, len) =
        decode_each-encode reserves granted grants crc d.meta.commit_seq f.seq_fits 0 []
          (crc_start crc (take 83 k.meta_bytes)) d.mutations e.mutations k.sum fits.mutations_fit
          room k.rows_are k.sum_is in
      rw
        (
          decode_tx_meta_key-encode d.meta.commit_seq e.meta_key f.seq_fits k.key_is,
          decode_tx_meta-encode (record d.meta { descriptor_crc32c = k.sum })
              (sum_fits d.meta k.sum f sum_lt) e.meta_value k.value_is,
          ==_refl d.meta.commit_seq,
          len,
          count,
          ==_refl (length d.mutations),
          grants,
          meta_covered d.meta k.sum k.without_crc k.value_is,
          loop,
          ==_refl k.sum,
          same_kind d.meta.transaction_kind d.mutations k.kind_ok,
        )
        refl

  -- For every checksum that keeps its documented laws, a transaction descriptor that the encoder
  -- accepts, whose numbers fit the types of their fields, is decoded from its rows to the same
  -- transaction, its mutations in their order, with the checksum filled in, when the decoder is
  -- given the memory.
  pub decode_descriptor-encode :
      (e : EncodedDescriptor)
      → encode_descriptor reserves crc d ≡ ok e
      → (sum : ℕ) × (decode_descriptor granted crc e.meta_key e.meta_value e.mutations
          ≡ ok (record {
            meta = record d.meta { descriptor_crc32c = sum };
            mutations = d.mutations;
          }))
  decode_descriptor-encode e h = let k = encode_descriptor-ok reserves crc d h in (k.sum, decoded k)
