-- ===== src/Commit/Preflight/Accepts.antt =====
-- The preflight accepts what the batches' own limits let through.
use expirkv.Prelude.{
  ℕ, ◌+◌, ◌^◌, ◌≤◌, ◌<◌, ◌≡◌, ◌≢◌, inl, inr, refl, Bool, true, List, [], ◌∷◌, ◌++◌, length,
  length-append, Option-cases, Bytes, arith,
}
use expirkv.Error.{Operation, op_write_batch, ok}
use expirkv.Batch
use expirkv.Batch.{BatchOperation, WriteBatch, len}
use expirkv.Batch.Accepts.{Built, IsWithinLimits, AllWithinLimits, Built-IsValid}
use expirkv.Commit.Preflight.{
  NormalizedOperation, ValidatedWrite, Numbering, operation_key, get_ordinal, number_key,
  number_keys, validate_encoding, validate_encodings, validate_put_encoding,
  validate_delete_encoding, validate_put, validate_key, validate_operation_count,
  validate_normalized, normalize, try_reserve, preflight_batch_with_operation_limit,
  preflight_batch,
}

put_encoding-ok :
    (key value : Bytes) (op : Operation)
    → IsWithinLimits (Batch.put_op key value)
    → validate_put_encoding key value op ≡ ok tt
unfolding validate_put_encoding validate_put validate_key
put_encoding-ok key value op within = ground (arith, within.0, within.1)

delete_encoding-ok :
    (key : Bytes) (op : Operation)
    → IsWithinLimits (Batch.delete_op key)
    → validate_delete_encoding key op ≡ ok tt
unfolding validate_delete_encoding validate_key
delete_encoding-ok key op within = ground (arith, within.0, within.1)

encodings-ok :
    (ops : List BatchOperation) (op : Operation)
    → AllWithinLimits ops
    → validate_encodings (normalize ops) op ≡ ok tt
unfolding validate_encodings validate_encoding normalize
encodings-ok [] op within = refl
encodings-ok (Batch.put_op key value ∷ ops) op within =
    rw (put_encoding-ok key value op within.0) (encodings-ok ops op within.1)
encodings-ok (Batch.delete_op key ∷ ops) op within =
    rw (delete_encoding-ok key op within.0) (encodings-ok ops op within.1)

length-normalize : (ops : List BatchOperation) → length (normalize ops) ≡ length ops
unfolding normalize
length-normalize [] = refl
length-normalize (Batch.put_op key value ∷ ops) = omega (arith, length-normalize ops)
length-normalize (Batch.delete_op key ∷ ops) = omega (arith, length-normalize ops)

number_key-ok :
    (op : Operation) (s : Numbering) (key : Bytes)
    → length s.distinct_keys < 2 ^ 64
    → (t : Numbering) × (number_key op s key ≡ ok t)
      × (length t.distinct_keys ≤ length s.distinct_keys + 1)
unfolding number_key
number_key-ok op s key room = elim (Option-cases (get_ordinal s.ordinals key)) [
  | inl new ↦ (
    record {
      distinct_keys = s.distinct_keys ++ (key ∷ []);
      operation_ordinals = s.operation_ordinals ++ (length s.distinct_keys ∷ []);
      ordinals = (key, length s.distinct_keys) ∷ s.ordinals;
    },
    ground arith,
    omega (arith, length-append s.distinct_keys (key ∷ [])),
  )
  | inr (o, old) ↦ (
    record s { operation_ordinals = s.operation_ordinals ++ (o ∷ []) },
    ground arith,
    omega arith,
  )
]

number_keys-ok :
    (op : Operation) (s : Numbering) (ops : List NormalizedOperation)
    → length s.distinct_keys + length ops < 2 ^ 64
    → (t : Numbering) × (number_keys op s ops ≡ ok t)
      × (length t.distinct_keys ≤ length s.distinct_keys + length ops)
unfolding number_keys
number_keys-ok op s [] room = (s, refl, omega arith)
number_keys-ok op s (o ∷ ops) room =
    let (next, stepped, short) = number_key-ok op s (operation_key o) (omega arith) in
    let (t, rest, short') = number_keys-ok op next ops (omega arith) in
    (t, rw stepped rest, omega arith)

count-ok :
    (count : ℕ) (op : Operation)
    → count < 2 ^ 32
    → validate_operation_count count 4_294_967_295 op ≡ ok tt
unfolding validate_operation_count
count-ok count op h = ground arith

-- Once its parts succeed, the validation does.
normalized-ok :
    (reserves : ℕ → Bool) (gives : (n : ℕ) → reserves n ≡ true) (ops : List NormalizedOperation)
    (sync : Bool) (op : Operation) (t : Numbering)
    → length ops ≢ 0
    → length ops < 2 ^ 32
    → validate_encodings ops op ≡ ok tt
    → number_keys op (record { distinct_keys = []; operation_ordinals = []; ordinals = [] }) ops
      ≡ ok t
    → length t.distinct_keys < 2 ^ 32
    → validate_normalized reserves (record { operations = ops; sync = sync }) op 4_294_967_295
      ≡ ok (record {
        normalized = record { operations = ops; sync = sync };
        distinct_keys = t.distinct_keys;
        operation_ordinals = t.operation_ordinals;
        public_operation = op;
      })
unfolding validate_normalized try_reserve
normalized-ok reserves gives ops sync op t some_op few encodings numbered short =
    rw (count-ok (length ops) op few, encodings, gives (length ops), numbered) (ground arith)

module _ (reserves : ℕ → Bool) (gives : (n : ℕ) → reserves n ≡ true) (b : WriteBatch)
    (built : Built b) (some_operation : length b.operations ≢ 0) where
  -- The commit protocol refuses no batch that the public operations built, when it holds an operation
  -- and the allocator gives what is asked for: every check that the preflight repeats, and its own on
  -- record sizes, counts and mutation counts, passes, and the write it returns holds the batch's
  -- operations.
  pub preflight_batch-accepts :
      (sync : Bool)
      → (w : ValidatedWrite) × (preflight_batch reserves b sync ≡ ok w)
        × (w.normalized ≡ record { operations = normalize b.operations; sync = sync })
  preflight_batch-accepts sync =
      let v = Built-IsValid built in
      let same = length-normalize b.operations in
      let start : Numbering = record {
        distinct_keys = [];
        operation_ordinals = [];
        ordinals = [];
      } in
      let (t, numbered, short) =
        number_keys-ok op_write_batch start (normalize b.operations) (omega (arith, v.count)) in
      (
        record {
          normalized = record { operations = normalize b.operations; sync = sync };
          distinct_keys = t.distinct_keys;
          operation_ordinals = t.operation_ordinals;
          public_operation = op_write_batch;
        },
        unfold preflight_batch preflight_batch_with_operation_limit len try_reserve in
            rw
              (
                count-ok (length b.operations) op_write_batch v.count,
                encodings-ok b.operations op_write_batch v.within,
                gives (length b.operations),
              )
              (normalized-ok reserves gives (normalize b.operations) sync op_write_batch t
                (omega arith) (omega (arith, v.count))
                (encodings-ok b.operations op_write_batch v.within) numbered
                (omega (arith, v.count))),
        refl,
      )
