-- ===== src/Batch/Accepts.antt =====
-- What a batch accepts, what its errors say, and what every batch satisfies.
use expirkv.Prelude.{
  ℕ, ◌+◌, ◌^◌, ◌≤◌, ◌<◌, ◌≡◌, ◌≢◌, ◌⊎◌, inl, inr, refl, Bool, true, List, [], ◌∷◌, ◌++◌, length,
  length-append, Bytes, arith,
}
use expirkv.Error
use expirkv.Error.{
  StorageError, StorageErrorKind, invalid_argument, capacity_exceeded, resource_exhausted, Result,
  ok, err, Result-cases,
}
use expirkv.Batch
use expirkv.Batch.{
  BatchOperation, put_op, delete_op, WriteBatch, max_key_value_size, put, delete, clear,
  validate_key, validate_key_value, validate_next_operation_count, try_reserve,
}

-- An operation within the limits.
abbrev pub IsWithinLimits : BatchOperation → Type 0
IsWithinLimits (put_op key value) =
    (length key ≢ 0) × (length key + length value ≤ max_key_value_size)
IsWithinLimits (delete_op key) = (length key ≢ 0) × (length key ≤ max_key_value_size)

abbrev pub AllWithinLimits : List BatchOperation → Type 0
AllWithinLimits [] = Unit
AllWithinLimits (op ∷ ops) = IsWithinLimits op × AllWithinLimits ops

AllWithinLimits-append :
    (ops : List BatchOperation) (op : BatchOperation)
    → AllWithinLimits ops
    → IsWithinLimits op
    → AllWithinLimits (ops ++ (op ∷ []))
AllWithinLimits-append [] op a w = (w, tt)
AllWithinLimits-append (o ∷ ops) op a w = (a.0, AllWithinLimits-append ops op a.1 w)

-- Every operation is within the limits, and their number fits a `u32`.
pub record IsValid (b : WriteBatch) : Type 0 where
  pub within : AllWithinLimits b.operations
  pub count : length b.operations < 2 ^ 32

capacity-kind : Batch.capacity_error.kind ≡ capacity_exceeded
unfolding Batch.capacity_error Error.invalid_batch
capacity-kind = refl

invalid-kind : Batch.invalid_argument_error.kind ≡ invalid_argument
unfolding Batch.invalid_argument_error Error.invalid_batch
invalid-kind = refl

key-refused :
    (key : Bytes) (e : StorageError)
    → validate_key key ≡ err e
    → (e.kind ≡ invalid_argument) × ((length key ≡ 0) ⊎ (max_key_value_size < length key))
unfolding validate_key
key-refused key e h = ground (arith, capacity-kind, invalid-kind)

value-refused :
    (key value : Bytes) (e : StorageError)
    → validate_key_value key value ≡ err e
    → ((e.kind ≡ invalid_argument)
        × ((length key ≡ 0) ⊎ (max_key_value_size < length key + length value)))
      ⊎ ((e.kind ≡ capacity_exceeded) × (2 ^ 16 ≤ length value))
unfolding validate_key_value
value-refused key value e h = elim (Result-cases (validate_key key)) [
  | inl (done, k) ↦ ground (arith, capacity-kind, invalid-kind)
  | inr (e', k) ↦ ground (arith, key-refused key e' k)
]

count-refused :
    (current : ℕ) (e : StorageError)
    → validate_next_operation_count current ≡ err e
    → (e.kind ≡ capacity_exceeded) × (2 ^ 32 ≤ current + 1)
unfolding validate_next_operation_count
count-refused current e h = ground (arith, capacity-kind)

-- The first check that a `put` fails, with the kind that it reports: the key alone, the width of the
-- value's length, the two together, the number of operations.
abbrev pub PutRefusal : Bytes → Bytes → ℕ → StorageErrorKind → Type 0
PutRefusal key value count kind =
    ((kind ≡ invalid_argument) × ((length key ≡ 0) ⊎ (max_key_value_size < length key)))
    ⊎ (((kind ≡ capacity_exceeded)
          × (length key ≢ 0)
          × (length key ≤ max_key_value_size)
          × (2 ^ 16 ≤ length value))
        ⊎ (((kind ≡ invalid_argument)
              × (length key ≢ 0)
              × (length key ≤ max_key_value_size)
              × (length value < 2 ^ 16)
              × (max_key_value_size < length key + length value))
            ⊎ ((kind ≡ capacity_exceeded)
                × IsWithinLimits (put_op key value)
                × (2 ^ 32 ≤ count + 1))))

accepted_key :
    (key : Bytes) (done : Unit {0})
    → validate_key key ≡ ok done
    → (length key ≢ 0) × (length key ≤ max_key_value_size)
unfolding validate_key
accepted_key key done h = ground arith

refused_value :
    (key value : Bytes) (count : ℕ) (e : StorageError)
    → validate_key_value key value ≡ err e
    → PutRefusal key value count e.kind
unfolding validate_key_value
refused_value key value count e h = elim (Result-cases (validate_key key)) [
  | inl (done, k) ↦
      let (some_key, short) = accepted_key key done k in ground (arith, capacity-kind, invalid-kind)
  | inr (e', k) ↦ let (named, why) = key-refused key e' k in inl (ground arith)
]

accepted_value :
    (key value : Bytes) (done : Unit {0})
    → validate_key_value key value ≡ ok done
    → IsWithinLimits (put_op key value)
unfolding validate_key_value validate_key
accepted_value key value done h = ground arith

module _ (reserves : ℕ → Bool) (b : WriteBatch) (key : Bytes) where
  put-ok :
      (value : Bytes)
      → (put reserves b key value).1 ≡ ok tt
      → IsWithinLimits (put_op key value)
        × (length b.operations + 1 < 2 ^ 32)
        × ((put reserves b key value).0
            ≡ record { operations = b.operations ++ (put_op key value ∷ []) })
  unfolding put
  put-ok value h = ground arith

  delete-ok :
      (delete reserves b key).1 ≡ ok tt
      → IsWithinLimits (delete_op key)
        × (length b.operations + 1 < 2 ^ 32)
        × ((delete reserves b key).0 ≡ record { operations = b.operations ++ (delete_op key ∷ []) })
  unfolding delete
  delete-ok h = ground arith

  -- When `put` fails, whatever the allocator answers, the batch is as it was.
  pub put-failed :
      (value : Bytes) (e : StorageError)
      → (put reserves b key value).1 ≡ err e
      → (put reserves b key value).0 ≡ b
  unfolding put
  put-failed value e h = ground arith

  delete-failed :
      (e : StorageError) → (delete reserves b key).1 ≡ err e → (delete reserves b key).0 ≡ b
  unfolding delete
  delete-failed e h = ground arith

  -- With an allocator that gives what is asked for, `put` succeeds exactly when the key is not empty,
  -- the key and the value have at most 60,000 bytes together and the batch has room for one more
  -- operation, and then the operation stands last.
  pub put-accepts :
      (value : Bytes)
      → ((n : ℕ) → reserves n ≡ true)
      → ((put reserves b key value).1 ≡ ok tt
          → IsWithinLimits (put_op key value)
            × (length b.operations + 1 < 2 ^ 32)
            × ((put reserves b key value).0
                ≡ record { operations = b.operations ++ (put_op key value ∷ []) }))
        × (IsWithinLimits (put_op key value)
            → length b.operations + 1 < 2 ^ 32
            → (put reserves b key value).1 ≡ ok tt)
  unfolding put
  put-accepts value gives = (
    put-ok value,
    λ w c. ground (arith, w.0, w.1, gives (length key), gives (length value), gives 1),
  )

  put-err :
      (value : Bytes) (e : StorageError)
      → reserves (length key) ≡ true
      → reserves (length value) ≡ true
      → reserves 1 ≡ true
      → (put reserves b key value).1 ≡ err e
      → (validate_key_value key value ≡ err e)
        ⊎ ((validate_key_value key value ≡ ok tt)
            × (validate_next_operation_count (length b.operations) ≡ err e))
  put-err value e r₁ r₂ r₃ h = unfold put try_reserve in ground arith

  -- With an allocator that gives what is asked for, the error of a refused `put` has the kind of the
  -- first check that fails, in this order: an empty or too large key (invalid argument), a value whose
  -- length does not fit 16 bits (capacity exceeded), a key and value of more than 60,000 bytes together
  -- (invalid argument), and a batch whose next count does not fit 32 bits (capacity exceeded).
  pub put-refusals :
      (value : Bytes) (e : StorageError)
      → ((n : ℕ) → reserves n ≡ true)
      → (put reserves b key value).1 ≡ err e
      → PutRefusal key value (length b.operations) e.kind
  put-refusals value e gives h =
      elim (put-err value e (gives (length key)) (gives (length value)) (gives 1) h) [
        | inl refused ↦ refused_value key value (length b.operations) e refused
        | inr (fits, full) ↦
            let (named, why) = count-refused (length b.operations) e full in
            inr (inr (inr (named, accepted_value key value tt fits, why)))
      ]

  appended-IsValid :
      (op : BatchOperation)
      → IsValid b
      → IsWithinLimits op
      → length b.operations + 1 < 2 ^ 32
      → IsValid (record { operations = b.operations ++ (op ∷ []) })
  appended-IsValid op v w room = record {
    within = AllWithinLimits-append b.operations op v.within w;
    count = omega (arith, length-append b.operations (op ∷ []));
  }

  put-IsValid : (value : Bytes) → IsValid b → IsValid (put reserves b key value).0
  put-IsValid value v = elim (Result-cases (put reserves b key value).1) [
    | inl (done, h) ↦ let (w, room, e) = put-ok value h in rw e (appended-IsValid _ v w room)
    | inr (e, h) ↦ rw (put-failed value e h) v
  ]

  delete-IsValid : IsValid b → IsValid (delete reserves b key).0
  delete-IsValid v = elim (Result-cases (delete reserves b key).1) [
    | inl (done, h) ↦ let (w, room, e) = delete-ok h in rw e (appended-IsValid _ v w room)
    | inr (e, h) ↦ rw (delete-failed e h) v
  ]

-- A batch that the public operations build, under any allocator.
pub data Built : WriteBatch → Type 0 where
  starts : Built Batch.new
  puts :
      {b : WriteBatch} (reserves : ℕ → Bool) (key value : Bytes)
      → Built b
      → Built (put reserves b key value).0
  deletes :
      {b : WriteBatch} (reserves : ℕ → Bool) (key : Bytes)
      → Built b
      → Built (delete reserves b key).0
  clears : {b : WriteBatch} → Built b → Built (clear b)

-- Every batch that `put`, `delete` and `clear` build holds operations within the limits only (no empty
-- key, at most 60,000 bytes each), and fewer than 2 ^ 32 of them.
pub Built-IsValid : {b : WriteBatch} → Built b → IsValid b
unfolding Batch.new clear
Built-IsValid starts = record { within = tt; count = omega arith }
Built-IsValid (puts reserves key value h) = put-IsValid reserves _ key value (Built-IsValid h)
Built-IsValid (deletes reserves key h) = delete-IsValid reserves _ key (Built-IsValid h)
Built-IsValid (clears h) = record { within = tt; count = omega arith }
