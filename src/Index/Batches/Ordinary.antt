-- ===== src/Index/Batches/Ordinary.antt =====
-- Batches that `try_push` fills: every backend's preflight lets them through.
use expirkv.Prelude.{
  ℕ, ◌≡◌, ◌≢◌, inl, inr, refl, sym, Bool, true, false, List, [], ◌∷◌, ◌++◌, length, Bool-cases,
  arith,
}
use expirkv.Crc.{Crc}
use expirkv.Index.{
  IndexMutation, initialize_database_identity, put_user, delete_user, put_internal, delete_internal,
  IndexAtomicBatch, IndexCommitMode, applied, index_ok, is_refused, validate_ordinary_mutation,
  try_with_capacity, try_push,
}
use expirkv.Index.Initialization.{count_initializations, validate_mutations, validate_for_commit}

pub data Pushed : IndexAtomicBatch → Type 0 where
  starts :
      {b : IndexAtomicBatch} (reserves : ℕ → Bool) (capacity : ℕ)
      → try_with_capacity reserves capacity ≡ index_ok b
      → Pushed b
  pushes :
      {b b' : IndexAtomicBatch} (reserves : ℕ → Bool) (m : IndexMutation)
      → Pushed b
      → try_push reserves b m ≡ index_ok b'
      → Pushed b'

abbrev AllOrdinary : List IndexMutation → Type 0
AllOrdinary [] = Unit
AllOrdinary (m ∷ ms) = (is_refused m ≡ false) × AllOrdinary ms

AllOrdinary-append :
    (ms : List IndexMutation) (m : IndexMutation)
    → AllOrdinary ms
    → is_refused m ≡ false
    → AllOrdinary (ms ++ (m ∷ []))
AllOrdinary-append [] m all ordinary = (ordinary, tt)
AllOrdinary-append (x ∷ ms) m all ordinary = (all.0, AllOrdinary-append ms m all.1 ordinary)

pub try_push-ok :
    (reserves : ℕ → Bool) (b : IndexAtomicBatch) (m : IndexMutation) (b' : IndexAtomicBatch)
    → try_push reserves b m ≡ index_ok b'
    → (is_refused m ≡ false) × (b' ≡ record { operations = b.operations ++ (m ∷ []) })
unfolding try_push validate_ordinary_mutation
try_push-ok reserves b m b' h = elim (Bool-cases (is_refused m)) [
  | inl bad ↦ absurd (pushed_refused bad)
  | inr good ↦ (good, pushed_room good)
]
  where
    pushed_refused : is_refused m ≡ true → ⊥
    pushed_refused bad = ground arith

    pushed_room : is_refused m ≡ false → b' ≡ record { operations = b.operations ++ (m ∷ []) }
    pushed_room good = ground arith

Pushed-AllOrdinary : {b : IndexAtomicBatch} → Pushed b → AllOrdinary b.operations
unfolding try_with_capacity
Pushed-AllOrdinary {b} (starts reserves capacity h) =
    let e : record { operations = [] } ≡ b = ground arith in rw (sym e) tt
Pushed-AllOrdinary {b} (pushes {b = old} reserves m before h) =
    let (good, e) = try_push-ok reserves old m b h in
    rw e (AllOrdinary-append old.operations m (Pushed-AllOrdinary before) good)

AllOrdinary-count : (ms : List IndexMutation) → AllOrdinary ms → count_initializations ms ≡ 0
unfolding count_initializations is_refused
AllOrdinary-count [] all = refl
AllOrdinary-count (initialize_database_identity i ∷ ms) all = absurd (cc)
AllOrdinary-count (put_user k p ∷ ms) all = AllOrdinary-count ms all.1
AllOrdinary-count (delete_user k ∷ ms) all = AllOrdinary-count ms all.1
AllOrdinary-count (put_internal s k v ∷ ms) all = AllOrdinary-count ms all.1
AllOrdinary-count (delete_internal s k ∷ ms) all = AllOrdinary-count ms all.1

AllOrdinary-validate : (ms : List IndexMutation) → AllOrdinary ms → validate_mutations ms ≡ applied
unfolding validate_mutations validate_ordinary_mutation
AllOrdinary-validate [] all = refl
AllOrdinary-validate (m ∷ ms) all = ground (arith, all.0, AllOrdinary-validate ms all.1)

-- A batch with a mutation in it that was filled by `try_push` alone passes the preflight of a commit,
-- in either mode: no mutation that one check lets in is refused by the other.
pub validate_for_commit-Pushed :
    (crc : Crc) (b : IndexAtomicBatch) (mode : IndexCommitMode)
    → Pushed b
    → length b.operations ≢ 0
    → validate_for_commit crc b mode ≡ applied
unfolding validate_for_commit
validate_for_commit-Pushed crc b mode pushed some_mutation =
    let all = Pushed-AllOrdinary pushed in
    let none_first = AllOrdinary-count b.operations all in
    rw (none_first, AllOrdinary-validate b.operations all) (ground arith)
