-- ===== src/Commit/Plan/Published.antt =====
-- What the one batch of a commit makes of the user index.
use expirkv.Prelude.{
  ℕ, suc, ◌+◌, ◌*◌, ◌^◌, ◌≡◌, ◌≢◌, inl, inr, refl, sym, ◌∙◌, ap, Bool, false, not, ◌||◌, Option,
  none, List, [], ◌∷◌, ◌++◌, map, length, length-append, Bool-cases, ltb, Bytes, bytes_eq,
  bytes_eq_refl, eq_of-bytes_eq, arith,
}
use expirkv.Error.{Operation, ok, reject_if, bind-eq-ok}
use expirkv.Crc.{Crc}
use expirkv.Vlog.Pointer.{ValuePointer}
use expirkv.Commit.Keys.{encode_head_seq}
use expirkv.Commit.TxMeta.{TransactionKind}
use expirkv.Commit.Mutation.{ValueState}
use expirkv.Commit.Descriptor.{is_seen, EncodedDescriptor}
use expirkv.Commit.Preflight.{
  NormalizedOperation, NormalizedWrite, ValidatedWrite, operation_key, try_reserve,
  validate_normalized, capacity_error, index_fixed_mutation_count,
}
use expirkv.Commit.Preflight.Ordinals.{Names, keys_of, distinct_keys-Names, is_seen_at}
use expirkv.Commit.Plan.{KeyPlan, build_key_plans, pointer_at}
use expirkv.Commit.Plan.Replay.{update, replay, assigned, plan_keys, Shows}
use expirkv.Commit.Plan.Sequential.{build_key_plans-replay}
use expirkv.Commit.Plan.Batch.{push_index, from_index, push_plans, push_rows, build_index_batch}
use expirkv.Commit.Plan.Applied.{
  row, overlay, from_index-ok, push_index-IsPushed, IsPushed-apply, push_plans-overlay,
  push_rows-same,
}
use expirkv.Index.{
  IndexMutation, IndexAtomicBatch, IndexCommitMode, applied, put_internal, index_ok,
  try_with_capacity, transaction, system, head_seq_key,
}
use expirkv.Index.Initialization.{validate_for_commit}
use expirkv.Index.Batches.Ordinary.{Pushed, starts, validate_for_commit-Pushed}
use expirkv.Index.Space.{UserSpace, set_row, apply_mutation, apply_mutations}

with_capacity-empty :
    (reserves : ℕ → Bool) (capacity : ℕ) (b : IndexAtomicBatch)
    → try_with_capacity reserves capacity ≡ index_ok b
    → b.operations ≡ []
unfolding try_with_capacity
with_capacity-empty reserves capacity b h = ground arith

not_empty_last : (ms : List IndexMutation) (m : IndexMutation) → length (ms ++ (m ∷ [])) ≢ 0
not_empty_last ms m h = omega (arith, length-append ms (m ∷ []))

build_index_batch-overlay :
    (reserves : ℕ → Bool) (plans : List KeyPlan) (d : EncodedDescriptor) (seq : ℕ) (op : Operation)
    (batch : IndexAtomicBatch) (space : UserSpace)
    → build_index_batch reserves plans d seq op ≡ ok batch
    → Pushed batch
      × (length batch.operations ≢ 0)
      × (apply_mutations batch.operations space ≡ overlay plans space)
unfolding build_index_batch
build_index_batch-overlay reserves plans d seq op batch space h =
    let (_, _, h₁) =
      bind-eq-ok
        (reject_if
          (not (ltb (length plans * 2) (2 ^ 64))
            || not (ltb (length plans * 2 + index_fixed_mutation_count) (2 ^ 64)))
          (capacity_error op))
        _ h in
    let capacity = length plans * 2 + index_fixed_mutation_count in
    let (start, starts_at, h₂) =
      bind-eq-ok (from_index op (try_with_capacity reserves capacity)) _ h₁ in
    let made = from_index-ok op (try_with_capacity reserves capacity) start starts_at in
    let (users, users_at, h₃) = bind-eq-ok (push_plans reserves op start plans) _ h₂ in
    let (users_valid, laid) = push_plans-overlay reserves op start plans users space users_at in
    let (_, _, h₄) = bind-eq-ok (try_reserve reserves (length d.meta_key) op) _ h₃ in
    let (_, _, h₅) = bind-eq-ok (try_reserve reserves (length d.meta_value) op) _ h₄ in
    let meta_row = put_internal transaction d.meta_key d.meta_value in
    let (meta, meta_at, h₆) = bind-eq-ok (push_index reserves users meta_row op) _ h₅ in
    let one = push_index-IsPushed reserves users meta meta_row op meta_at in
    let (rows, rows_at, h₇) = bind-eq-ok (push_rows reserves op meta d.mutations) _ h₆ in
    let (rows_valid, same) = push_rows-same reserves op meta d.mutations rows space rows_at in
    let (_, _, h₈) = bind-eq-ok (try_reserve reserves (length head_seq_key) op) _ h₇ in
    let (_, _, h₉) = bind-eq-ok (try_reserve reserves (length (encode_head_seq seq)) op) _ h₈ in
    let head_row = put_internal system head_seq_key (encode_head_seq seq) in
    let last = push_index-IsPushed reserves rows batch head_row op h₉ in
    (
      last.pushed (rows_valid (one.pushed (users_valid (starts reserves capacity made)))),
      rw last.last (not_empty_last rows.operations head_row),
      IsPushed-apply rows head_row batch space last
          ∙ unfold apply_mutation in
            same
            ∙ IsPushed-apply users meta_row meta space one
            ∙ laid
            ∙ ap (λ ms. overlay plans (apply_mutations ms space))
                (with_capacity-empty reserves capacity start made)
            ∙ unfold apply_mutations in refl,
    )

seen_cons :
    (x key : Bytes) (keys : List Bytes)
    → is_seen x (key ∷ keys) ≡ false
    → (bytes_eq x key ≡ false) × (is_seen x keys ≡ false)
unfolding is_seen
seen_cons x key keys h = ground arith

unseen :
    (x key : Bytes) (keys : List Bytes)
    → bytes_eq key x ≡ false
    → is_seen x keys ≡ false
    → is_seen x (key ∷ keys) ≡ false
unfolding is_seen
unseen x key keys differs h = elim (Bool-cases (bytes_eq x key)) [
  | inl same ↦
      let e : x ≡ key = eq_of-bytes_eq x key same in
      let wrong : bytes_eq key key ≡ false = rw e at differs in
      let right = bytes_eq_refl key in absurd (cc)
  | inr other ↦ ground arith
]

-- Laid over a map that shows the states of the keys left out, plans that show a map give that map.
overlay-Shows :
    (plans : List KeyPlan) (states : Bytes → ValueState) (space : UserSpace) (x : Bytes)
    → Shows plans states
    → (is_seen x (plan_keys plans) ≡ false → space x ≡ row (states x))
    → overlay plans space x ≡ row (states x)
unfolding overlay plan_keys
overlay-Shows [] states space x shows others = others (unfold is_seen in refl)
overlay-Shows (plan ∷ plans) states space x shows others =
    overlay-Shows plans states (set_row space plan.user_key (row plan.after_state)) x
      (λ i p at. shows (suc i) p at)
      (λ out. elim (Bool-cases (bytes_eq plan.user_key x)) [
        | inl same ↦
            unfold set_row in
            rw same (ap row (shows 0 plan refl ∙ ap states (eq_of-bytes_eq plan.user_key x same)))
        | inr other ↦
            unfold set_row in rw other (others (unseen x plan.user_key (plan_keys plans) other out))
      ])

update_other :
    (f : Bytes → ValueState) (key : Bytes) (state : ValueState) (x : Bytes)
    → bytes_eq x key ≡ false
    → update f key state x ≡ f x
unfolding update
update_other f key state x differs = elim (Bool-cases (bytes_eq key x)) [
  | inl same ↦
      let e : key ≡ x = eq_of-bytes_eq key x same in
      let wrong : bytes_eq x x ≡ false = rw e at differs in
      let right = bytes_eq_refl x in absurd (cc)
  | inr other ↦ rw other refl
]

seen_neither :
    (x key : Bytes) (keys : List Bytes)
    → bytes_eq x key ≡ false
    → is_seen x keys ≡ false
    → is_seen x (key ∷ keys) ≡ false
unfolding is_seen
seen_neither x key keys differs out = ground arith

-- The operations leave the keys that they do not name.
replay_others :
    (pointers : Option (List (Option ValuePointer))) (index : ℕ) (ops : List NormalizedOperation)
    (f : Bytes → ValueState) (x : Bytes)
    → is_seen x (keys_of ops) ≡ false
    → replay pointers index ops f x ≡ f x
unfolding replay keys_of
replay_others pointers index [] f x out = refl
replay_others pointers index (o ∷ ops) f x out =
    let (differs, later) = seen_cons x (operation_key o) (keys_of ops) out in
    replay_others pointers (index + 1) ops
      (update f (operation_key o) (assigned o (pointer_at pointers index))) x later
    ∙ update_other f (operation_key o) (assigned o (pointer_at pointers index)) x differs

Names-unseen :
    (keys : List Bytes) (ordinals : List ℕ) (done : List Bytes) (x : Bytes)
    → Names keys ordinals done
    → is_seen x keys ≡ false
    → is_seen x done ≡ false
Names-unseen keys [] [] x names out = unfold is_seen in refl
Names-unseen keys [] (k ∷ done) x names out = absurd names
Names-unseen keys (o ∷ ordinals) [] x names out = absurd names
Names-unseen keys (o ∷ ordinals) (k ∷ done) x (here, names) out = elim (Bool-cases (bytes_eq x k)) [
  | inl same ↦
      let e : x ≡ k = eq_of-bytes_eq x k same in
      let found = is_seen_at keys o k here in
      let missing : is_seen k keys ≡ false = rw e at out in absurd (cc)
  | inr other ↦ seen_neither x k done other (Names-unseen keys ordinals done x names out)
]

module _ (reserves : ℕ → Bool) (n : NormalizedWrite) (op : Operation) (most : ℕ)
    (w : ValidatedWrite) (accepted : validate_normalized reserves n op most ≡ ok w)
    (before : Bytes → ValueState) (kind : TransactionKind)
    (pointers : Option (List (Option ValuePointer))) (plans : List KeyPlan)
    (planned : build_key_plans reserves w (map before w.distinct_keys) kind pointers ≡ ok plans)
    (d : EncodedDescriptor) (seq : ℕ) (batch : IndexAtomicBatch)
    (built : build_index_batch reserves plans d seq w.public_operation ≡ ok batch) where
  -- One atomic batch does what the operations say: when a validated write was planned on the states
  -- that its keys have and its batch was built, then on an index that shows those states the batch's
  -- mutations leave, at every key, what the operations leave when they are made one after the other.
  pub build_index_batch-replay :
      (space : UserSpace)
      → ((x : Bytes) → space x ≡ row (before x))
      → (x : Bytes)
      → apply_mutations batch.operations space x ≡ row (replay pointers 0 n.operations before x)
  build_index_batch-replay space shown x =
      let (_, _, laid) =
        build_index_batch-overlay reserves plans d seq w.public_operation batch space built in
      let (keys_same, shows, _) =
        build_key_plans-replay reserves n op most w accepted before kind pointers plans planned in
      let names = distinct_keys-Names reserves n op most w accepted in
      ap (λ (s : UserSpace). s x) laid
      ∙ overlay-Shows plans (replay pointers 0 n.operations before) space x shows (λ out.
        let unnamed =
          Names-unseen w.distinct_keys w.operation_ordinals (keys_of n.operations) x names
            (rw keys_same at out) in
        shown x ∙ ap row (sym (replay_others pointers 0 n.operations before x unnamed)))

  -- The batch of a commit passes the preflight that every backend runs, in either mode.
  pub build_index_batch-validates :
      (crc : Crc) (mode : IndexCommitMode) → validate_for_commit crc batch mode ≡ applied
  build_index_batch-validates crc mode =
      let (pushed, filled, _) =
        build_index_batch-overlay reserves plans d seq w.public_operation batch (λ x. none) built in
      validate_for_commit-Pushed crc batch mode pushed filled
