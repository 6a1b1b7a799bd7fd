-- ===== src/Commit/Plan/Applied.antt =====
-- The batch of a commit, applied to the user index.
use expirkv.Prelude.{
  ℕ, ◌≡◌, refl, sym, ◌∙◌, ap, Bool, Option, none, some, List, [], ◌∷◌, ◌++◌, length, Bytes, arith,
}
use expirkv.Error.{StorageError, Operation, ok, map_err, bind-eq-ok}
use expirkv.Vlog.Pointer
use expirkv.Vlog.Pointer.{ValuePointer}
use expirkv.Commit.Mutation.{ValueState, absent, present}
use expirkv.Commit.Descriptor.{EncodedMutation}
use expirkv.Commit.Preflight.{try_reserve}
use expirkv.Commit.Plan.{KeyPlan, remap_preflight}
use expirkv.Commit.Plan.Batch.{user_mutation, push_index, from_index, push_plans, push_rows}
use expirkv.Index.{
  IndexMutation, IndexAtomicBatch, put_user, delete_user, put_internal, InternalIndexResult,
  index_ok, index_err, transaction, try_push,
}
use expirkv.Index.Batches.Ordinary.{Pushed, pushes, try_push-ok}
use expirkv.Index.Space.{
  UserSpace, set_row, apply_mutation, apply_mutations, apply_mutations-append,
}

-- What the user index holds for a key in this state.
unfoldable pub row : ValueState → Option Bytes
row absent = none
row (present pointer) = some (Pointer.bytes pointer)

encoded_bytes :
    (f : StorageError → StorageError) (pointer : ValuePointer) (encoded : Bytes)
    → map_err f (Pointer.encode pointer) ≡ ok encoded
    → encoded ≡ Pointer.bytes pointer
unfolding Pointer.encode
encoded_bytes f pointer encoded h = ground arith

user_mutation-row :
    (reserves : ℕ → Bool) (op : Operation) (key : Bytes) (state : ValueState) (m : IndexMutation)
    (space : UserSpace)
    → user_mutation reserves op key state ≡ ok m
    → apply_mutation m space ≡ set_row space key (row state)
unfolding user_mutation row
user_mutation-row reserves op key absent m space h =
    let e : delete_user key ≡ m = ground arith in rw (sym e) (unfold apply_mutation in refl)
user_mutation-row reserves op key (present pointer) m space h =
    let (encoded, encodes, h₁) =
      bind-eq-ok (map_err (remap_preflight op) (Pointer.encode pointer)) _ h in
    let (_, granted, h₂) = bind-eq-ok (try_reserve reserves (length encoded) op) _ h₁ in
    let e : put_user key encoded ≡ m = cc in
    let b : encoded ≡ Pointer.bytes pointer =
      encoded_bytes (remap_preflight op) pointer encoded encodes in
    rw (sym e, sym b) (unfold apply_mutation in refl)

pub from_index-ok :
    {A : Type 0} (op : Operation) (r : InternalIndexResult A) (a : A)
    → from_index op r ≡ ok a
    → r ≡ index_ok a
unfolding from_index
from_index-ok op (index_ok b) a h = cc
from_index-ok op (index_err e) a h = absurd (cc)

push_index-ok :
    (reserves : ℕ → Bool) (batch next : IndexAtomicBatch) (m : IndexMutation) (op : Operation)
    → push_index reserves batch m op ≡ ok next
    → try_push reserves batch m ≡ index_ok next
push_index-ok reserves batch next m op h = from_index-ok op _ next (unfold push_index in h)

-- The plans' states laid over a map, one after the other.
unfoldable pub overlay : List KeyPlan → UserSpace → UserSpace
unfolding row
overlay [] space = space
overlay (plan ∷ plans) space = overlay plans (set_row space plan.user_key (row plan.after_state))

-- One push: the mutation is last, and the batch still passes every preflight.
pub record IsPushed (batch : IndexAtomicBatch) (m : IndexMutation) (next : IndexAtomicBatch)
    : Type 0 where
  pub last : next.operations ≡ batch.operations ++ (m ∷ [])
  pub pushed : Pushed batch → Pushed next

pub push_index-IsPushed :
    (reserves : ℕ → Bool) (batch next : IndexAtomicBatch) (m : IndexMutation) (op : Operation)
    → push_index reserves batch m op ≡ ok next
    → IsPushed batch m next
push_index-IsPushed reserves batch next m op h =
    let tried = push_index-ok reserves batch next m op h in
    let (good, e) = try_push-ok reserves batch m next tried in
    record {
      last = ap (λ (b : IndexAtomicBatch). b.operations) e;
      pushed = λ v. pushes reserves m v tried;
    }

pub IsPushed-apply :
    (batch : IndexAtomicBatch) (m : IndexMutation) (next : IndexAtomicBatch) (space : UserSpace)
    → IsPushed batch m next
    → apply_mutations next.operations space
      ≡ apply_mutation m (apply_mutations batch.operations space)
IsPushed-apply batch m next space p =
    rw (p.last, apply_mutations-append batch.operations (m ∷ []) space)
      (unfold apply_mutations in refl)

pub push_plans-overlay :
    (reserves : ℕ → Bool) (op : Operation) (batch : IndexAtomicBatch) (plans : List KeyPlan)
    (done : IndexAtomicBatch) (space : UserSpace)
    → push_plans reserves op batch plans ≡ ok done
    → (Pushed batch → Pushed done)
      × (apply_mutations done.operations space
          ≡ overlay plans (apply_mutations batch.operations space))
unfolding push_plans overlay
push_plans-overlay reserves op batch [] done space h =
    let e : batch ≡ done = ground arith in rw (sym e) (λ v. v, refl)
push_plans-overlay reserves op batch (plan ∷ plans) done space h =
    let (_, granted, h₁) = bind-eq-ok (try_reserve reserves (length plan.user_key) op) _ h in
    let (m, made, h₂) =
      bind-eq-ok (user_mutation reserves op plan.user_key plan.after_state) _ h₁ in
    let (next, pushes_m, h₃) = bind-eq-ok (push_index reserves batch m op) _ h₂ in
    let one = push_index-IsPushed reserves batch next m op pushes_m in
    let (valid, rest) = push_plans-overlay reserves op next plans done space h₃ in
    (
      λ v. valid (one.pushed v),
      rest
          ∙ ap (overlay plans) (
              IsPushed-apply batch m next space one
              ∙ user_mutation-row reserves op plan.user_key plan.after_state m
                  (apply_mutations batch.operations space) made),
    )

-- Rows of the transaction space leave the user space as it is.
pub push_rows-same :
    (reserves : ℕ → Bool) (op : Operation) (batch : IndexAtomicBatch) (rows : List EncodedMutation)
    (done : IndexAtomicBatch) (space : UserSpace)
    → push_rows reserves op batch rows ≡ ok done
    → (Pushed batch → Pushed done)
      × (apply_mutations done.operations space ≡ apply_mutations batch.operations space)
unfolding push_rows
push_rows-same reserves op batch [] done space h =
    let e : batch ≡ done = ground arith in rw (sym e) (λ v. v, refl)
push_rows-same reserves op batch (r ∷ rows) done space h =
    let (_, granted, h₁) = bind-eq-ok (try_reserve reserves (length r.key) op) _ h in
    let m = put_internal transaction r.key r.value in
    let (next, pushes_m, h₂) = bind-eq-ok (push_index reserves batch m op) _ h₁ in
    let one = push_index-IsPushed reserves batch next m op pushes_m in
    let (valid, rest) = push_rows-same reserves op next rows done space h₂ in
    (
      λ v. valid (one.pushed v),
      rest ∙ IsPushed-apply batch m next space one ∙ unfold apply_mutation in refl,
    )
