-- ===== src/Commit/Durability/Rows.antt =====
-- src/commit/durability.rs: the row of a durable frontier that a batch carries.
use expirkv.Prelude.{ℕ, ◌≡◌, sym, ◌∙◌, ap, Bool, true, false, [], ◌∷◌, ◌++◌, Bytes, arith}
use mathlib.Core.Path.{subst}
use expirkv.Error.{StorageError, Operation, Result, ok, err, map_err, bind-eq-ok}
use expirkv.Crc.{Crc}
use expirkv.Commit.Frontier
use expirkv.Commit.Frontier.{DurableFrontier}
use expirkv.Commit.Durability.{
  remap_construction, from_index, try_copy, add_frontier_to_batch, frontier_only_batch,
}
use expirkv.Index.{
  IndexAtomicBatch, put_internal, system, durable_frontier_key, InternalIndexResult, index_ok,
  index_err, try_with_capacity,
}
use expirkv.Index.Batches.Ordinary.{try_push-ok}

-- A batch with the row of a durable frontier behind it, when the frontier is to be made durable.
abbrev pub Carries : Crc → IndexAtomicBatch → Bool → DurableFrontier → IndexAtomicBatch → Type 0
Carries crc start false frontier batch = batch ≡ start
Carries crc start true frontier batch =
    (encoded : Bytes) × (Frontier.encode crc frontier ≡ ok encoded)
    × (batch.operations
        ≡ start.operations ++ (put_internal system durable_frontier_key encoded ∷ []))

map_err-eq-ok :
    {A : Type 0} (f : StorageError → StorageError) (r : Result A) (a : A)
    → map_err f r ≡ ok a
    → r ≡ ok a
map_err-eq-ok f (ok b) a h = h
map_err-eq-ok f (err e) a h = absurd (cc)

from_index-eq-ok :
    {A : Type 0} (op : Operation) (r : InternalIndexResult A) (a : A)
    → from_index op r ≡ ok a
    → r ≡ index_ok a
unfolding from_index
from_index-eq-ok op (index_ok b) a h = cc
from_index-eq-ok op (index_err e) a h = absurd (cc)

try_copy-eq-ok :
    (reserves : ℕ → Bool) (bytes : Bytes) (op : Operation) (copied : Bytes)
    → try_copy reserves bytes op ≡ ok copied
    → copied ≡ bytes
unfolding try_copy
try_copy-eq-ok reserves bytes op copied h = ground arith

-- The batch is the one given, with the row behind it.
pub add_frontier_to_batch-Carries :
    (reserves : ℕ → Bool) (crc : Crc) (start : IndexAtomicBatch) (frontier : DurableFrontier)
    (op : Operation) (batch : IndexAtomicBatch)
    → add_frontier_to_batch reserves crc start frontier op ≡ ok batch
    → Carries crc start true frontier batch
unfolding add_frontier_to_batch
add_frontier_to_batch-Carries reserves crc start frontier op batch h =
    let (encoded, h₀, h₁) =
      bind-eq-ok (map_err (λ e. remap_construction e.kind op) (Frontier.encode crc frontier)) _ h in
    let (key, e₁, h₂) = bind-eq-ok (try_copy reserves durable_frontier_key op) _ h₁ in
    let (value, e₂, h₃) = bind-eq-ok (try_copy reserves encoded op) _ h₂ in
    let is_key = try_copy-eq-ok reserves durable_frontier_key op key e₁ in
    let is_value = try_copy-eq-ok reserves encoded op value e₂ in
    let row = put_internal system key value in
    let (_, e) = try_push-ok reserves start row batch (from_index-eq-ok op _ batch h₃) in
    (
      encoded,
      map_err-eq-ok _ _ encoded h₀,
      ap (λ (b : IndexAtomicBatch). b.operations) e
          ∙ ap (λ k. start.operations ++ (put_internal system k value ∷ [])) is_key
          ∙ ap (λ v. start.operations ++ (put_internal system durable_frontier_key v ∷ []))
              is_value,
    )

pub frontier_only_batch-Carries :
    (reserves : ℕ → Bool) (crc : Crc) (frontier : DurableFrontier) (op : Operation)
    (batch : IndexAtomicBatch)
    → frontier_only_batch reserves crc frontier op ≡ ok batch
    → Carries crc (record { operations = [] }) true frontier batch
unfolding frontier_only_batch try_with_capacity
frontier_only_batch-Carries reserves crc frontier op batch h =
    let (start, h₀, h₁) = bind-eq-ok (from_index op (try_with_capacity reserves 1)) _ h in
    let taken : try_with_capacity reserves 1 ≡ index_ok start = from_index-eq-ok op _ start h₀ in
    let is_empty : record { operations = [] } ≡ start = ground arith in
    subst (λ (b : IndexAtomicBatch). Carries crc b true frontier batch) (sym is_empty)
      (add_frontier_to_batch-Carries reserves crc start frontier op batch h₁)
