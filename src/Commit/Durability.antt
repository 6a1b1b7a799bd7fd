-- ===== src/Commit/Durability.antt =====
-- src/commit/durability.rs: the mutation that records a durable frontier. The mutex that serialises
-- frontiers is left out: one request at a time is modelled. `reserves n` says whether the allocator
-- grants room for `n` bytes or mutations, `crc` is the `crc32c` crate.
pub mod Rows
use expirkv.Prelude.{ℕ, Bool, not, length, Bytes}
use expirkv.Error
use expirkv.Error.{
  StorageError, StorageErrorKind, Operation, resource_exhausted, retry_same_instance, Result, ok,
  err, ◌>>=◌, ◌>>◌, map_err, reject_if,
}
use expirkv.Crc.{Crc}
use expirkv.Commit.Frontier
use expirkv.Commit.Frontier.{DurableFrontier}
use expirkv.Commit.Plan.Batch.{construction_advice}
use expirkv.Index.{
  IndexAtomicBatch, put_internal, system, durable_frontier_key, InternalIndexResult, index_ok,
  index_err, try_with_capacity, try_push,
}

unfoldable pub remap_construction : StorageErrorKind → Operation → StorageError
unfolding construction_advice Error.write_preflight
remap_construction k op = Error.write_preflight k op (construction_advice k)

-- `map_err` with `map_index_error`.
unfoldable pub from_index : {A : Type 0} → Operation → InternalIndexResult A → Result A
unfolding remap_construction
from_index op (index_ok a) = ok a
from_index op (index_err e) = err (remap_construction e.kind op)

unfoldable pub try_copy : (ℕ → Bool) → Bytes → Operation → Result Bytes
unfolding Error.write_preflight
try_copy reserves bytes op =
    reject_if (not (reserves (length bytes)))
      (Error.write_preflight resource_exhausted op retry_same_instance)
    >> ok bytes

unfoldable pub add_frontier_to_batch :
    (ℕ → Bool) → Crc → IndexAtomicBatch → DurableFrontier → Operation → Result IndexAtomicBatch
unfolding Frontier.encode remap_construction try_copy from_index
add_frontier_to_batch reserves crc batch frontier op = do
  encoded ← map_err (λ e. remap_construction e.kind op) (Frontier.encode crc frontier)
  key ← try_copy reserves durable_frontier_key op
  value ← try_copy reserves encoded op
  from_index op (try_push reserves batch (put_internal system key value))

unfoldable pub frontier_only_batch :
    (ℕ → Bool) → Crc → DurableFrontier → Operation → Result IndexAtomicBatch
unfolding from_index add_frontier_to_batch
frontier_only_batch reserves crc frontier op = do
  batch ← from_index op (try_with_capacity reserves 1)
  add_frontier_to_batch reserves crc batch frontier op
