-- ===== src/Commit/Coordinator/Barrier.antt =====
-- src/commit/coordinator.rs: `commit_empty_barrier` for an active request, which makes the head
-- durable and commits nothing else.
use expirkv.Prelude.{ℕ, Bool, Option, none, some, ltb, leb, ◌==◌, if◌then◌else◌}
use expirkv.Error.{poisoned, op_write_batch, durable_frontier, Result, ok, err}
use expirkv.Crc.{Crc}
use expirkv.Runtime.Gate.{WriteRequest}
use expirkv.Commit.Frontier.{DurableFrontier}
use expirkv.Commit.Durability.{frontier_only_batch}
use expirkv.Commit.Coordinator.{
  CommitState, ValueLog, Backend, Coordinator, frontier_from_optional, remap_writer_operation,
  map_index_commit_error,
}
use expirkv.Commit.Coordinator.Request.{
  fail_started, finish, finish_synced, fail_synced, publish_empty_barrier_success,
}
use expirkv.Index.{IndexAtomicBatch, sync_all, IndexCommitResult, applied, commit_failed}

module _ {W S I : Type 0} (log : ValueLog W S) (backend : Backend I) where
  module _ (reserves : ℕ → Bool) (crc : Crc) where
    -- The commit of the barrier's frontier.
    unfoldable pub barrier_index_answered :
        Coordinator W I
        → WriteRequest
        → DurableFrontier
        → Option S
        → IndexCommitResult
        → Coordinator W I × Result (Unit {0})
    unfolding finish_synced publish_empty_barrier_success finish fail_synced map_index_commit_error
        fail_started
    barrier_index_answered c ticket frontier synced applied = (
      finish
          (publish_empty_barrier_success log (finish_synced log c synced op_write_batch) frontier)
          ticket,
      ok tt,
    )
    barrier_index_answered c ticket frontier synced (commit_failed e) =
        let mapped = map_index_commit_error e op_write_batch durable_frontier none in
        fail_started log (fail_synced log c synced) ticket mapped.0 (some mapped.1) none

    -- Behind the sync, the frontier is read again: when it has reached the head already, nothing is
    -- left to commit.
    unfoldable pub commit_barrier_synced :
        Coordinator W I
        → WriteRequest
        → CommitState
        → DurableFrontier
        → IndexAtomicBatch
        → Option S
        → Coordinator W I × Result (Unit {0})
    unfolding finish_synced finish barrier_index_answered
    commit_barrier_synced c ticket captured frontier batch synced =
        if leb captured.head_seq c.state.durable_frontier.durable_seq
        then (finish (finish_synced log c synced op_write_batch) ticket, ok tt)
        else (let answer = backend.commit_atomic c.index batch sync_all in
            barrier_index_answered (record c { index = answer.0 }) ticket frontier synced answer.1)

    unfoldable pub barrier_sync_answered :
        Coordinator W I
        → WriteRequest
        → CommitState
        → DurableFrontier
        → IndexAtomicBatch
        → Result S
        → Coordinator W I × Result (Unit {0})
    unfolding commit_barrier_synced fail_started remap_writer_operation
    barrier_sync_answered c ticket captured frontier batch (ok synced) =
        commit_barrier_synced c ticket captured frontier batch (some synced)
    barrier_sync_answered c ticket captured frontier batch (err e) =
        fail_started log c ticket (remap_writer_operation op_write_batch e) (some poisoned) none

    unfoldable pub barrier_batch_answered :
        Coordinator W I
        → WriteRequest
        → DurableFrontier
        → Result IndexAtomicBatch
        → Coordinator W I × Result (Unit {0})
    unfolding fail_started commit_barrier_synced barrier_sync_answered
    barrier_batch_answered c ticket frontier (err e) = fail_started log c ticket e none none
    barrier_batch_answered c ticket frontier (ok batch) =
        let answer = log.sync_through c.writer c.state.head_vlog_seq c.state.head_vlog_end in
        if ltb c.state.durable_frontier.durable_vlog_seq c.state.head_vlog_seq
        then barrier_sync_answered (record c { writer = answer.0 }) ticket c.state frontier batch
            answer.1
        else commit_barrier_synced c ticket c.state frontier batch none

    -- `commit_empty_barrier`.
    unfoldable pub commit_empty_barrier :
        Coordinator W I → WriteRequest → Coordinator W I × Result (Unit {0})
    unfolding frontier_from_optional frontier_only_batch finish barrier_batch_answered
    commit_empty_barrier c ticket =
        let frontier =
          frontier_from_optional c.state.head_seq c.state.head_vlog_seq c.state.head_vlog_end in
        if c.state.head_seq == c.state.durable_frontier.durable_seq
        then (finish c ticket, ok tt)
        else barrier_batch_answered c ticket frontier
            (frontier_only_batch reserves crc frontier op_write_batch)
