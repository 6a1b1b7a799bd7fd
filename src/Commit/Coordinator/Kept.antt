-- ===== src/Commit/Coordinator/Kept.antt =====
-- What holds of the gate through latching, finishing and publishing holds after every request of the
-- coordinator.
pub mod Started
use expirkv.Prelude.{
  ℕ, ◌≡◌, ◌≤◌, refl, sym, ap, Bool, true, false, Option, none, some, ltb, leb, ◌==◌, Bool-cases,
  inl, inr, if◌then◌else◌, arith,
}
use expirkv.Error.{
  StorageError, InstanceState, poisoned, Operation, op_write_batch, durable_frontier, index_commit,
  Result, ok, err,
}
use mathlib.Core.Option
use expirkv.Uuid.{Uuid}
use expirkv.Crc.{Crc}
use expirkv.Stats
use expirkv.Runtime.State.{state_rank, required_failure_state}
use expirkv.Runtime.Gate.{Control, state, WriteRequest, latch_failure}
use expirkv.Runtime.Gate.Ticket.{finish_ticket}
use expirkv.Runtime.Gate.Coherent.{IsCoherent, StateCoherent, StatsCoherent, GateCoherent}
use expirkv.Runtime.Gate.Steps.{latch_failure-IsCoherent, finish_write-IsCoherent}
use expirkv.Vlog.Envelope.{PreparedEnvelope}
use expirkv.Commit.Frontier.{DurableFrontier}
use expirkv.Commit.Preflight.{ValidatedWrite, transaction_kind}
use expirkv.Commit.Prepare.{PreparedCommit, RandomFill, prepare_commit}
use expirkv.Commit.Durability.{frontier_only_batch}
use expirkv.Commit.Coordinator.{
  CommitState, ValueLog, Backend, Coordinator, frontier_from_optional, map_index_commit_error,
  remap_writer_operation, classify_vlog_append_failure, with_identity, descriptor_end_to_format,
  stats_invariant_error,
}
use expirkv.Vlog.Geometry.{VLogPosition}
use expirkv.Commit.Coordinator.Request.{
  publish_stats, finish, finish_synced, fail_synced, fail_started, latch_target, latch_unfinished,
  finish_frontier_after_success, publish_nonempty_success, publish_empty_barrier_success, in_state,
  requested_target, is_healthy_target, next_state, with_frontier,
}
use expirkv.Commit.Coordinator.Commit.{
  Target, identity_of, mode_of, target_of, context_of, index_answered, commit_index, sync_answered,
  commit_sync, needs_vlog_sync, append_answered, commit_append, batch_answered,
  preparation_answered, with_target_frontier, commit_active,
}
use expirkv.Commit.Coordinator.Barrier.{
  barrier_index_answered, commit_barrier_synced, barrier_sync_answered, barrier_batch_answered,
  commit_empty_barrier,
}
use expirkv.Index.{IndexAtomicBatch, sync_all, IndexCommitResult, applied, commit_failed}

-- A property of the gate that the coordinator's calls keep.
pub record IsKept (P : Control → Type 0) : Type 0 where
  pub latches :
      (c : Control) (target : InstanceState) (e : StorageError)
      → P c
      → P (latch_failure c target e).0
  pub finishes : (c : Control) (r : WriteRequest) → P c → P (finish_ticket c r).0
  pub publishes :
      (c : Control) (head durable : ℕ) (end : Option (ℕ × ℕ)) (active : Option ℕ) (count bytes : ℕ)
      → P c
      → P (record c {
        stats = (Stats.update_commit_state c.stats head durable end active count bytes).0;
      })

module _ (P : Control → Type 0) (kept : IsKept P) where
  module _ {W I : Type 0} where
    latch_target-Kept :
        (c : Coordinator W I) (target : InstanceState) (e : StorageError)
        → P c.runtime
        → P (latch_target c target e).runtime
    unfolding latch_target
    latch_target-Kept c target e h = elim (Bool-cases (is_healthy_target target)) [
      | inl up ↦ rw up h
      | inr down ↦ rw down (kept.latches c.runtime target e h)
    ]

    latch_unfinished-Kept :
        (c : Coordinator W I) (op : Operation) (r : Result (Unit {0}))
        → P c.runtime
        → P (latch_unfinished c op r).runtime
    unfolding latch_unfinished
    latch_unfinished-Kept c op (ok _) h = h
    latch_unfinished-Kept c op (err e) h = kept.latches c.runtime poisoned _ h

  module _ {W S I : Type 0} (log : ValueLog W S) where
    pub publish_stats-Kept : (c : Coordinator W I) → P c.runtime → P (publish_stats log c).runtime
    unfolding publish_stats
    publish_stats-Kept c h =
        let end =
          Option.map (λ (p : VLogPosition). (p.file_id, p.offset))
            (descriptor_end_to_format c.state.durable_frontier.durable_vlog_end) in
        let active = log.active_file_id c.writer in
        let count = log.file_count c.writer in
        let bytes = log.logical_bytes c.writer in
        let durable = c.state.durable_frontier.durable_seq in
        let updated =
          Stats.update_commit_state c.runtime.stats c.state.head_seq durable end active count
            bytes in
        elim (Bool-cases updated.1) [
          | inl good ↦
              rw good (kept.publishes c.runtime c.state.head_seq durable end active count bytes h)
          | inr bad ↦ rw bad (kept.latches c.runtime poisoned stats_invariant_error h)
        ]

    pub fail_started-Kept :
        (c : Coordinator W I) (ticket : WriteRequest) (e : StorageError)
        (asked : Option InstanceState) (identity : Option (ℕ × Uuid))
        → P c.runtime
        → P (fail_started log c ticket e asked identity).0.runtime
    unfolding fail_started finish
    fail_started-Kept c ticket e asked identity h =
        let named = with_identity e identity in
        let target = required_failure_state (requested_target asked named.instance_state) named in
        let aimed = in_state named target in
        kept.finishes _ ticket
          (publish_stats-Kept (latch_target c target aimed) (latch_target-Kept c target aimed h))

    pub finish_synced-Kept :
        (c : Coordinator W I) (synced : Option S) (op : Operation)
        → P c.runtime
        → P (finish_synced log c synced op).runtime
    unfolding finish_synced finish_frontier_after_success
    finish_synced-Kept c none op h = h
    finish_synced-Kept c (some synced) op h = latch_unfinished-Kept _ op _ h

    pub fail_synced-Kept :
        (c : Coordinator W I) (synced : Option S)
        → P c.runtime
        → P (fail_synced log c synced).runtime
    unfolding fail_synced
    fail_synced-Kept c none h = h
    fail_synced-Kept c (some synced) h = h
