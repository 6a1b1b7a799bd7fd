-- ===== src/Commit/Coordinator/Failure.antt =====
-- The errors that a commit and a barrier return tell the state that the instance is then in.
pub mod Started
use expirkv.Prelude.{
  List, [], ◌∷◌, ◌∙◌, ℕ, ◌≡◌, ◌≤◌, refl, sym, ap, Bool, true, false, Option, none, some, ltb, leb,
  ◌==◌, Bool-cases, inl, inr, if◌then◌else◌, arith,
}
use expirkv.Error.{
  StorageError, InstanceState, poisoned, Operation, op_write_batch, durable_frontier, index_commit,
  Result, ok, err,
}
use expirkv.Uuid.{Uuid}
use expirkv.Crc.{Crc}
use expirkv.Stats
use expirkv.Runtime.State.{state_rank, required_failure_state}
use expirkv.Runtime.State.{decode_state}
use expirkv.Runtime.Request.{mark_completed}
use expirkv.Runtime.Gate.{hand_over, Control, state, WriteRequest, latch_failure, finish_write}
use expirkv.Runtime.Gate.Coherent.{IsCoherent, StateCoherent, StatsCoherent, GateCoherent}
use expirkv.Runtime.Gate.Ticket.{finish_ticket-word}
use expirkv.Runtime.Gate.Steps.{latch_failure-IsCoherent, finish_write-IsCoherent}
use expirkv.Vlog.Envelope.{PreparedEnvelope}
use expirkv.Commit.Frontier.{DurableFrontier}
use expirkv.Commit.Preflight.{ValidatedWrite, transaction_kind}
use expirkv.Commit.Prepare.{PreparedCommit, RandomFill, prepare_commit}
use expirkv.Commit.Durability.{frontier_only_batch}
use expirkv.Commit.Coordinator.{
  CommitState, ValueLog, Backend, Coordinator, frontier_from_optional, descriptor_end_to_format,
  map_index_commit_error, remap_writer_operation, classify_vlog_append_failure, with_identity,
}
use expirkv.Commit.Coordinator.Request.{
  publish_stats, finish, finish_synced, fail_synced, fail_started, latch_target, latch_unfinished,
  finish_frontier_after_success, publish_nonempty_success, publish_empty_barrier_success, in_state,
  requested_target, is_healthy_target, next_state, with_frontier,
}
use expirkv.Commit.Coordinator.Commit.{
  Target, identity_of, mode_of, target_of, context_of, index_answered, commit_index, sync_answered,
  commit_sync, needs_vlog_sync, append_answered, commit_append, batch_answered,
  preparation_answered, with_target_frontier, commit_active,
}
use expirkv.Commit.Coordinator.Barrier.{
  barrier_index_answered, commit_barrier_synced, barrier_sync_answered, barrier_batch_answered,
  commit_empty_barrier,
}
use expirkv.Index.{IndexAtomicBatch, sync_all, IndexCommitResult, applied, commit_failed}
use expirkv.Commit.Coordinator.Outcome.{fail_synced-state}

-- What publish_stats asks of the commit state.
abbrev pub Ordered : CommitState → Type 0
Ordered s = s.durable_frontier.durable_seq ≤ s.head_seq

-- An error names the state of the control that stands beside it.
abbrev pub Reports : Control → Result (Unit {0}) → Type 0
Reports now (ok done) = Unit {0}
Reports now (err e) = e.instance_state ≡ some (state now).instance_state

module _ {W S I : Type 0} (log : ValueLog W S) where
  latch_target-state :
      (c : Coordinator W I) (target : InstanceState) (e : StorageError)
      → (latch_target c target e).state ≡ c.state
  unfolding latch_target
  latch_target-state c target e = ground arith

  -- On an ordered commit state the statistics are published, and no failure is latched.
  publish_stats-word :
      (c : Coordinator W I)
      → Ordered c.state
      → (publish_stats log c).runtime.state_word ≡ c.runtime.state_word
  unfolding publish_stats Stats.update_commit_state
  publish_stats-word c h =
      let in_order : ltb c.state.head_seq c.state.durable_frontier.durable_seq ≡ false =
        ground arith in
      rw in_order refl

  pub fail_started-Reports :
      (c : Coordinator W I) (ticket : WriteRequest) (e : StorageError)
      (asked : Option InstanceState) (identity : Option (ℕ × Uuid))
      → Ordered c.state
      → let out = fail_started log c ticket e asked identity in Reports out.0.runtime out.1
  unfolding fail_started finish in_state state
  fail_started-Reports c ticket e asked identity h =
      let named = with_identity e identity in
      let target = required_failure_state (requested_target asked named.instance_state) named in
      let aimed = in_state named target in
      let latched = latch_target c target aimed in
      let same =
        finish_ticket-word (publish_stats log latched).runtime ticket
        ∙ publish_stats-word latched (rw (latch_target-state c target aimed) h) in
      ap (λ (w : ℕ). some (decode_state w).instance_state) (sym same)
