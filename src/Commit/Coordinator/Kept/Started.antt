-- ===== src/Commit/Coordinator/Kept/Started.antt =====
-- A commit and a barrier keep what latching, finishing and publishing keep, and so the coherence of the
-- gate.
use expirkv.Prelude.{ℕ, Bool, Option, none, some, ltb, leb, ◌==◌, Bool-cases, inl, inr}
use expirkv.Error.{
  StorageError, InstanceState, poisoned, Operation, op_write_batch, durable_frontier, index_commit,
  Result, ok, err,
}
use expirkv.Uuid.{Uuid}
use expirkv.Crc.{Crc}
use expirkv.Runtime.Gate.{Control, WriteRequest}
use expirkv.Vlog.Envelope.{PreparedEnvelope}
use expirkv.Commit.Frontier.{DurableFrontier}
use expirkv.Commit.Preflight.{ValidatedWrite, transaction_kind}
use expirkv.Commit.Prepare.{PreparedCommit, RandomFill, prepare_commit}
use expirkv.Commit.Durability.{frontier_only_batch}
use expirkv.Commit.Coordinator.{
  CommitState, ValueLog, Backend, Coordinator, frontier_from_optional, map_index_commit_error,
  remap_writer_operation, classify_vlog_append_failure,
}
use expirkv.Commit.Coordinator.Request.{
  finish, fail_synced, fail_started, publish_nonempty_success, publish_empty_barrier_success,
}
use expirkv.Commit.Coordinator.Commit.{
  Target, identity_of, mode_of, target_of, context_of, index_answered, commit_index, sync_answered,
  commit_sync, needs_vlog_sync, append_answered, commit_append, batch_answered,
  preparation_answered, with_target_frontier, commit_active,
}
use expirkv.Commit.Coordinator.Barrier.{
  barrier_index_answered, commit_barrier_synced, barrier_sync_answered, barrier_batch_answered,
  commit_empty_barrier,
}
use expirkv.Index.{IndexAtomicBatch, sync_all, IndexCommitResult, applied, commit_failed}
use expirkv.Commit.Coordinator.Kept.{
  IsKept, publish_stats-Kept, fail_started-Kept, finish_synced-Kept, fail_synced-Kept,
}

module _ (P : Control → Type 0) (kept : IsKept P) {W S I : Type 0} (log : ValueLog W S)
    (backend : Backend I) (ticket : WriteRequest) where
  failed :
      (c : Coordinator W I) (e : StorageError) (asked : Option InstanceState)
      (identity : Option (ℕ × Uuid))
      → P c.runtime
      → P (fail_started log c ticket e asked identity).0.runtime
  failed c e asked identity = fail_started-Kept P kept log c ticket e asked identity

  module _ (t : Target) where
    index_answered-Kept :
        (c : Coordinator W I) (synced : Option S) (r : IndexCommitResult)
        → P c.runtime
        → P (index_answered log backend c ticket t synced r).0.runtime
    unfolding index_answered finish publish_nonempty_success
    index_answered-Kept c synced applied h =
        kept.finishes _ ticket
          (publish_stats-Kept P kept log _ (finish_synced-Kept P kept log c synced t.operation h))
    index_answered-Kept c synced (commit_failed e) h =
        let mapped = map_index_commit_error e t.operation index_commit (some (identity_of t)) in
        failed (fail_synced log c synced) mapped.0 (some mapped.1) none
          (fail_synced-Kept P kept log c synced h)

    commit_index-Kept :
        (c : Coordinator W I) (batch : IndexAtomicBatch) (synced : Option S)
        → P c.runtime
        → P (commit_index log backend c ticket t batch synced).0.runtime
    unfolding commit_index
    commit_index-Kept c batch synced h =
        let answer = backend.commit_atomic c.index batch (mode_of t.sync) in
        index_answered-Kept (record c { index = answer.0 }) synced answer.1 h

    sync_answered-Kept :
        (c : Coordinator W I) (batch : IndexAtomicBatch) (r : Result S)
        → P c.runtime
        → P (sync_answered log backend c ticket t batch r).0.runtime
    unfolding sync_answered
    sync_answered-Kept c batch (ok synced) h = commit_index-Kept c batch (some synced) h
    sync_answered-Kept c batch (err e) h =
        failed c (remap_writer_operation t.operation e) (some poisoned) (some (identity_of t)) h

    commit_sync-Kept :
        (c : Coordinator W I) (batch : IndexAtomicBatch)
        → P c.runtime
        → P (commit_sync log backend c ticket t batch).0.runtime
    unfolding commit_sync
    commit_sync-Kept c batch h =
        let answer = log.sync_through c.writer t.vlog_seq t.vlog_end in
        elim (Bool-cases (needs_vlog_sync c.state t)) [
          | inl e ↦ rw e (sync_answered-Kept (record c { writer = answer.0 }) batch answer.1 h)
          | inr e ↦ rw e (commit_index-Kept c batch none h)
        ]

    append_answered-Kept :
        (c : Coordinator W I) (batch : IndexAtomicBatch) (r : Result (Unit {0}))
        → P c.runtime
        → P (append_answered log backend c ticket t batch r).0.runtime
    unfolding append_answered
    append_answered-Kept c batch (ok _) h = commit_sync-Kept c batch h
    append_answered-Kept c batch (err e) h =
        let renamed = remap_writer_operation t.operation e in
        failed c renamed
          (some (classify_vlog_append_failure renamed (log.has_terminal_failure c.writer)))
          (some (identity_of t)) h

    commit_append-Kept :
        (c : Coordinator W I) (batch : IndexAtomicBatch) (envelope : Option PreparedEnvelope)
        → P c.runtime
        → P (commit_append log backend c ticket t batch envelope).0.runtime
    unfolding commit_append
    commit_append-Kept c batch none h = commit_sync-Kept c batch h
    commit_append-Kept c batch (some envelope) h =
        let answer = log.append c.writer envelope in
        append_answered-Kept (record c { writer = answer.0 }) batch answer.1 h

    batch_answered-Kept :
        (c : Coordinator W I) (envelope : Option PreparedEnvelope) (r : Result IndexAtomicBatch)
        → P c.runtime
        → P (batch_answered log backend c ticket t envelope r).0.runtime
    unfolding batch_answered
    batch_answered-Kept c envelope (err e) h = failed c e none none h
    batch_answered-Kept c envelope (ok batch) h = commit_append-Kept c batch envelope h

  module _ (reserves : ℕ → Bool) (crc : Crc) where
    preparation_answered-Kept :
        (c : Coordinator W I) (op : Operation) (sync : Bool) (r : Result PreparedCommit)
        → P c.runtime
        → P (preparation_answered log backend reserves crc c ticket op sync r).0.runtime
    unfolding preparation_answered
    preparation_answered-Kept c op sync (err e) h = failed c e none none h
    preparation_answered-Kept c op sync (ok p) h =
        let t = target_of c.state p op sync in
        batch_answered-Kept t c p.envelope (with_target_frontier reserves crc p.index_batch t) h

    pub commit_active-Kept :
        (c : Coordinator W I) (random : RandomFill) (w : ValidatedWrite) (sync : Bool)
        → P c.runtime
        → P (commit_active log backend reserves crc c ticket random w sync).0.runtime
    unfolding commit_active
    commit_active-Kept c random w sync h =
        preparation_answered-Kept c w.public_operation sync
          (prepare_commit reserves crc (backend.get_user c.index) random w c.state.head_seq
            (context_of log backend c (transaction_kind w)))
          h

    barrier_index_answered-Kept :
        (c : Coordinator W I) (frontier : DurableFrontier) (synced : Option S)
        (r : IndexCommitResult)
        → P c.runtime
        → P (barrier_index_answered log backend reserves crc c ticket frontier synced r).0.runtime
    unfolding barrier_index_answered finish publish_empty_barrier_success
    barrier_index_answered-Kept c frontier synced applied h =
        kept.finishes _ ticket (
          publish_stats-Kept P kept log _ (finish_synced-Kept P kept log c synced op_write_batch h))
    barrier_index_answered-Kept c frontier synced (commit_failed e) h =
        let mapped = map_index_commit_error e op_write_batch durable_frontier none in
        failed (fail_synced log c synced) mapped.0 (some mapped.1) none
          (fail_synced-Kept P kept log c synced h)

    barrier_synced-Kept :
        (c : Coordinator W I) (captured : CommitState) (frontier : DurableFrontier)
        (batch : IndexAtomicBatch) (synced : Option S)
        → P c.runtime
        → P
            (commit_barrier_synced log backend reserves crc c ticket captured frontier batch
              synced).0.runtime
    unfolding commit_barrier_synced finish
    barrier_synced-Kept c captured frontier batch synced h =
        elim (Bool-cases (leb captured.head_seq c.state.durable_frontier.durable_seq)) [
          | inl e ↦
              rw e
                (kept.finishes _ ticket (finish_synced-Kept P kept log c synced op_write_batch h))
          | inr e ↦
              let answer = backend.commit_atomic c.index batch sync_all in
              rw e (
                barrier_index_answered-Kept (record c { index = answer.0 }) frontier synced answer.1
                  h)
        ]

    barrier_sync_answered-Kept :
        (c : Coordinator W I) (captured : CommitState) (frontier : DurableFrontier)
        (batch : IndexAtomicBatch) (r : Result S)
        → P c.runtime
        → P
            (barrier_sync_answered log backend reserves crc c ticket captured frontier batch
              r).0.runtime
    unfolding barrier_sync_answered
    barrier_sync_answered-Kept c captured frontier batch (ok synced) h =
        barrier_synced-Kept c captured frontier batch (some synced) h
    barrier_sync_answered-Kept c captured frontier batch (err e) h =
        failed c (remap_writer_operation op_write_batch e) (some poisoned) none h

    barrier_batch_answered-Kept :
        (c : Coordinator W I) (frontier : DurableFrontier) (r : Result IndexAtomicBatch)
        → P c.runtime
        → P (barrier_batch_answered log backend reserves crc c ticket frontier r).0.runtime
    unfolding barrier_batch_answered
    barrier_batch_answered-Kept c frontier (err e) h = failed c e none none h
    barrier_batch_answered-Kept c frontier (ok batch) h =
        let answer = log.sync_through c.writer c.state.head_vlog_seq c.state.head_vlog_end in
        elim (Bool-cases (ltb c.state.durable_frontier.durable_vlog_seq c.state.head_vlog_seq)) [
          | inl e ↦ rw e (
              barrier_sync_answered-Kept (record c { writer = answer.0 }) c.state frontier batch
                answer.1 h)
          | inr e ↦ rw e (barrier_synced-Kept c c.state frontier batch none h)
        ]

    pub commit_empty_barrier-Kept :
        (c : Coordinator W I)
        → P c.runtime
        → P (commit_empty_barrier log backend reserves crc c ticket).0.runtime
    unfolding commit_empty_barrier finish
    commit_empty_barrier-Kept c h =
        let frontier =
          frontier_from_optional c.state.head_seq c.state.head_vlog_seq c.state.head_vlog_end in
        let batch = frontier_only_batch reserves crc frontier op_write_batch in
        elim (Bool-cases (c.state.head_seq == c.state.durable_frontier.durable_seq)) [
          | inl e ↦ rw e (kept.finishes c.runtime ticket h)
          | inr e ↦ rw e (barrier_batch_answered-Kept c frontier batch h)
        ]
