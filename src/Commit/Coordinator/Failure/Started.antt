-- ===== src/Commit/Coordinator/Failure/Started.antt =====
-- A commit and a barrier, followed to each error that they return.
use expirkv.Prelude.{ℕ, Bool, Option, none, some, ltb, leb, ◌==◌, Bool-cases, inl, inr}
use expirkv.Error.{
  poisoned, Operation, op_write_batch, durable_frontier, index_commit, Result, ok, err,
}
use expirkv.Crc.{Crc}
use expirkv.Runtime.Gate.{WriteRequest}
use expirkv.Vlog.Envelope.{PreparedEnvelope}
use expirkv.Commit.Frontier.{DurableFrontier}
use expirkv.Commit.Preflight.{ValidatedWrite, transaction_kind}
use expirkv.Commit.Prepare.{PreparedCommit, RandomFill, prepare_commit}
use expirkv.Commit.Durability.{frontier_only_batch}
use expirkv.Commit.Coordinator.{
  CommitState, ValueLog, Backend, Coordinator, frontier_from_optional, map_index_commit_error,
  remap_writer_operation, classify_vlog_append_failure,
}
use expirkv.Commit.Coordinator.Request.{
  finish, fail_synced, publish_nonempty_success, publish_empty_barrier_success,
}
use expirkv.Commit.Coordinator.Commit.{
  Target, identity_of, mode_of, target_of, context_of, index_answered, commit_index, sync_answered,
  commit_sync, needs_vlog_sync, append_answered, commit_append, batch_answered,
  preparation_answered, with_target_frontier, commit_active,
}
use expirkv.Commit.Coordinator.Barrier.{
  barrier_index_answered, commit_barrier_synced, barrier_sync_answered, barrier_batch_answered,
  commit_empty_barrier,
}
use expirkv.Index.{IndexAtomicBatch, sync_all, IndexCommitResult, applied, commit_failed}
use expirkv.Commit.Coordinator.Outcome.{fail_synced-state}
use expirkv.Commit.Coordinator.Invariant.{IsConsistent}
use expirkv.Commit.Coordinator.Failure.{Ordered, Reports, fail_started-Reports}

module _ {W S I : Type 0} (log : ValueLog W S) (backend : Backend I) (ticket : WriteRequest) where
  module _ (t : Target) where
    index_answered-Reports :
        (c : Coordinator W I) (synced : Option S) (r : IndexCommitResult)
        → Ordered c.state
        → let out = index_answered log backend c ticket t synced r in Reports out.0.runtime out.1
    unfolding index_answered finish publish_nonempty_success
    index_answered-Reports c synced applied h = tt
    index_answered-Reports c synced (commit_failed e) h =
        let mapped = map_index_commit_error e t.operation index_commit (some (identity_of t)) in
        fail_started-Reports log (fail_synced log c synced) ticket mapped.0 (some mapped.1) none
          (rw (fail_synced-state log c synced) h)

    commit_index-Reports :
        (c : Coordinator W I) (batch : IndexAtomicBatch) (synced : Option S)
        → Ordered c.state
        → let out = commit_index log backend c ticket t batch synced in Reports out.0.runtime out.1
    unfolding commit_index
    commit_index-Reports c batch synced h =
        let answer = backend.commit_atomic c.index batch (mode_of t.sync) in
        index_answered-Reports (record c { index = answer.0 }) synced answer.1 h

    sync_answered-Reports :
        (c : Coordinator W I) (batch : IndexAtomicBatch) (r : Result S)
        → Ordered c.state
        → let out = sync_answered log backend c ticket t batch r in Reports out.0.runtime out.1
    unfolding sync_answered
    sync_answered-Reports c batch (ok synced) h = commit_index-Reports c batch (some synced) h
    sync_answered-Reports c batch (err e) h =
        fail_started-Reports log c ticket (remap_writer_operation t.operation e) (some poisoned)
          (some (identity_of t)) h

    commit_sync-Reports :
        (c : Coordinator W I) (batch : IndexAtomicBatch)
        → Ordered c.state
        → let out = commit_sync log backend c ticket t batch in Reports out.0.runtime out.1
    unfolding commit_sync
    commit_sync-Reports c batch h =
        let answer = log.sync_through c.writer t.vlog_seq t.vlog_end in
        elim (Bool-cases (needs_vlog_sync c.state t)) [
          | inl e ↦ rw e (sync_answered-Reports (record c { writer = answer.0 }) batch answer.1 h)
          | inr e ↦ rw e (commit_index-Reports c batch none h)
        ]

    append_answered-Reports :
        (c : Coordinator W I) (batch : IndexAtomicBatch) (r : Result (Unit {0}))
        → Ordered c.state
        → let out = append_answered log backend c ticket t batch r in Reports out.0.runtime out.1
    unfolding append_answered
    append_answered-Reports c batch (ok _) h = commit_sync-Reports c batch h
    append_answered-Reports c batch (err e) h =
        let renamed = remap_writer_operation t.operation e in
        fail_started-Reports log c ticket renamed
          (some (classify_vlog_append_failure renamed (log.has_terminal_failure c.writer)))
          (some (identity_of t)) h

    commit_append-Reports :
        (c : Coordinator W I) (batch : IndexAtomicBatch) (envelope : Option PreparedEnvelope)
        → Ordered c.state
        → let out = commit_append log backend c ticket t batch envelope in
          Reports out.0.runtime out.1
    unfolding commit_append
    commit_append-Reports c batch none h = commit_sync-Reports c batch h
    commit_append-Reports c batch (some envelope) h =
        let answer = log.append c.writer envelope in
        append_answered-Reports (record c { writer = answer.0 }) batch answer.1 h

    batch_answered-Reports :
        (c : Coordinator W I) (envelope : Option PreparedEnvelope) (r : Result IndexAtomicBatch)
        → Ordered c.state
        → let out = batch_answered log backend c ticket t envelope r in Reports out.0.runtime out.1
    unfolding batch_answered
    batch_answered-Reports c envelope (err e) h = fail_started-Reports log c ticket e none none h
    batch_answered-Reports c envelope (ok batch) h = commit_append-Reports c batch envelope h

  module _ (reserves : ℕ → Bool) (crc : Crc) where
    preparation_answered-Reports :
        (c : Coordinator W I) (op : Operation) (sync : Bool) (r : Result PreparedCommit)
        → Ordered c.state
        → let out = preparation_answered log backend reserves crc c ticket op sync r in
          Reports out.0.runtime out.1
    unfolding preparation_answered
    preparation_answered-Reports c op sync (err e) h =
        fail_started-Reports log c ticket e none none h
    preparation_answered-Reports c op sync (ok p) h =
        let t = target_of c.state p op sync in
        batch_answered-Reports t c p.envelope (with_target_frontier reserves crc p.index_batch t) h

    commit_active-Reports :
        (c : Coordinator W I) (random : RandomFill) (w : ValidatedWrite) (sync : Bool)
        → Ordered c.state
        → let out = commit_active log backend reserves crc c ticket random w sync in
          Reports out.0.runtime out.1
    unfolding commit_active
    commit_active-Reports c random w sync h =
        preparation_answered-Reports c w.public_operation sync
          (prepare_commit reserves crc (backend.get_user c.index) random w c.state.head_seq
            (context_of log backend c (transaction_kind w)))
          h

    barrier_index_answered-Reports :
        (c : Coordinator W I) (frontier : DurableFrontier) (synced : Option S)
        (r : IndexCommitResult)
        → Ordered c.state
        → let out = barrier_index_answered log backend reserves crc c ticket frontier synced r in
          Reports out.0.runtime out.1
    unfolding barrier_index_answered finish publish_empty_barrier_success
    barrier_index_answered-Reports c frontier synced applied h = tt
    barrier_index_answered-Reports c frontier synced (commit_failed e) h =
        let mapped = map_index_commit_error e op_write_batch durable_frontier none in
        fail_started-Reports log (fail_synced log c synced) ticket mapped.0 (some mapped.1) none
          (rw (fail_synced-state log c synced) h)

    barrier_synced-Reports :
        (c : Coordinator W I) (captured : CommitState) (frontier : DurableFrontier)
        (batch : IndexAtomicBatch) (synced : Option S)
        → Ordered c.state
        → let out =
            commit_barrier_synced log backend reserves crc c ticket captured frontier batch
              synced in
          Reports out.0.runtime out.1
    unfolding commit_barrier_synced finish
    barrier_synced-Reports c captured frontier batch synced h =
        elim (Bool-cases (leb captured.head_seq c.state.durable_frontier.durable_seq)) [
          | inl e ↦ rw e tt
          | inr e ↦
              let answer = backend.commit_atomic c.index batch sync_all in
              rw e (
                barrier_index_answered-Reports (record c { index = answer.0 }) frontier synced
                  answer.1 h)
        ]

    barrier_sync_answered-Reports :
        (c : Coordinator W I) (captured : CommitState) (frontier : DurableFrontier)
        (batch : IndexAtomicBatch) (r : Result S)
        → Ordered c.state
        → let out =
            barrier_sync_answered log backend reserves crc c ticket captured frontier batch r in
          Reports out.0.runtime out.1
    unfolding barrier_sync_answered
    barrier_sync_answered-Reports c captured frontier batch (ok synced) h =
        barrier_synced-Reports c captured frontier batch (some synced) h
    barrier_sync_answered-Reports c captured frontier batch (err e) h =
        fail_started-Reports log c ticket (remap_writer_operation op_write_batch e) (some poisoned)
          none h

    barrier_batch_answered-Reports :
        (c : Coordinator W I) (frontier : DurableFrontier) (r : Result IndexAtomicBatch)
        → Ordered c.state
        → let out = barrier_batch_answered log backend reserves crc c ticket frontier r in
          Reports out.0.runtime out.1
    unfolding barrier_batch_answered
    barrier_batch_answered-Reports c frontier (err e) h =
        fail_started-Reports log c ticket e none none h
    barrier_batch_answered-Reports c frontier (ok batch) h =
        let answer = log.sync_through c.writer c.state.head_vlog_seq c.state.head_vlog_end in
        elim (Bool-cases (ltb c.state.durable_frontier.durable_vlog_seq c.state.head_vlog_seq)) [
          | inl e ↦ rw e (
              barrier_sync_answered-Reports (record c { writer = answer.0 }) c.state frontier batch
                answer.1 h)
          | inr e ↦ rw e (barrier_synced-Reports c c.state frontier batch none h)
        ]

    commit_empty_barrier-Reports :
        (c : Coordinator W I)
        → Ordered c.state
        → let out = commit_empty_barrier log backend reserves crc c ticket in
          Reports out.0.runtime out.1
    unfolding commit_empty_barrier finish
    commit_empty_barrier-Reports c h =
        let frontier =
          frontier_from_optional c.state.head_seq c.state.head_vlog_seq c.state.head_vlog_end in
        let batch = frontier_only_batch reserves crc frontier op_write_batch in
        elim (Bool-cases (c.state.head_seq == c.state.durable_frontier.durable_seq)) [
          | inl e ↦ rw e tt
          | inr e ↦ rw e (barrier_batch_answered-Reports c frontier batch h)
        ]

module _ {W S I : Type 0} (log : ValueLog W S) (backend : Backend I) (reserves : ℕ → Bool)
    (crc : Crc) (c : Coordinator W I) (ticket : WriteRequest)
    (consistent : IsConsistent c.state) where
  -- From a consistent commit state, whatever the allocator, the writer and the index answer, an error
  -- that a commit or a barrier returns names the instance state that the runtime has when the request
  -- has ended: latching the failure, publishing the statistics, finishing the request and starting
  -- the next one change it no more.
  pub requests-Reports :
      ((random : RandomFill) (w : ValidatedWrite) (sync : Bool)
        → let out = commit_active log backend reserves crc c ticket random w sync in
          Reports out.0.runtime out.1)
      × (let out = commit_empty_barrier log backend reserves crc c ticket in
          Reports out.0.runtime out.1)
  requests-Reports = (
    λ random w sync.
        commit_active-Reports log backend ticket reserves crc c random w sync
          consistent.durable_order,
    commit_empty_barrier-Reports log backend ticket reserves crc c consistent.durable_order,
  )
