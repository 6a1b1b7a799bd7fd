-- ===== src/Commit/Coordinator/Outcome.antt =====
-- How an active request ends: with the commit state moved on, or with the state as it was.
use expirkv.Prelude.{ℕ, ◌≡◌, ◌⊎◌, inl, inr, refl, ◌∙◌, Option, none, some, Bool-cases, arith}
use expirkv.Error.{StorageError, InstanceState, poisoned, index_commit, Operation, Result, ok, err}
use expirkv.Uuid.{Uuid}
use expirkv.Runtime.State.{required_failure_state}
use expirkv.Runtime.Gate.{WriteRequest}
use expirkv.Vlog.Envelope.{PreparedEnvelope}
use expirkv.Commit.Coordinator.{
  CommitState, ValueLog, Backend, Coordinator, with_identity, map_index_commit_error,
  remap_writer_operation, classify_vlog_append_failure,
}
use expirkv.Commit.Coordinator.Request.{
  publish_stats, latch_unfinished, in_state, requested_target, fail_started, finish, latch_target,
  finish_frontier_after_success, finish_synced, fail_synced, next_state, with_frontier,
  publish_nonempty_success,
}
use expirkv.Commit.Coordinator.Commit.{
  Target, identity_of, commit_index, commit_sync, commit_append, index_answered, sync_answered,
  append_answered, batch_answered, needs_vlog_sync,
}
use expirkv.Index.{IndexAtomicBatch, IndexCommitResult, IndexCommitError, applied, commit_failed}

pub IndexCommitResult-cases :
    (r : IndexCommitResult) → (r ≡ applied) ⊎ ((e : IndexCommitError) × (r ≡ commit_failed e))
IndexCommitResult-cases applied = inl refl
IndexCommitResult-cases (commit_failed e) = inr (e, refl)

-- The commit state that a target leaves.
unfoldable pub state_after : CommitState → Target → CommitState
unfolding with_frontier next_state
state_after s t = with_frontier (next_state s t.commit_seq t.kind t.vlog_seq t.vlog_end) t.frontier

abbrev pub Ended : CommitState → CommitState → CommitState → Result (Unit {0}) → Type 0
Ended before after now (ok done) = now ≡ after
Ended before after now (err e) = now ≡ before

module _ {W S I : Type 0} (log : ValueLog W S) where
  pub publish_stats-state : (c : Coordinator W I) → (publish_stats log c).state ≡ c.state
  unfolding publish_stats
  publish_stats-state c = ground arith

  latch_target-state :
      (c : Coordinator W I) (target : InstanceState) (e : StorageError)
      → (latch_target c target e).state ≡ c.state
  unfolding latch_target
  latch_target-state c target e = ground arith

  pub fail_started-Ended :
      (c : Coordinator W I) (ticket : WriteRequest) (e : StorageError)
      (asked : Option InstanceState) (identity : Option (ℕ × Uuid)) (after : CommitState)
      → let out = fail_started log c ticket e asked identity in
        Ended c.state after out.0.state out.1
  unfolding fail_started finish
  fail_started-Ended c ticket e asked identity after =
      let named = with_identity e identity in
      let target = required_failure_state (requested_target asked named.instance_state) named in
      let aimed = in_state named target in
      publish_stats-state (latch_target c target aimed) ∙ latch_target-state c target aimed

  latch_unfinished-state :
      (c : Coordinator W I) (op : Operation) (r : Result (Unit {0}))
      → (latch_unfinished c op r).state ≡ c.state
  unfolding latch_unfinished
  latch_unfinished-state c op (ok _) = refl
  latch_unfinished-state c op (err e) = refl

  pub finish_synced-state :
      (c : Coordinator W I) (synced : Option S) (op : Operation)
      → (finish_synced log c synced op).state ≡ c.state
  unfolding finish_synced finish_frontier_after_success
  finish_synced-state c none op = refl
  finish_synced-state c (some synced) op = latch_unfinished-state _ op _

  pub fail_synced-state :
      (c : Coordinator W I) (synced : Option S) → (fail_synced log c synced).state ≡ c.state
  unfolding fail_synced
  fail_synced-state c none = refl
  fail_synced-state c (some synced) = refl

  module _ (backend : Backend I) (ticket : WriteRequest) (t : Target) where
    index_answered-Ended :
        (c : Coordinator W I) (synced : Option S) (r : IndexCommitResult)
        → let out = index_answered log backend c ticket t synced r in
          Ended c.state (state_after c.state t) out.0.state out.1
    unfolding index_answered finish publish_nonempty_success state_after
    index_answered-Ended c synced applied =
        rw (publish_stats-state, finish_synced-state c synced t.operation) refl
    index_answered-Ended c synced (commit_failed e) =
        let mapped = map_index_commit_error e t.operation index_commit (some (identity_of t)) in
        fail_started-Ended (fail_synced log c synced) ticket mapped.0 (some mapped.1) none
          (state_after c.state t)
        ∙ fail_synced-state c synced

    commit_index-Ended :
        (c : Coordinator W I) (batch : IndexAtomicBatch) (synced : Option S)
        → let out = commit_index log backend c ticket t batch synced in
          Ended c.state (state_after c.state t) out.0.state out.1
    unfolding commit_index
    commit_index-Ended c batch synced = index_answered-Ended _ synced _

    sync_answered-Ended :
        (c : Coordinator W I) (batch : IndexAtomicBatch) (r : Result S)
        → let out = sync_answered log backend c ticket t batch r in
          Ended c.state (state_after c.state t) out.0.state out.1
    unfolding sync_answered
    sync_answered-Ended c batch (ok synced) = commit_index-Ended c batch (some synced)
    sync_answered-Ended c batch (err e) =
        fail_started-Ended c ticket (remap_writer_operation t.operation e) (some poisoned)
          (some (identity_of t)) (state_after c.state t)

    commit_sync-Ended :
        (c : Coordinator W I) (batch : IndexAtomicBatch)
        → let out = commit_sync log backend c ticket t batch in
          Ended c.state (state_after c.state t) out.0.state out.1
    unfolding commit_sync
    commit_sync-Ended c batch = elim (Bool-cases (needs_vlog_sync c.state t)) [
      | inl e ↦ rw e (sync_answered-Ended _ batch _)
      | inr e ↦ rw e (commit_index-Ended c batch none)
    ]

    append_answered-Ended :
        (c : Coordinator W I) (batch : IndexAtomicBatch) (r : Result (Unit {0}))
        → let out = append_answered log backend c ticket t batch r in
          Ended c.state (state_after c.state t) out.0.state out.1
    unfolding append_answered
    append_answered-Ended c batch (ok _) = commit_sync-Ended c batch
    append_answered-Ended c batch (err e) =
        let renamed = remap_writer_operation t.operation e in
        fail_started-Ended c ticket renamed
          (some (classify_vlog_append_failure renamed (log.has_terminal_failure c.writer)))
          (some (identity_of t)) (state_after c.state t)

    commit_append-Ended :
        (c : Coordinator W I) (batch : IndexAtomicBatch) (envelope : Option PreparedEnvelope)
        → let out = commit_append log backend c ticket t batch envelope in
          Ended c.state (state_after c.state t) out.0.state out.1
    unfolding commit_append
    commit_append-Ended c batch none = commit_sync-Ended c batch
    commit_append-Ended c batch (some envelope) = append_answered-Ended _ batch _

    pub batch_answered-Ended :
        (c : Coordinator W I) (envelope : Option PreparedEnvelope) (r : Result IndexAtomicBatch)
        → let out = batch_answered log backend c ticket t envelope r in
          Ended c.state (state_after c.state t) out.0.state out.1
    unfolding batch_answered
    batch_answered-Ended c envelope (err e) =
        fail_started-Ended c ticket e none none (state_after c.state t)
    batch_answered-Ended c envelope (ok batch) = commit_append-Ended c batch envelope
