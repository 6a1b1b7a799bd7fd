-- ===== src/Commit/Coordinator/Flushed.antt =====
-- What an empty barrier does to the commit state.
use expirkv.Prelude.{
  ℕ, ◌≡◌, ◌≤◌, ◌⊎◌, inl, inr, refl, sym, ◌∙◌, ap, Bool, Option, none, some, ltb, leb, ◌==◌,
  Bool-cases, leb→le, arith,
}
use mathlib.Core.Path.{subst}
use expirkv.Error.{poisoned, op_write_batch, durable_frontier, Result, ok, err}
use expirkv.Crc.{Crc}
use expirkv.Runtime.Gate.{WriteRequest}
use expirkv.Commit.Coordinator.{
  CommitState, ValueLog, Backend, Coordinator, frontier_from_optional, map_index_commit_error,
  remap_writer_operation,
}
use expirkv.Commit.Coordinator.Request.{finish, fail_synced, publish_empty_barrier_success}
use expirkv.Commit.Coordinator.Barrier.{
  barrier_index_answered, commit_barrier_synced, barrier_sync_answered, barrier_batch_answered,
  commit_empty_barrier,
}
use expirkv.Commit.Coordinator.Persisted.{OnSuccess}
use expirkv.Commit.Coordinator.Persisted.Barriers.{Flushed, commit_empty_barrier-Flushed}
use expirkv.Commit.Coordinator.Outcome.{
  fail_started-Ended, publish_stats-state, finish_synced-state, fail_synced-state,
}
use expirkv.Commit.Coordinator.Invariant.{IsConsistent, at_frontier-IsConsistent, frontier-seqs}
use expirkv.Index.{IndexAtomicBatch, IndexCommitResult, applied, commit_failed}

-- The state that a committed barrier leaves.
abbrev pub flushed : CommitState → CommitState
flushed s = record s {
  durable_frontier = frontier_from_optional s.head_seq s.head_vlog_seq s.head_vlog_end;
}

-- A success has flushed the head, or found it durable; an error has left the state.
abbrev pub BarrierEnded : CommitState → CommitState → Result (Unit {0}) → Type 0
BarrierEnded before now (ok done) =
    (now ≡ flushed before)
    ⊎ ((now ≡ before) × (before.head_seq ≤ before.durable_frontier.durable_seq))
BarrierEnded before now (err e) = now ≡ before

module _ {W S I : Type 0} (log : ValueLog W S) (backend : Backend I) (reserves : ℕ → Bool)
    (crc : Crc) (ticket : WriteRequest) where
  index_answered-Barrier :
      (c : Coordinator W I) (synced : Option S) (r : IndexCommitResult)
      → let frontier = (flushed c.state).durable_frontier in
        let out = barrier_index_answered log backend reserves crc c ticket frontier synced r in
        BarrierEnded c.state out.0.state out.1
  unfolding barrier_index_answered finish publish_empty_barrier_success
  index_answered-Barrier c synced applied = inl (
      publish_stats-state log _
      ∙ ap (λ (s : CommitState). record s { durable_frontier = (flushed c.state).durable_frontier })
          (finish_synced-state log c synced op_write_batch))
  index_answered-Barrier c synced (commit_failed e) =
      let mapped = map_index_commit_error e op_write_batch durable_frontier none in
      fail_started-Ended log (fail_synced log c synced) ticket mapped.0 (some mapped.1) none c.state
      ∙ fail_synced-state log c synced

  synced-Barrier :
      (c : Coordinator W I) (batch : IndexAtomicBatch) (synced : Option S)
      → let frontier = (flushed c.state).durable_frontier in
        let out =
          commit_barrier_synced log backend reserves crc c ticket c.state frontier batch synced in
        BarrierEnded c.state out.0.state out.1
  unfolding commit_barrier_synced finish
  synced-Barrier c batch synced =
      elim (Bool-cases (leb c.state.head_seq c.state.durable_frontier.durable_seq)) [
        | inl e ↦
            let reached : c.state.head_seq ≤ c.state.durable_frontier.durable_seq = leb→le _ _ e in
            rw e (inr (finish_synced-state log c synced op_write_batch, reached))
        | inr e ↦ rw e (index_answered-Barrier _ synced _)
      ]

  sync_answered-Barrier :
      (c : Coordinator W I) (batch : IndexAtomicBatch) (r : Result S)
      → let frontier = (flushed c.state).durable_frontier in
        let out =
          barrier_sync_answered log backend reserves crc c ticket c.state frontier batch r in
        BarrierEnded c.state out.0.state out.1
  unfolding barrier_sync_answered
  sync_answered-Barrier c batch (ok synced) = synced-Barrier c batch (some synced)
  sync_answered-Barrier c batch (err e) =
      fail_started-Ended log c ticket (remap_writer_operation op_write_batch e) (some poisoned) none
        c.state

  batch_answered-Barrier :
      (c : Coordinator W I) (r : Result IndexAtomicBatch)
      → let frontier = (flushed c.state).durable_frontier in
        let out = barrier_batch_answered log backend reserves crc c ticket frontier r in
        BarrierEnded c.state out.0.state out.1
  unfolding barrier_batch_answered
  batch_answered-Barrier c (err e) = fail_started-Ended log c ticket e none none c.state
  batch_answered-Barrier c (ok batch) =
      let answer = log.sync_through c.writer c.state.head_vlog_seq c.state.head_vlog_end in
      elim (Bool-cases (ltb c.state.durable_frontier.durable_vlog_seq c.state.head_vlog_seq)) [
        | inl e ↦ rw e (sync_answered-Barrier (record c { writer = answer.0 }) batch answer.1)
        | inr e ↦ rw e (synced-Barrier c batch none)
      ]

  pub commit_empty_barrier-Barrier :
      (c : Coordinator W I)
      → let out = commit_empty_barrier log backend reserves crc c ticket in
        BarrierEnded c.state out.0.state out.1
  unfolding commit_empty_barrier finish
  commit_empty_barrier-Barrier c =
      elim (Bool-cases (c.state.head_seq == c.state.durable_frontier.durable_seq)) [
        | inl e ↦
            let reached : c.state.head_seq ≤ c.state.durable_frontier.durable_seq = ground arith in
            rw e (inr (refl, reached))
        | inr e ↦ rw e (batch_answered-Barrier c _)
      ]

-- What a barrier promises.
abbrev pub Durable : CommitState → CommitState → Result (Unit {0}) → Type 0
Durable before now (ok done) =
    (now.head_seq ≡ before.head_seq)
    × (now.head_vlog_seq ≡ before.head_vlog_seq)
    × (now.head_vlog_end ≡ before.head_vlog_end)
    × (now.durable_frontier.durable_seq ≡ before.head_seq)
Durable before now (err e) = now ≡ before

Durable-of_ended :
    (before now : CommitState) (r : Result (Unit {0}))
    → IsConsistent before
    → BarrierEnded before now r
    → Durable before now r × IsConsistent now
Durable-of_ended before now (ok done) v (inl e) =
    let (is_seq, _) = frontier-seqs before.head_seq before.head_vlog_seq before.head_vlog_end in
    rw e (
      (refl, refl, refl, is_seq),
      at_frontier-IsConsistent before.head_seq before.head_vlog_seq before.head_vlog_end
          v.vlog_order v.end_fits,
    )
Durable-of_ended before now (ok done) v (inr (e, reached)) =
    let bound = v.durable_order in rw e ((refl, refl, refl, omega arith), v)
Durable-of_ended before now (err failure) v e = (e, subst IsConsistent (sym e) v)

-- From a consistent state, whatever the allocator, the writer and the index answer, the commit state is
-- consistent after a barrier, and a barrier that returns an error has left it as it was. One that
-- returns success has left the head as it was and its durable frontier is at the head. Either the head
-- was durable before, and the index is untouched; or, when the durable frontier of the Value Log stood
-- below its head, `sync_through` up to that head and its end has succeeded and was handed to
-- `frontier_succeeded`, and `commit_atomic` has applied in `SyncAll` mode a batch of one mutation, the
-- encoded row of the head's frontier.
pub commit_empty_barrier-Durable :
    {W S I : Type 0} (log : ValueLog W S) (backend : Backend I) (reserves : ℕ → Bool) (crc : Crc)
    (c : Coordinator W I) (ticket : WriteRequest)
    → IsConsistent c.state
    → let out = commit_empty_barrier log backend reserves crc c ticket in
      Durable c.state out.0.state out.1
      × IsConsistent out.0.state
      × OnSuccess (Flushed log backend crc c out.0.writer out.0.index) out.1
commit_empty_barrier-Durable log backend reserves crc c ticket v =
    let (durable, consistent) =
      Durable-of_ended _ _ _ v (commit_empty_barrier-Barrier log backend reserves crc ticket c) in
    (durable, consistent, commit_empty_barrier-Flushed log backend reserves crc ticket c)
