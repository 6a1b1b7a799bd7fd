-- ===== src/Commit/Coordinator/Persisted/Barriers.antt =====
-- src/commit/coordinator.rs: what `commit_empty_barrier` has synced and committed when it returns
-- success.
use expirkv.Prelude.{
  ◌≡◌, ◌≤◌, ◌⊎◌, inl, inr, refl, ◌∙◌, ℕ, Bool, true, Option, none, some, ltb, leb, ◌==◌, Bool-cases,
  leb→le, arith, [],
}
use expirkv.Error.{op_write_batch, Result, ok, err}
use expirkv.Crc.{Crc}
use expirkv.Runtime.Gate.{WriteRequest}
use expirkv.Commit.Frontier.{DurableFrontier}
use expirkv.Commit.Durability.Rows.{Carries, frontier_only_batch-Carries}
use expirkv.Commit.Coordinator.{ValueLog, Backend, Coordinator, frontier_from_optional}
use expirkv.Commit.Coordinator.Request.{finish, fail_started, publish_empty_barrier_success}
use expirkv.Commit.Coordinator.Barrier.{
  barrier_index_answered, commit_barrier_synced, barrier_sync_answered, barrier_batch_answered,
  commit_empty_barrier,
}
use expirkv.Commit.Coordinator.Persisted.{
  Synced, Applied, OnSuccess, OnSuccess-map, chosen, pair_eq, finished, finish_synced-rest,
  publish_stats-rest,
}
use expirkv.Index.{IndexAtomicBatch, sync_all, IndexCommitResult, applied, commit_failed}

-- The head was durable already and the index is untouched, or the Value Log has been synced up to its
-- end, when that is needed, and the index has committed, synced, a batch of the row of the frontier
-- alone.
abbrev pub Flushed :
    {W S I : Type 0} → ValueLog W S → Backend I → Crc → Coordinator W I → W → I → Type 0
Flushed log backend crc c writer index =
    let s = c.state in
    ((s.head_seq ≤ s.durable_frontier.durable_seq) × (index ≡ c.index))
    ⊎ (Synced log (ltb s.durable_frontier.durable_vlog_seq s.head_vlog_seq) c.writer s.head_vlog_seq
          s.head_vlog_end writer
        × ((batch : IndexAtomicBatch) × Carries crc (record { operations = [] }) true
              (frontier_from_optional s.head_seq s.head_vlog_seq s.head_vlog_end) batch
            × Applied backend c.index batch true index))

module _ {W S I : Type 0} (log : ValueLog W S) (backend : Backend I) (reserves : ℕ → Bool)
    (crc : Crc) (ticket : WriteRequest) where
  index_answered-Flushed :
      (c : Coordinator W I) (frontier : DurableFrontier) (synced : Option S) (r : IndexCommitResult)
      → let out = barrier_index_answered log backend reserves crc c ticket frontier synced r in
        OnSuccess
          ((out.0.index ≡ c.index) × (out.0.writer ≡ finished log c.writer synced) × (r ≡ applied))
          out.1
  unfolding barrier_index_answered finish publish_empty_barrier_success fail_started
  index_answered-Flushed c frontier synced applied =
      let (index_same, writer_same) = finish_synced-rest log c synced op_write_batch in
      let published = publish_stats-rest log _ in
      (published.0 ∙ index_same, published.1 ∙ writer_same, refl)
  index_answered-Flushed c frontier synced (commit_failed e) = tt

  -- Behind the sync: nothing committed, or the batch.
  abbrev Ended : Coordinator W I → IndexAtomicBatch → I → Type 0
  Ended c batch index =
      ((c.state.head_seq ≤ c.state.durable_frontier.durable_seq) × (index ≡ c.index))
      ⊎ Applied backend c.index batch true index

  synced-Flushed :
      (c : Coordinator W I) (frontier : DurableFrontier) (batch : IndexAtomicBatch)
      (synced : Option S)
      → let out =
          commit_barrier_synced log backend reserves crc c ticket c.state frontier batch synced in
        OnSuccess (Ended c batch out.0.index × (out.0.writer ≡ finished log c.writer synced)) out.1
  unfolding commit_barrier_synced finish
  synced-Flushed c frontier batch synced =
      let answer = backend.commit_atomic c.index batch sync_all in
      let next = record c { index = answer.0 } in
      let out =
        barrier_index_answered log backend reserves crc next ticket frontier synced answer.1 in
      let rest = finish_synced-rest log c synced op_write_batch in
      elim (Bool-cases (leb c.state.head_seq c.state.durable_frontier.durable_seq)) [
        | inl e ↦ rw e (inl (leb→le _ _ e, rest.0), rest.1)
        | inr e ↦ rw e (
            OnSuccess-map out.1 (λ h. (inr (pair_eq answer out.0.index applied h.0 h.2), h.1))
              (index_answered-Flushed next frontier synced answer.1))
      ]

  sync_answered-Flushed :
      (c : Coordinator W I) (frontier : DurableFrontier) (batch : IndexAtomicBatch) (r : Result S)
      → let out =
          barrier_sync_answered log backend reserves crc c ticket c.state frontier batch r in
        OnSuccess
          (Ended c batch out.0.index
            × ((synced : S) × (r ≡ ok synced)
                × (out.0.writer ≡ (log.frontier_succeeded c.writer synced).0)))
          out.1
  unfolding barrier_sync_answered fail_started
  sync_answered-Flushed c frontier batch (ok synced) =
      OnSuccess-map
        (commit_barrier_synced log backend reserves crc c ticket c.state frontier batch
          (some synced)).1
        (λ h. (h.0, (synced, refl, h.1))) (synced-Flushed c frontier batch (some synced))
  sync_answered-Flushed c frontier batch (err e) = tt

  batch_answered-Flushed :
      (c : Coordinator W I) (r : Result IndexAtomicBatch)
      → let s = c.state in
        let frontier = frontier_from_optional s.head_seq s.head_vlog_seq s.head_vlog_end in
        ((batch : IndexAtomicBatch)
          → r ≡ ok batch
          → Carries crc (record { operations = [] }) true frontier batch)
        → let out = barrier_batch_answered log backend reserves crc c ticket frontier r in
          OnSuccess (Flushed log backend crc c out.0.writer out.0.index) out.1
  unfolding barrier_batch_answered fail_started
  batch_answered-Flushed c (err e) carried = tt
  batch_answered-Flushed c (ok batch) carried =
      let s = c.state in
      let frontier = frontier_from_optional s.head_seq s.head_vlog_seq s.head_vlog_end in
      let answer = log.sync_through c.writer s.head_vlog_seq s.head_vlog_end in
      let out = barrier_batch_answered log backend reserves crc c ticket frontier (ok batch) in
      let needed = ltb s.durable_frontier.durable_vlog_seq s.head_vlog_seq in
      OnSuccess-map out.1
        (λ h. elim h.0 [
          | inl kept ↦ inl kept
          | inr done ↦ inr (h.1, (batch, carried batch refl, done))
        ])
        (chosen
          (λ test (o : Coordinator W I × Result (Unit {0})).
            OnSuccess
              (Ended c batch o.0.index
                × Synced log test c.writer s.head_vlog_seq s.head_vlog_end o.0.writer)
              o.1)
          (sync_answered-Flushed (record c { writer = answer.0 }) frontier batch answer.1)
          (synced-Flushed c frontier batch none) needed)

  pub commit_empty_barrier-Flushed :
      (c : Coordinator W I)
      → let out = commit_empty_barrier log backend reserves crc c ticket in
        OnSuccess (Flushed log backend crc c out.0.writer out.0.index) out.1
  unfolding commit_empty_barrier finish
  commit_empty_barrier-Flushed c =
      let s = c.state in
      let frontier = frontier_from_optional s.head_seq s.head_vlog_seq s.head_vlog_end in
      elim (Bool-cases (s.head_seq == s.durable_frontier.durable_seq)) [
        | inl e ↦
            let reached : s.head_seq ≤ s.durable_frontier.durable_seq = ground arith in
            rw e (inl (reached, refl))
        | inr e ↦ rw e (
            batch_answered-Flushed c _
              (frontier_only_batch-Carries reserves crc frontier op_write_batch))
      ]
