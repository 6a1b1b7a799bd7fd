-- ===== src/Commit/Coordinator/Persisted/Commits.antt =====
-- src/commit/coordinator.rs: what `commit_started` has written and synced when it returns success, with
-- the state that it leaves.
use expirkv.Prelude.{ℕ, ◌≡◌, refl, sym, Bool, true, false, ◌&&◌, Option, none, some, ltb}
use mathlib.Core.Path.{subst}
use expirkv.Error.{Operation, Result, ok, err}
use expirkv.Crc.{Crc}
use expirkv.Runtime.Gate.{WriteRequest}
use expirkv.Vlog.Envelope.{PreparedEnvelope}
use expirkv.Commit.TxMeta.{TransactionKind, vlog_envelope, index_only_delete}
use expirkv.Commit.Prepare.{PreparedCommit}
use expirkv.Commit.Prepare.Effect.{KindFits}
use expirkv.Commit.Durability.Rows.{Carries, add_frontier_to_batch-Carries}
use expirkv.Commit.Coordinator.{CommitState, ValueLog, Backend, Coordinator}
use expirkv.Commit.Coordinator.Request.{next_state, with_frontier, fail_started}
use expirkv.Commit.Coordinator.Commit.{
  target_of, needs_vlog_sync, with_target_frontier, batch_answered, preparation_answered,
}
use expirkv.Commit.Coordinator.Outcome.{Ended, state_after, batch_answered-Ended}
use expirkv.Commit.Coordinator.Persisted.{
  Appended, Synced, Applied, OnSuccess, Stored, batch_answered-Persisted,
}
use expirkv.Index.{IndexAtomicBatch}

-- What a commit of `p` has called, with the writer and the index that it leaves: the append of the
-- envelope, the sync up to the new end of the Value Log when the frontier is to pass what is durable
-- there, and the commit of the batch, which carries the new frontier.
abbrev pub Committed :
    {W S I : Type 0}
    → ValueLog W S
    → Backend I
    → Crc
    → Coordinator W I
    → Bool
    → PreparedCommit
    → CommitState
    → W
    → I
    → Type 0
Committed {W = W} log backend crc c sync p now writer index =
    (w : W) × Appended log c.writer p.envelope w
    × Synced log (sync && ltb c.state.durable_frontier.durable_vlog_seq now.head_vlog_seq) w
        now.head_vlog_seq now.head_vlog_end writer
    × ((batch : IndexAtomicBatch) × Carries crc p.index_batch sync now.durable_frontier batch
        × Applied backend c.index batch sync index)

both :
    {A B : Type 0} (before after now : CommitState) (r : Result (Unit {0}))
    → Ended before after now r
    → OnSuccess A r
    → (now ≡ after → A → B)
    → OnSuccess B r
both before after now (ok done) e a f = f e a
both before after now (err failure) e a f = tt

module _ {W S I : Type 0} (log : ValueLog W S) (backend : Backend I) (reserves : ℕ → Bool)
    (crc : Crc) (c : Coordinator W I) (ticket : WriteRequest) (op : Operation) where
  kind-Committed :
      (p : PreparedCommit) (kind : TransactionKind) (envelope : Option PreparedEnvelope)
      (sync : Bool) (batch : IndexAtomicBatch) (now : Coordinator W I)
      → KindFits kind envelope
      → let q = record p { transaction_kind = kind; envelope = envelope } in
        let t = target_of c.state q op sync in
        with_target_frontier reserves crc p.index_batch t ≡ ok batch
        → Stored log backend ticket t c envelope batch now
        → Committed log backend crc c sync q (state_after c.state t) now.writer now.index
  unfolding target_of with_target_frontier needs_vlog_sync state_after next_state with_frontier
  kind-Committed p vlog_envelope none sync batch now fits h stored = absurd fits
  kind-Committed p vlog_envelope (some e) true batch now fits h (w, appended, synced, done) = (
    w,
    appended,
    synced,
    (batch, add_frontier_to_batch-Carries reserves crc p.index_batch _ op batch h, done),
  )
  kind-Committed p vlog_envelope (some e) false batch now fits h (w, appended, synced, done) =
      let same : batch ≡ p.index_batch = cc in (w, appended, synced, (batch, same, done))
  kind-Committed p index_only_delete none true batch now fits h (w, appended, synced, done) = (
    w,
    appended,
    synced,
    (batch, add_frontier_to_batch-Carries reserves crc p.index_batch _ op batch h, done),
  )
  kind-Committed p index_only_delete none false batch now fits h (w, appended, synced, done) =
      let same : batch ≡ p.index_batch = cc in (w, appended, synced, (batch, same, done))
  kind-Committed p index_only_delete (some e) sync batch now fits h stored = absurd fits

  pub preparation_answered-Committed :
      (sync : Bool) (r : Result PreparedCommit)
      → ((p : PreparedCommit) → r ≡ ok p → KindFits p.transaction_kind p.envelope)
      → let out = preparation_answered log backend reserves crc c ticket op sync r in
        OnSuccess
          ((p : PreparedCommit) × (r ≡ ok p)
            × Committed log backend crc c sync p out.0.state out.0.writer out.0.index)
          out.1
  unfolding preparation_answered fail_started
  preparation_answered-Committed sync (err e) fits = tt
  preparation_answered-Committed sync (ok p) fits =
      let t = target_of c.state p op sync in
      let batch = with_target_frontier reserves crc p.index_batch t in
      let out = batch_answered log backend c ticket t p.envelope batch in
      both c.state (state_after c.state t) out.0.state out.1
        (batch_answered-Ended log backend ticket t c p.envelope batch)
        (batch_answered-Persisted log backend ticket t c p.envelope batch)
        (λ e stored. (
          p,
          refl,
          subst
              (λ (now : CommitState).
                Committed log backend crc c sync p now out.0.writer out.0.index)
              (sym e)
              (kind-Committed p p.transaction_kind p.envelope sync stored.0 out.0 (fits p refl)
                stored.1 stored.2),
        ))
