-- ===== src/Commit/Coordinator/Commit.antt =====
-- src/commit/coordinator.rs: `commit_started` for an active request, one
-- function for each step up to the next early return. `random` is what the source of identifiers
-- gives, `reserves n` says whether the allocator grants room, `crc` is the `crc32c` crate.
use expirkv.Prelude.{ℕ, Bool, true, false, ◌&&◌, Option, none, some, ltb, if◌then◌else◌}
use expirkv.Error.{poisoned, Operation, index_commit, Result, ok, err}
use expirkv.Uuid.{Uuid}
use expirkv.Crc.{Crc}
use expirkv.Runtime.Gate.{WriteRequest}
use expirkv.Vlog.Geometry.{VLogPosition}
use expirkv.Vlog.Envelope.{PreparedEnvelope}
use expirkv.Commit.Frontier.{DurableFrontier}
use expirkv.Commit.TxMeta.{TransactionKind, vlog_envelope, index_only_delete}
use expirkv.Commit.Preflight.{ValidatedWrite, transaction_kind}
use expirkv.Commit.Prepare.{PreparedCommit, RandomFill, VlogContext, prepare_commit}
use expirkv.Commit.Durability.{add_frontier_to_batch}
use expirkv.Commit.Coordinator.{
  CommitState, ValueLog, Backend, Coordinator, frontier_from_optional, classify_vlog_append_failure,
  remap_writer_operation, map_index_commit_error,
}
use expirkv.Commit.Coordinator.Request.{
  fail_started, finish, finish_synced, fail_synced, publish_nonempty_success,
}
use expirkv.Index.{
  IndexAtomicBatch, IndexCommitMode, buffer, sync_all, IndexCommitResult, applied, commit_failed,
}

-- What the steps of one commit share.
pub record Target : Type 0 where
  pub operation : Operation
  pub sync : Bool
  pub commit_seq : ℕ
  pub tx_uuid : Uuid
  pub kind : TransactionKind
  pub vlog_seq : ℕ
  pub vlog_end : Option VLogPosition
  pub frontier : Option DurableFrontier

unfoldable pub identity_of : Target → ℕ × Uuid
identity_of t = (t.commit_seq, t.tx_uuid)

unfoldable pub mode_of : Bool → IndexCommitMode
mode_of true = sync_all
mode_of false = buffer

-- The target of the Value Log: the envelope's end, or the head that stands.
unfoldable pub target_of : CommitState → PreparedCommit → Operation → Bool → Target
unfolding frontier_from_optional
target_of s p op sync =
    let seq : ℕ = elim p.envelope [ none ↦ s.head_vlog_seq | some e ↦ p.commit_seq ] in
    let end : Option VLogPosition = elim p.envelope [
      | none ↦ s.head_vlog_end
      | some e ↦ some e.vlog_end
    ] in
    record {
      operation = op;
      sync = sync;
      commit_seq = p.commit_seq;
      tx_uuid = p.tx_uuid;
      kind = p.transaction_kind;
      vlog_seq = seq;
      vlog_end = end;
      frontier = if sync then some (frontier_from_optional p.commit_seq seq end) else none;
    }

unfoldable pub with_target_frontier :
    (ℕ → Bool) → Crc → IndexAtomicBatch → Target → Result IndexAtomicBatch
unfolding add_frontier_to_batch
with_target_frontier reserves crc batch t = elim t.frontier [
  | none ↦ ok batch
  | some f ↦ add_frontier_to_batch reserves crc batch f t.operation
]

unfoldable pub needs_vlog_sync : CommitState → Target → Bool
needs_vlog_sync s t = t.sync && ltb s.durable_frontier.durable_vlog_seq t.vlog_seq

module _ {W S I : Type 0} (log : ValueLog W S) (backend : Backend I) where
  -- What the preparation is told of the writer.
  unfoldable pub context_of : Coordinator W I → TransactionKind → Option VlogContext
  context_of c index_only_delete = none
  context_of c vlog_envelope = some (record {
    database_uuid = log.database_uuid c.writer;
    append_cursor = log.position c.writer;
    geometry = log.geometry c.writer;
  })

  -- `commit_atomic` and what follows it.
  unfoldable pub index_answered :
      Coordinator W I
      → WriteRequest
      → Target
      → Option S
      → IndexCommitResult
      → Coordinator W I × Result (Unit {0})
  unfolding finish_synced publish_nonempty_success finish fail_synced map_index_commit_error
      fail_started identity_of
  index_answered c ticket t synced applied = (
    finish
        (publish_nonempty_success log (finish_synced log c synced t.operation) t.commit_seq t.kind
          t.vlog_seq t.vlog_end t.frontier)
        ticket,
    ok tt,
  )
  index_answered c ticket t synced (commit_failed e) =
      let mapped = map_index_commit_error e t.operation index_commit (some (identity_of t)) in
      fail_started log (fail_synced log c synced) ticket mapped.0 (some mapped.1) none

  unfoldable pub commit_index :
      Coordinator W I
      → WriteRequest
      → Target
      → IndexAtomicBatch
      → Option S
      → Coordinator W I × Result (Unit {0})
  unfolding mode_of index_answered
  commit_index c ticket t batch synced =
      let answer = backend.commit_atomic c.index batch (mode_of t.sync) in
      index_answered (record c { index = answer.0 }) ticket t synced answer.1

  -- The sync of the Value Log, when the frontier needs it.
  unfoldable pub sync_answered :
      Coordinator W I
      → WriteRequest
      → Target
      → IndexAtomicBatch
      → Result S
      → Coordinator W I × Result (Unit {0})
  unfolding commit_index fail_started remap_writer_operation identity_of
  sync_answered c ticket t batch (ok synced) = commit_index c ticket t batch (some synced)
  sync_answered c ticket t batch (err e) =
      fail_started log c ticket (remap_writer_operation t.operation e) (some poisoned)
        (some (identity_of t))

  unfoldable pub commit_sync :
      Coordinator W I
      → WriteRequest
      → Target
      → IndexAtomicBatch
      → Coordinator W I × Result (Unit {0})
  unfolding sync_answered commit_index needs_vlog_sync
  commit_sync c ticket t batch =
      let answer = log.sync_through c.writer t.vlog_seq t.vlog_end in
      if needs_vlog_sync c.state t
      then sync_answered (record c { writer = answer.0 }) ticket t batch answer.1
      else commit_index c ticket t batch none

  -- The append to the Value Log.
  unfoldable pub append_answered :
      Coordinator W I
      → WriteRequest
      → Target
      → IndexAtomicBatch
      → Result (Unit {0})
      → Coordinator W I × Result (Unit {0})
  unfolding commit_sync fail_started remap_writer_operation classify_vlog_append_failure identity_of
  append_answered c ticket t batch (ok _) = commit_sync c ticket t batch
  append_answered c ticket t batch (err e) =
      let renamed = remap_writer_operation t.operation e in
      fail_started log c ticket renamed
        (some (classify_vlog_append_failure renamed (log.has_terminal_failure c.writer)))
        (some (identity_of t))

  unfoldable pub commit_append :
      Coordinator W I
      → WriteRequest
      → Target
      → IndexAtomicBatch
      → Option PreparedEnvelope
      → Coordinator W I × Result (Unit {0})
  unfolding commit_sync append_answered
  commit_append c ticket t batch none = commit_sync c ticket t batch
  commit_append c ticket t batch (some envelope) =
      let answer = log.append c.writer envelope in
      append_answered (record c { writer = answer.0 }) ticket t batch answer.1

  -- The batch of the commit, with its frontier.
  unfoldable pub batch_answered :
      Coordinator W I
      → WriteRequest
      → Target
      → Option PreparedEnvelope
      → Result IndexAtomicBatch
      → Coordinator W I × Result (Unit {0})
  unfolding fail_started commit_append
  batch_answered c ticket t envelope (err e) = fail_started log c ticket e none none
  batch_answered c ticket t envelope (ok batch) = commit_append c ticket t batch envelope

  module _ (reserves : ℕ → Bool) (crc : Crc) where
    unfoldable pub preparation_answered :
        Coordinator W I
        → WriteRequest
        → Operation
        → Bool
        → Result PreparedCommit
        → Coordinator W I × Result (Unit {0})
    unfolding fail_started target_of with_target_frontier batch_answered
    preparation_answered c ticket op sync (err e) = fail_started log c ticket e none none
    preparation_answered c ticket op sync (ok p) =
        let t = target_of c.state p op sync in
        batch_answered c ticket t p.envelope (with_target_frontier reserves crc p.index_batch t)

    -- `commit_started` once the request is active.
    unfoldable pub commit_active :
        Coordinator W I
        → WriteRequest
        → RandomFill
        → ValidatedWrite
        → Bool
        → Coordinator W I × Result (Unit {0})
    unfolding prepare_commit context_of transaction_kind preparation_answered
    commit_active c ticket random w sync = preparation_answered c ticket w.public_operation sync (
        prepare_commit reserves crc (backend.get_user c.index) random w c.state.head_seq
          (context_of c (transaction_kind w)))
