-- ===== src/Tests/Coordinator.antt =====
-- The coordinator, on an active request over a state with four commits of which one is durable.
use expirkv.Prelude.{refl, ◌≡◌, none, Bool, ℕ, true, some, [], ◌∷◌, arith}
use expirkv.Error.{ok, op_write_batch}
use expirkv.Uuid.{sample_uuid}
use expirkv.Crc.{sum_crc}
use expirkv.Stats
use expirkv.Runtime.Gate
use expirkv.Runtime.Gate.{WriteRequest, enqueue_write}
use expirkv.Runtime.Gate.Coherent.{IsCoherent}
use expirkv.Runtime.Gate.Steps
use expirkv.Runtime.Gate.Steps.{Reachable, steps, enqueues, Reachable-IsCoherent}
use expirkv.Commit.Coordinator.Coherent.{requests-IsCoherent}
use expirkv.Commit.Coordinator.Failure.{Reports}
use expirkv.Commit.Coordinator.Failure.Started.{requests-Reports}
use expirkv.Commit.Frontier
use expirkv.Commit.Frontier.{DurableFrontier, empty}
use expirkv.Commit.Preflight.{NormalizedOperation, ValidatedWrite, transaction_kind}
use expirkv.Commit.Prepare.{RandomFill, filled, PreparedCommit, prepare_commit}
use expirkv.Commit.Coordinator.{CommitState, Coordinator, descriptor_end_to_format}
use expirkv.Commit.Coordinator.Persisted.{OnSuccess}
use expirkv.Commit.Coordinator.Persisted.Commits.{Committed}
use expirkv.Commit.Coordinator.Persisted.Barriers.{Flushed}
use expirkv.Commit.Coordinator.Commit.{commit_active, context_of}
use expirkv.Commit.Coordinator.Barrier.{commit_empty_barrier}
use expirkv.Commit.Coordinator.Invariant.{IsConsistent, Moved}
use expirkv.Commit.Coordinator.Moves.{commit_active-Moved}
use expirkv.Commit.Coordinator.Entry
use expirkv.Commit.Coordinator.Request.{validate_initial_state, same_end, valid_vlog_frontier}
use expirkv.Commit.Coordinator.Reached.{starts, commits, flushes, Reached-IsConsistent}
use expirkv.Uuid
use expirkv.Commit.Coordinator.Flushed.{Durable, commit_empty_barrier-Durable}
use expirkv.Tests.Samples.{value_of, gives_all, log, backend}

-- Two of the four commits are in the Value Log.
abbrev behind : CommitState
behind = record {
  head_seq = 4;
  durable_frontier = record { durable_seq = 1; durable_vlog_seq = 0; durable_vlog_end = empty };
  head_vlog_seq = 2;
  head_vlog_end = some (record { file_id = 0; offset = 300 });
}

behind-IsConsistent : IsConsistent behind
unfolding descriptor_end_to_format
behind-IsConsistent = record {
  vlog_order = omega arith;
  durable_order = omega arith;
  durable_vlog_order = omega arith;
  frontier_order = omega arith;
  end_fits = omega arith;
  durable_end = λ h. absurd (omega arith);
}

abbrev coordinator : Coordinator ℕ ℕ
coordinator = record {
  runtime = (enqueue_write (Gate.new Stats.new) op_write_batch).0;
  state = behind;
  writer = 0;
  index = 0;
}

abbrev ticket : WriteRequest
ticket = record { id = 1; operation = op_write_batch }

abbrev delete_write : ValidatedWrite
delete_write = record {
  normalized = record { operations = NormalizedOperation.delete (b'o' ∷ []) ∷ []; sync = true };
  distinct_keys = (b'o' ∷ []) ∷ [];
  operation_ordinals = 0 ∷ [];
  public_operation = op_write_batch;
}

commit_active-Moved_example :
    let out =
      commit_active log backend gives_all sum_crc coordinator ticket
        (filled sample_uuid)
        delete_write
        true in
    Moved behind true out.0.state out.1
    × OnSuccess
        ((p : PreparedCommit) × (prepare_commit gives_all sum_crc
              (backend.get_user coordinator.index)
              (filled sample_uuid)
              delete_write
              4
              (context_of log backend coordinator (transaction_kind delete_write))
            ≡ ok p)
          × Committed log backend sum_crc coordinator true p out.0.state out.0.writer out.0.index)
        out.1
commit_active-Moved_example =
    commit_active-Moved log backend gives_all sum_crc coordinator ticket (filled sample_uuid)
      delete_write true

commit_empty_barrier-Durable_example :
    let out = commit_empty_barrier log backend gives_all sum_crc coordinator ticket in
    Durable behind out.0.state out.1
    × IsConsistent out.0.state
    × OnSuccess (Flushed log backend sum_crc coordinator out.0.writer out.0.index) out.1
commit_empty_barrier-Durable_example =
    commit_empty_barrier-Durable log backend gives_all sum_crc coordinator ticket
      behind-IsConsistent

gate-Reachable : Reachable coordinator.runtime
unfolding Gate.new
gate-Reachable = steps Steps.starts (enqueues op_write_batch (omega arith))

requests-IsCoherent_example :
    ((random : RandomFill) (w : ValidatedWrite) (sync : Bool)
      → IsCoherent
          (commit_active log backend gives_all sum_crc coordinator ticket random w sync).0.runtime)
    × IsCoherent (commit_empty_barrier log backend gives_all sum_crc coordinator ticket).0.runtime
requests-IsCoherent_example =
    requests-IsCoherent log backend gives_all sum_crc coordinator ticket
      (Reachable-IsCoherent gate-Reachable)

requests-Reports_example :
    ((random : RandomFill) (w : ValidatedWrite) (sync : Bool)
      → let out = commit_active log backend gives_all sum_crc coordinator ticket random w sync in
        Reports out.0.runtime out.1)
    × (let out = commit_empty_barrier log backend gives_all sum_crc coordinator ticket in
        Reports out.0.runtime out.1)
requests-Reports_example =
    requests-Reports log backend gives_all sum_crc coordinator ticket behind-IsConsistent

-- A new database, a synced delete and a barrier.
abbrev nothing : DurableFrontier
nothing = record { durable_seq = 0; durable_vlog_seq = 0; durable_vlog_end = empty }

fresh : (c : Coordinator ℕ ℕ) × (Entry.new log (Gate.new Stats.new) 0 0 0 nothing 0 none ≡ ok c)
unfolding Entry.new validate_initial_state Frontier.validate_against_head Frontier.validate
    Frontier.check_end descriptor_end_to_format same_end valid_vlog_frontier Uuid.is_zero
fresh = value_of _ refl

abbrev written : Coordinator ℕ ℕ
written =
    (commit_active log backend gives_all sum_crc fresh.0 ticket (filled sample_uuid) delete_write
      true).0

Reached-IsConsistent_example :
    IsConsistent (commit_empty_barrier log backend gives_all sum_crc written ticket).0.state
Reached-IsConsistent_example = Reached-IsConsistent log backend gives_all sum_crc (
    flushes ticket (
      commits ticket (filled sample_uuid) delete_write true
        (starts (Gate.new Stats.new) 0 0 0 nothing 0 none fresh.1)))
