-- ===== src/Commit/Coordinator/Entry.antt =====
-- src/commit/coordinator.rs: the entry points of the coordinator, `new`, `start_request`,
-- `commit_nonempty`, `commit_empty_batch` and `state_snapshot`. A request waits until it is active:
-- `others` is what the requests before it do to the coordinator in that time, and the answer is
-- `none` while the request is still queued behind them.
use expirkv.Prelude.{ℕ, Bool, true, false, Option, none, some}
use expirkv.Error.{Operation, op_write_batch, Result, ok, err, ◌>>◌}
use expirkv.Crc.{Crc}
use expirkv.Runtime.Request.{wait_result}
use expirkv.Runtime.Gate.{Control, WriteRequest, enqueue_write, check_write_admission}
use expirkv.Runtime.Gate.Ticket.{drop_ticket}
use expirkv.Vlog.Geometry.{VLogPosition}
use expirkv.Commit.Frontier.{DurableFrontier}
use expirkv.Commit.Preflight.{ValidatedWrite}
use expirkv.Commit.Prepare.{RandomFill}
use expirkv.Commit.Coordinator.{CommitStateSnapshot, ValueLog, Backend, Coordinator, snapshot}
use expirkv.Commit.Coordinator.Request.{validate_initial_state, publish_stats}
use expirkv.Commit.Coordinator.Commit.{commit_active}
use expirkv.Commit.Coordinator.Barrier.{commit_empty_barrier}

unfoldable pub state_snapshot : {W I : Type 0} → Coordinator W I → CommitStateSnapshot
unfolding snapshot
state_snapshot c = snapshot c.state

module _ {W S I : Type 0} (log : ValueLog W S) where
  unfoldable pub new :
      Control → I → W → ℕ → DurableFrontier → ℕ → Option VLogPosition → Result (Coordinator W I)
  unfolding validate_initial_state publish_stats
  new runtime index writer head frontier vlog_seq vlog_end = do
    validate_initial_state log head frontier vlog_seq vlog_end writer
    ok (
        publish_stats log (record {
          runtime = runtime;
          state = record {
            head_seq = head;
            durable_frontier = frontier;
            head_vlog_seq = vlog_seq;
            head_vlog_end = vlog_end;
          };
          writer = writer;
          index = index;
        }))

module _ {W I : Type 0} (others : Coordinator W I → Coordinator W I) where
  -- The end of the wait: an error gives the ticket up.
  unfoldable pub wait_answered :
      Coordinator W I
      → WriteRequest
      → Option (Result (Unit {0}))
      → Coordinator W I × Option (Result WriteRequest)
  unfolding drop_ticket
  wait_answered c ticket none = (c, none)
  wait_answered c ticket (some (ok _)) = (c, some (ok ticket))
  wait_answered c ticket (some (err e)) =
      (record c { runtime = drop_ticket c.runtime ticket }, some (err e))

  unfoldable pub enqueue_answered :
      Coordinator W I → Result WriteRequest → Coordinator W I × Option (Result WriteRequest)
  unfolding wait_answered wait_result
  enqueue_answered c (err e) = (c, some (err e))
  enqueue_answered c (ok ticket) =
      wait_answered (others c) ticket (elim ((others c).runtime.phases ticket.id) [
        | none ↦ none
        | some phase ↦ wait_result ticket.operation phase
      ])

  unfoldable pub start_request :
      Coordinator W I → Operation → Coordinator W I × Option (Result WriteRequest)
  unfolding enqueue_write enqueue_answered
  start_request c op =
      let answer = enqueue_write c.runtime op in
      enqueue_answered (record c { runtime = answer.0 }) answer.1

  module _ {S : Type 0} (log : ValueLog W S) (backend : Backend I) (reserves : ℕ → Bool)
      (crc : Crc) where
    unfoldable pub commit_when_started :
        Coordinator W I
        → RandomFill
        → ValidatedWrite
        → Bool
        → Option (Result WriteRequest)
        → Coordinator W I × Option (Result (Unit {0}))
    unfolding commit_active
    commit_when_started c random w sync none = (c, none)
    commit_when_started c random w sync (some (err e)) = (c, some (err e))
    commit_when_started c random w sync (some (ok ticket)) =
        let out = commit_active log backend reserves crc c ticket random w sync in
        (out.0, some out.1)

    unfoldable pub commit_started :
        Coordinator W I
        → RandomFill
        → ValidatedWrite
        → Bool
        → Coordinator W I × Option (Result (Unit {0}))
    unfolding start_request commit_when_started
    commit_started c random w sync =
        let answer = start_request c w.public_operation in
        commit_when_started answer.0 random w sync answer.1

    unfoldable pub commit_nonempty :
        Coordinator W I → RandomFill → ValidatedWrite → Coordinator W I × Option (Result (Unit {0}))
    unfolding commit_started
    commit_nonempty c random w = commit_started c random w w.normalized.sync

    unfoldable pub barrier_when_started :
        Coordinator W I
        → Option (Result WriteRequest)
        → Coordinator W I × Option (Result (Unit {0}))
    unfolding commit_empty_barrier
    barrier_when_started c none = (c, none)
    barrier_when_started c (some (err e)) = (c, some (err e))
    barrier_when_started c (some (ok ticket)) =
        let out = commit_empty_barrier log backend reserves crc c ticket in (out.0, some out.1)

    unfoldable pub commit_empty_batch :
        Coordinator W I → Bool → Coordinator W I × Option (Result (Unit {0}))
    unfolding check_write_admission start_request barrier_when_started
    commit_empty_batch c false = (c, some (check_write_admission c.runtime op_write_batch))
    commit_empty_batch c true =
        let answer = start_request c op_write_batch in barrier_when_started answer.0 answer.1
