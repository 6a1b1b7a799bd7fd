-- ===== src/Commit/Coordinator/Request.antt =====
-- src/commit/coordinator.rs: a commit from the moment its request is active, the empty barrier, and
-- what ends them. Each error return of the source is `fail_started` on the state reached.
use expirkv.Prelude.{
  ℕ, Bool, true, false, not, ◌||◌, ◌&&◌, Option, none, some, leb, ◌==◌, if◌then◌else◌,
}
use mathlib.Core.Option
use expirkv.Error.{
  StorageError, InstanceState, healthy, poisoned, Operation, reopen_and_verify, Result, ok, err,
  ◌>>◌, map_err, reject_if,
}
use expirkv.Uuid
use expirkv.Uuid.{Uuid}
use expirkv.Stats
use expirkv.Runtime.State.{required_failure_state}
use expirkv.Runtime.Gate.{state, WriteRequest, latch_failure}
use expirkv.Runtime.Gate.Ticket.{finish_ticket}
use expirkv.Vlog.Geometry.{VLogPosition}
use expirkv.Commit.Frontier
use expirkv.Commit.Frontier.{DurableFrontier}
use expirkv.Commit.TxMeta.{TransactionKind, vlog_envelope, index_only_delete}
use expirkv.Commit.Coordinator.{
  CommitState, ValueLog, Coordinator, descriptor_end_to_format, with_identity, retry_for_state,
  stats_invariant_error, initial_state_error,
}

abbrev same_position : VLogPosition → VLogPosition → Bool
same_position p q = p.file_id == q.file_id && p.offset == q.offset

-- `==` on optional positions.
unfoldable pub same_end : Option VLogPosition → Option VLogPosition → Bool
same_end none none = true
same_end none (some q) = false
same_end (some p) none = false
same_end (some p) (some q) = same_position p q

-- The arms of the `match` on the head of the Value Log.
unfoldable pub valid_vlog_frontier : ℕ → Option VLogPosition → VLogPosition → Bool
valid_vlog_frontier seq none p = seq == 0 && same_position p (record { file_id = 0; offset = 0 })
valid_vlog_frontier seq (some end) p = not (seq == 0) && same_position end p

unfoldable pub is_healthy_target : InstanceState → Bool
is_healthy_target healthy = true
is_healthy_target _ = false

-- The state that a failure asks for: the caller's, or the error's own, or none.
unfoldable pub requested_target : Option InstanceState → Option InstanceState → InstanceState
requested_target (some s) own = s
requested_target none (some s) = s
requested_target none none = healthy

unfoldable pub in_state : StorageError → InstanceState → StorageError
unfolding retry_for_state
in_state e s = record e { retry_advice = retry_for_state e s; instance_state = some s }

unfoldable pub next_state :
    CommitState → ℕ → TransactionKind → ℕ → Option VLogPosition → CommitState
next_state s seq vlog_envelope vlog_seq vlog_end = record s {
  head_seq = seq;
  head_vlog_seq = vlog_seq;
  head_vlog_end = vlog_end;
}
next_state s seq index_only_delete vlog_seq vlog_end = record s { head_seq = seq }

unfoldable pub with_frontier : CommitState → Option DurableFrontier → CommitState
with_frontier s none = s
with_frontier s (some f) = record s { durable_frontier = f }

module _ {W I : Type 0} where
  unfoldable pub latch_target : Coordinator W I → InstanceState → StorageError → Coordinator W I
  unfolding latch_failure is_healthy_target
  latch_target c target e =
      if is_healthy_target target
      then c
      else record c { runtime = (latch_failure c.runtime target e).0 }

  -- `ticket.finish()`, which drops a ticket that it could not finish.
  unfoldable pub finish : Coordinator W I → WriteRequest → Coordinator W I
  unfolding finish_ticket
  finish c ticket = record c { runtime = (finish_ticket c.runtime ticket).0 }

  -- A frontier that the writer could not finish poisons the instance.
  unfoldable pub latch_unfinished :
      Coordinator W I → Operation → Result (Unit {0}) → Coordinator W I
  unfolding latch_failure
  latch_unfinished c op (ok _) = c
  latch_unfinished c op (err e) = record c {
    runtime =
        (latch_failure c.runtime poisoned (record e {
          operation = op;
          instance_state = some poisoned;
          retry_advice = reopen_and_verify;
        })).0;
  }

module _ {W S : Type 0} (log : ValueLog W S) where
  unfoldable pub validate_initial_state :
      ℕ → DurableFrontier → ℕ → Option VLogPosition → W → Result (Unit {0})
  unfolding Frontier.validate_against_head same_end descriptor_end_to_format valid_vlog_frontier
      Uuid.is_zero initial_state_error
  validate_initial_state head frontier vlog_seq vlog_end writer = do
    map_err (λ _. initial_state_error) (Frontier.validate_against_head frontier head)
    reject_if
        (Uuid.is_zero (log.database_uuid writer)
          || not (
              frontier.durable_seq == head
              && frontier.durable_vlog_seq == vlog_seq
              && leb vlog_seq head
              && same_end (descriptor_end_to_format frontier.durable_vlog_end) vlog_end)
          || not (valid_vlog_frontier vlog_seq vlog_end (log.position writer)))
        initial_state_error

  module _ {I : Type 0} where
    -- `publish_stats`: the end of the durable Value Log as a pair.
    unfoldable pub publish_stats : Coordinator W I → Coordinator W I
    unfolding descriptor_end_to_format Stats.update_commit_state latch_failure stats_invariant_error
    publish_stats c =
        let end = descriptor_end_to_format c.state.durable_frontier.durable_vlog_end in
        let updated =
          Stats.update_commit_state c.runtime.stats c.state.head_seq
            c.state.durable_frontier.durable_seq
            (Option.map (λ (p : VLogPosition). (p.file_id, p.offset)) end)
            (log.active_file_id c.writer) (log.file_count c.writer) (log.logical_bytes c.writer) in
        if updated.1
        then record c { runtime = record c.runtime { stats = updated.0 } }
        else record c { runtime = (latch_failure c.runtime poisoned stats_invariant_error).0 }

    unfoldable pub fail_started :
        Coordinator W I
        → WriteRequest
        → StorageError
        → Option InstanceState
        → Option (ℕ × Uuid)
        → Coordinator W I × Result (Unit {0})
    unfolding with_identity requested_target required_failure_state in_state latch_target
        publish_stats finish state
    fail_started c ticket error asked identity =
        let named = with_identity error identity in
        let target = required_failure_state (requested_target asked named.instance_state) named in
        let aimed = in_state named target in
        let latched = latch_target c target aimed in
        let now = (state latched.runtime).instance_state in
        (finish (publish_stats latched) ticket, err (in_state aimed now))

    unfoldable pub finish_frontier_after_success : Coordinator W I → S → Operation → Coordinator W I
    unfolding latch_unfinished
    finish_frontier_after_success c synced op =
        let answer = log.frontier_succeeded c.writer synced in
        latch_unfinished (record c { writer = answer.0 }) op answer.1

    unfoldable pub finish_synced : Coordinator W I → Option S → Operation → Coordinator W I
    unfolding finish_frontier_after_success
    finish_synced c none op = c
    finish_synced c (some synced) op = finish_frontier_after_success c synced op

    unfoldable pub fail_synced : Coordinator W I → Option S → Coordinator W I
    fail_synced c none = c
    fail_synced c (some synced) = record c { writer = log.frontier_failed c.writer synced }

    unfoldable pub publish_nonempty_success :
        Coordinator W I
        → ℕ
        → TransactionKind
        → ℕ
        → Option VLogPosition
        → Option DurableFrontier
        → Coordinator W I
    unfolding publish_stats next_state with_frontier
    publish_nonempty_success c seq kind vlog_seq vlog_end frontier = publish_stats (record c {
      state = with_frontier (next_state c.state seq kind vlog_seq vlog_end) frontier;
    })

    unfoldable pub publish_empty_barrier_success :
        Coordinator W I → DurableFrontier → Coordinator W I
    unfolding publish_stats
    publish_empty_barrier_success c frontier =
        publish_stats (record c { state = record c.state { durable_frontier = frontier } })
