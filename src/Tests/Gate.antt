-- ===== src/Tests/Gate.antt =====
-- The runtime control, on two writers that share the gate.
use expirkv.Prelude.{ℕ, ◌+◌, ◌≡◌, ◌≢◌, refl, ◌≤◌, true, false, none, some, [], ◌∷◌, length, arith}
use expirkv.Error.{
  write_stopped, poisoned, op_put, op_delete, StorageError, codec_error, io, vlog_sync,
  commit_unknown, reopen_and_verify,
}
use expirkv.Stats
use expirkv.Stats.{LatchedErrorSummary}
use expirkv.Runtime.State.{state_rank, is_upgrade, required_failure_state}
use expirkv.Runtime.Gate.{
  WriteRequest, Control, queued, started, completed, state, is_healthy, new, is_active, admit,
  set_phase, mark_started, latch_upgrade, enqueue_write, abandon_write, latch_failure, in_queue,
}
use expirkv.Runtime.Gate.Coherent.{IsCoherent}
use expirkv.Runtime.Gate.Steps.{Reachable, starts, steps, enqueues, latches, Reachable-IsCoherent}
use expirkv.Runtime.Gate.History.{
  one_started, queued_waits, failed-none_waits, Step-Later, Step-first_error_stays,
}
use expirkv.Runtime.Gate.Waiting.{after_cancel, latch_failure-upgrade, abandon_write-active}
use expirkv.Runtime.Gate.Ticket.{HasLeft, finish_ticket, finish_ticket-HasLeft}
use expirkv.Runtime.Gate.Order.{finish_each, AllTrue, finish_each-in_order}

-- The first writer is active.
abbrev one : Control
one = (enqueue_write (new Stats.new) op_put).0

-- The second one waits.
abbrev two : Control
two = (enqueue_write one op_delete).0

abbrev first : WriteRequest
first = record { id = 1; operation = op_put }

abbrev second : WriteRequest
second = record { id = 2; operation = op_delete }

abbrev sync_error : StorageError
sync_error = codec_error io op_put vlog_sync (some commit_unknown) reopen_and_verify

abbrev failed : Control
failed = (latch_failure two write_stopped sync_error).0

one-Reachable : Reachable one
unfolding new
one-Reachable = steps starts (enqueues op_put (omega arith))

one-next_id : one.next_request_id ≡ 2
unfolding enqueue_write new admit state
one-next_id = refl

two-Reachable : Reachable two
two-Reachable = steps one-Reachable (enqueues op_delete (omega (arith, one-next_id)))

failed-Reachable : Reachable failed
failed-Reachable = steps two-Reachable (latches write_stopped sync_error)

active-is_first : two.active_request ≡ some 1
unfolding enqueue_write new admit state
active-is_first = refl

queue-is_second : two.ordered_queue ≡ second ∷ []
unfolding enqueue_write new admit state
queue-is_second = refl

first-started : two.phases 1 ≡ some started
unfolding enqueue_write new admit state set_phase mark_started
first-started = refl

second-queued : two.phases 2 ≡ some queued
unfolding enqueue_write new admit state set_phase mark_started
second-queued = refl

state-healthy : is_healthy (state two).instance_state ≡ true
unfolding enqueue_write new admit state
state-healthy = refl

two-accepts : two.accepting_writes ≡ true
unfolding enqueue_write new admit state
two-accepts = refl

upgrades :
    is_upgrade (state two).instance_state (required_failure_state write_stopped sync_error) ≡ true
unfolding enqueue_write new admit state required_failure_state is_upgrade codec_error
upgrades = refl

failed-down : is_healthy (state failed).instance_state ≡ false
unfolding enqueue_write new admit state required_failure_state latch_failure latch_upgrade
    is_upgrade codec_error
failed-down = refl

failed-error : failed.first_latched_error ≡ some (Stats.from_storage_error sync_error)
unfolding enqueue_write new admit state required_failure_state latch_failure latch_upgrade
    is_upgrade codec_error
failed-error = refl

Reachable-IsCoherent_example : IsCoherent failed
Reachable-IsCoherent_example = Reachable-IsCoherent failed-Reachable

one_started_example : ◌≡◌ {A = ℕ} 1 1
one_started_example = one_started two-Reachable 1 1 first-started first-started

queued_waits_example :
    (in_queue 2 two.ordered_queue ≡ true)
    × ((a : ℕ) × (two.active_request ≡ some a) × (two.phases a ≡ some started))
queued_waits_example = queued_waits two-Reachable 2 second-queued

failed-none_waits_example :
    (failed.accepting_writes ≡ false)
    × (failed.ordered_queue ≡ [])
    × ((j : ℕ) → failed.phases j ≢ some queued)
failed-none_waits_example = failed-none_waits failed-Reachable failed-down

Step-Later_example :
    (state_rank (state two).instance_state ≤ state_rank (state failed).instance_state)
    × ((state two).state_epoch ≤ (state failed).state_epoch)
Step-Later_example = Step-Later two-Reachable (latches write_stopped sync_error)

-- The second failure does not replace the first one's summary.
Step-first_error_stays_example :
    (latch_failure failed poisoned
      (codec_error io op_delete vlog_sync none reopen_and_verify)).0.first_latched_error
    ≡ some (Stats.from_storage_error sync_error)
Step-first_error_stays_example =
    Step-first_error_stays failed-Reachable
      (latches poisoned (codec_error io op_delete vlog_sync none reopen_and_verify))
      (Stats.from_storage_error sync_error) failed-error

latch_failure-upgrade_example :
    let c' = (latch_failure two write_stopped sync_error).0 in
    let t = (latch_failure two write_stopped sync_error).1 in
    ((state c').instance_state ≡ required_failure_state write_stopped sync_error)
    × ((state c').state_epoch ≡ (state two).state_epoch + 1)
    × (c'.ordered_queue ≡ [])
    × (c'.accepting_writes ≡ false)
    × (c'.active_request ≡ two.active_request)
    × ((j : ℕ)
        → c'.phases j
          ≡ after_cancel (required_failure_state write_stopped sync_error) (two.phases j))
    × (t.current ≡ state c')
    × (t.cancelled_writes ≡ length two.ordered_queue)
latch_failure-upgrade_example =
    latch_failure-upgrade two-Reachable write_stopped sync_error upgrades

abandon_write-active_example :
    ((state (abandon_write two first)).instance_state ≡ poisoned)
    × ((abandon_write two first).active_request ≡ none)
    × ((abandon_write two first).phases 1 ≡ some completed)
    × ((abandon_write two first).accepting_writes ≡ false)
    × ((abandon_write two first).ordered_queue ≡ [])
abandon_write-active_example = abandon_write-active two-Reachable first active-is_first

finish_each-in_order_example :
    let end = finish_each two (first ∷ second ∷ []) in
    AllTrue end.1 × (end.0.active_request ≡ none) × (end.0.ordered_queue ≡ [])
finish_each-in_order_example =
    finish_each-in_order two first (second ∷ []) active-is_first state-healthy two-accepts
      queue-is_second

finish_ticket-HasLeft_example :
    HasLeft (finish_ticket two second).0 2
    × ((finish_ticket two second).1 ≡ is_active two.active_request 2)
finish_ticket-HasLeft_example = finish_ticket-HasLeft two-Reachable second
