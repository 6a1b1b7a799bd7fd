-- ===== src/Runtime/Gate.antt =====
-- src/runtime/write_gate.rs and src/runtime/state.rs: `RuntimeControl` with its write gate. One write
-- is active at a time and the others wait in order.
--
-- The shared objects are explicit: `phases` is the store of the `WriteRequest`s' phases, by request
-- id, so that the queue, the tickets and the waiting threads see the same phase. Each method is one
-- function from the control to the control: its critical section and the wake-ups that it makes after
-- it. `fetch_add` on the id counter wraps at 2 ^ 64.
pub mod Requests
pub mod Coherent
pub mod Preserve
pub mod Finish
pub mod Latch
pub mod Steps
pub mod Waiting
pub mod Order
pub mod History
pub mod Ticket
use expirkv.Prelude.{
  ℕ, ◌+◌, ◌%◌, ◌^◌, Bool, true, false, Option, none, some, not, ◌&&◌, ◌||◌, ltb, ◌==◌,
  if◌then◌else◌, List, [], ◌∷◌, ◌++◌, length,
}
use expirkv.Error.{
  InstanceState, healthy, write_stopped, poisoned, Operation, StorageError, StorageErrorKind, busy,
  storage_write_stopped, storage_poisoned, RetryAdvice, retry_same_instance,
  fix_environment_and_reopen, reopen_and_verify, admission, lifecycle, not_committed,
  commit_unknown, codec_error, Result, ok, err,
}
use expirkv.Stats
use expirkv.Stats.{LatchedErrorSummary, DbStats}
use expirkv.Runtime.State
use expirkv.Runtime.State.{
  StateSnapshot, is_upgrade, encode_state, decode_state, required_failure_state,
}
pub use expirkv.Runtime.Request.{WriteRequest, RequestPhase, queued, started, completed, cancelled}
unfoldable pub use expirkv.Runtime.Request.{
  is_healthy, set_phase, mark_started, mark_completed, cancel_for_state, cancel_all,
  admission_error, abandoned_active_write_error, wait_result,
}

pub record Control : Type 0 where
  pub state_word : ℕ
  pub first_latched_error : Option LatchedErrorSummary
  pub accepting_writes : Bool
  pub ordered_queue : List WriteRequest
  pub active_request : Option ℕ
  pub stats : DbStats
  pub next_request_id : ℕ
  pub phases : ℕ → Option RequestPhase

pub record StateTransition : Type 0 where
  pub previous : StateSnapshot
  pub current : StateSnapshot
  pub changed : Bool
  pub cancelled_writes : ℕ

unfoldable pub state : Control → StateSnapshot
unfolding decode_state
state c = decode_state c.state_word

unfoldable pub publish_stats : Control → StateSnapshot → Control
publish_stats c s = record c {
  stats = Stats.update_runtime_state c.stats s.instance_state s.state_epoch c.first_latched_error;
}

unfoldable pub new : DbStats → Control
unfolding publish_stats encode_state
new stats =
    let start : StateSnapshot = record { instance_state = healthy; state_epoch = 0 } in
    publish_stats
      (record {
        state_word = encode_state start;
        first_latched_error = none;
        accepting_writes = true;
        ordered_queue = [];
        active_request = none;
        stats = stats;
        next_request_id = 1;
        phases = λ _. none;
      })
      start

unfoldable pub check_write_admission : Control → Operation → Result (Unit {0})
unfolding state is_healthy
check_write_admission c op =
    let now = (state c).instance_state in
    if not (is_healthy now)
    then err (admission_error op now)
    else if not (is_healthy now) || not c.accepting_writes
    then err (admission_error op now)
    else ok tt

-- The critical section of `enqueue_write`, for a request whose id was just drawn.
unfoldable pub admit : Control → WriteRequest → Control
unfolding set_phase mark_started
admit c r =
    let fresh = set_phase c.phases r.id queued in
    elim c.active_request [
      | none ↦ elim c.ordered_queue [
        | [] ↦ record c { active_request = some r.id; phases = mark_started fresh r.id }
        | _ ↦ record c { ordered_queue = c.ordered_queue ++ (r ∷ []); phases = fresh }
      ]
      | some _ ↦ record c { ordered_queue = c.ordered_queue ++ (r ∷ []); phases = fresh }
    ]

unfoldable pub enqueue_write : Control → Operation → Control × Result WriteRequest
unfolding state is_healthy
enqueue_write c op =
    let now = (state c).instance_state in
    if not (is_healthy now)
    then (c, err (admission_error op now))
    else let r : WriteRequest = record { id = c.next_request_id; operation = op } in
      let drawn = record c { next_request_id = (c.next_request_id + 1) % 2 ^ 64 } in
      if not (is_healthy now) || not c.accepting_writes
      then (drawn, err (admission_error op now))
      else (admit drawn r, ok r)

unfoldable pub close_write_admission : Control → Control
unfolding state
close_write_admission c = record c {
  accepting_writes = false;
  ordered_queue = [];
  phases = cancel_all (state c).instance_state c.phases c.ordered_queue;
}

-- `OnceLock::set`: the first value stays.
unfoldable pub set_once :
    Option LatchedErrorSummary → LatchedErrorSummary → Option LatchedErrorSummary
set_once none s = some s
set_once (some old) s = some old

-- `saturating_add(1)` on a `u64`.
unfoldable pub saturating_next : ℕ → ℕ
saturating_next n = if ltb (n + 1) (2 ^ 64) then n + 1 else n

unfoldable pub raised : Control → InstanceState → StateSnapshot
unfolding state saturating_next
raised c target = record {
  instance_state = target;
  state_epoch = saturating_next (state c).state_epoch;
}

unfoldable pub latch_upgrade : Control → InstanceState → LatchedErrorSummary → Control
unfolding state is_healthy set_once raised encode_state publish_stats
latch_upgrade c target summary =
    publish_stats
      (record c {
        accepting_writes = false;
        first_latched_error =
            if is_healthy (state c).instance_state
            then set_once c.first_latched_error summary
            else c.first_latched_error;
        state_word = encode_state (raised c target);
        ordered_queue = [];
        phases = cancel_all target c.phases c.ordered_queue;
      })
      (raised c target)

unfoldable pub latch_failure : Control → InstanceState → StorageError → Control × StateTransition
unfolding state is_upgrade Stats.from_storage_error
latch_failure c asked e =
    let target = required_failure_state asked e in
    let previous = state c in
    if not (is_upgrade previous.instance_state target)
    then (
      c,
      record { previous = previous; current = previous; changed = false; cancelled_writes = 0 },
    )
    else (
      latch_upgrade c target (Stats.from_storage_error e),
      record {
        previous = previous;
        current = raised c target;
        changed = true;
        cancelled_writes = length c.ordered_queue;
      },
    )

-- `position` and `remove` on the queue.
unfoldable pub in_queue : ℕ → List WriteRequest → Bool
in_queue id [] = false
in_queue id (r ∷ rs) = r.id == id || in_queue id rs

unfoldable pub remove_id : ℕ → List WriteRequest → List WriteRequest
remove_id id [] = []
remove_id id (r ∷ rs) = let rest = remove_id id rs in if r.id == id then rs else r ∷ rest

unfoldable pub cancel_queued_write : Control → WriteRequest → Control × Bool
cancel_queued_write c r =
    if in_queue r.id c.ordered_queue
    then (
      record c {
        ordered_queue = remove_id r.id c.ordered_queue;
        phases = cancel_for_state healthy c.phases r.id;
      },
      true,
    )
    else (c, false)

unfoldable pub is_active : Option ℕ → ℕ → Bool
is_active none id = false
is_active (some a) id = a == id

-- The hand-over of `finish_write`: the head of the queue becomes active if writes are still admitted.
unfoldable pub hand_over : Control → List WriteRequest → Control
unfolding mark_started
hand_over c [] = c
hand_over c (next ∷ rest) = record c {
  active_request = some next.id;
  ordered_queue = rest;
  phases = mark_started c.phases next.id;
}

unfoldable pub finish_write : Control → WriteRequest → Control × Bool
unfolding state is_healthy is_active mark_completed
finish_write c r =
    if not (is_active c.active_request r.id)
    then (c, false)
    else let idle = record c { active_request = none; phases = mark_completed c.phases r.id } in
      if is_healthy (state c).instance_state && c.accepting_writes
      then (hand_over idle c.ordered_queue, true)
      else (idle, true)

-- `abandon_write`, which dropping an unfinished ticket calls.
unfoldable pub abandon_write : Control → WriteRequest → Control
unfolding is_active
abandon_write c r =
    if in_queue r.id c.ordered_queue
    then (cancel_queued_write c r).0
    else if is_active c.active_request r.id
    then (finish_write (latch_failure c poisoned (abandoned_active_write_error r.operation)).0 r).0
    else c

-- `RuntimeControl::stats`: the snapshot, with the state read afresh.
unfoldable pub read_stats : Control → DbStats
unfolding state is_healthy
read_stats c = record c.stats {
  instance_state = (state c).instance_state;
  state_epoch = (state c).state_epoch;
  first_latched_error = if is_healthy (state c).instance_state then none else c.first_latched_error;
}
