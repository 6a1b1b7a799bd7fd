-- ===== src/Runtime/Request.antt =====
-- src/runtime/write_gate.rs: `WriteRequest`, its phase and its errors.
--
-- A request is shared by the queue, its ticket and the waiting thread: `phases` is the store of the
-- requests' phases, by request id. A phase change wakes the waiting thread, which then reads the
-- phase.
use expirkv.Prelude.{ℕ, Bool, true, false, Option, none, some, ◌==◌, if◌then◌else◌, List, [], ◌∷◌}
use expirkv.Error.{
  InstanceState, healthy, write_stopped, poisoned, Operation, StorageError, StorageErrorKind, busy,
  storage_write_stopped, storage_poisoned, RetryAdvice, retry_same_instance,
  fix_environment_and_reopen, reopen_and_verify, admission, lifecycle, not_committed,
  commit_unknown, codec_error, Result, ok, err,
}

pub record WriteRequest : Type 0 where
  pub id : ℕ
  pub operation : Operation

pub data RequestPhase : Type 0 where
  queued started completed : RequestPhase
  cancelled : InstanceState → RequestPhase

unfoldable pub is_healthy : InstanceState → Bool
is_healthy healthy = true
is_healthy _ = false

unfoldable pub set_phase : (ℕ → Option RequestPhase) → ℕ → RequestPhase → ℕ → Option RequestPhase
set_phase phases id phase j = if j == id then some phase else phases j

-- `mark_started`, `mark_completed` and `cancel_for_state` change a phase only from the one that they
-- expect.
unfoldable pub mark_started : (ℕ → Option RequestPhase) → ℕ → ℕ → Option RequestPhase
unfolding set_phase
mark_started phases id = elim (phases id) [ some queued ↦ set_phase phases id started | _ ↦ phases ]

unfoldable pub mark_completed : (ℕ → Option RequestPhase) → ℕ → ℕ → Option RequestPhase
unfolding set_phase
mark_completed phases id = elim (phases id) [
  | some started ↦ set_phase phases id completed
  | _ ↦ phases
]

unfoldable pub cancel_for_state :
    InstanceState → (ℕ → Option RequestPhase) → ℕ → ℕ → Option RequestPhase
unfolding set_phase
cancel_for_state s phases id = elim (phases id) [
  | some queued ↦ set_phase phases id (cancelled s)
  | _ ↦ phases
]

-- `for request in cancelled { request.cancel_for_state(state) }`.
unfoldable pub cancel_all :
    InstanceState → (ℕ → Option RequestPhase) → List WriteRequest → ℕ → Option RequestPhase
cancel_all s phases [] = phases
cancel_all s phases (r ∷ rs) = cancel_all s (cancel_for_state s phases r.id) rs

admission_kind : InstanceState → StorageErrorKind
admission_kind healthy = busy
admission_kind write_stopped = storage_write_stopped
admission_kind poisoned = storage_poisoned

admission_advice : InstanceState → RetryAdvice
admission_advice healthy = retry_same_instance
admission_advice write_stopped = fix_environment_and_reopen
admission_advice poisoned = reopen_and_verify

-- `admission_error`, which `cancelled_error` is too.
unfoldable pub admission_error : Operation → InstanceState → StorageError
unfolding codec_error admission_kind admission_advice
admission_error op s =
    record (codec_error (admission_kind s) op admission (some not_committed) (admission_advice s)) {
      instance_state = some s;
    }

unfoldable pub abandoned_active_write_error : Operation → StorageError
unfolding codec_error
abandoned_active_write_error op =
    record (codec_error storage_poisoned op lifecycle (some commit_unknown) reopen_and_verify) {
      instance_state = some poisoned;
    }

-- What `wait_until_started` gives at once; `none` while the request is queued and the thread waits.
unfoldable pub wait_result : Operation → RequestPhase → Option (Result (Unit {0}))
unfolding admission_error
wait_result op queued = none
wait_result op started = some (ok tt)
wait_result op completed = some (ok tt)
wait_result op (cancelled s) = some (err (admission_error op s))
