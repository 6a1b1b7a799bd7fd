-- ===== src/Lifecycle.antt =====
-- src/runtime/lifecycle.rs: external leases and operation guards, which decide when a database stops
-- to accept operations and when it is quiescent.
--
-- A counter is a `usize`, whose `+=` and `-=` wrap at 2 ^ 64. Each method is one critical section: it
-- gives the new controller and whether it notifies the waiting threads. `bind_runtime` sets the
-- write gate once; the last release closes it.
pub mod Quiescence
use expirkv.Prelude.{
  ℕ, ◌+◌, ◌-◌, ◌%◌, ◌^◌, Bool, true, false, Option, none, some, not, ◌&&◌, ◌==◌, if◌then◌else◌,
  List, [], ◌∷◌,
}
use expirkv.Runtime.Gate.{Control, close_write_admission}

pub record LifecycleInner : Type 0 where
  pub accepting_operations : Bool
  pub external_leases : ℕ
  pub operation_guards : ℕ

pub record LifecycleController : Type 0 where
  pub inner : LifecycleInner
  pub runtime : Option Control

unfoldable pub is_quiescent : LifecycleInner → Bool
is_quiescent i = i.external_leases == 0 && i.operation_guards == 0

unfoldable pub increment : ℕ → ℕ
increment n = (n + 1) % 2 ^ 64

unfoldable pub decrement : ℕ → ℕ
decrement n = (n + (2 ^ 64 - 1)) % 2 ^ 64

unfoldable pub new_with_external_lease : LifecycleController
new_with_external_lease = record {
  inner = record { accepting_operations = true; external_leases = 1; operation_guards = 0 };
  runtime = none;
}

unfoldable pub bind_runtime : LifecycleController → Control → LifecycleController × Bool
bind_runtime c r = elim c.runtime [
  | none ↦ (record c { runtime = some r }, true)
  | some _ ↦ (c, false)
]

-- `true` for `Some` guard.
unfoldable pub acquire_operation : LifecycleController → LifecycleController × Bool
unfolding increment
acquire_operation c = if not c.inner.accepting_operations then (c, false) else (
  record c { inner = record c.inner { operation_guards = increment c.inner.operation_guards } },
  true,
)

unfoldable pub clone_external_lease : LifecycleController → LifecycleController
unfolding increment
clone_external_lease c = record c {
  inner = record c.inner { external_leases = increment c.inner.external_leases };
}

unfoldable pub close_runtime : Option Control → Option Control
close_runtime none = none
close_runtime (some r) = some (close_write_admission r)

unfoldable pub released_lease : LifecycleInner → LifecycleInner
unfolding decrement
released_lease i =
    let left = decrement i.external_leases in
    record i {
      external_leases = left;
      accepting_operations = if left == 0 then false else i.accepting_operations;
    }

unfoldable pub release_external_lease : LifecycleController → LifecycleController × Bool
unfolding released_lease is_quiescent close_runtime
release_external_lease c =
    let i = released_lease c.inner in
    (
      record c {
        inner = i;
        runtime = if i.external_leases == 0 then close_runtime c.runtime else c.runtime;
      },
      is_quiescent i,
    )

unfoldable pub release_operation_guard : LifecycleController → LifecycleController × Bool
unfolding decrement is_quiescent
release_operation_guard c =
    let i = record c.inner { operation_guards = decrement c.inner.operation_guards } in
    (record c { inner = i }, is_quiescent i)

-- One turn of the loop of `wait_for_quiescence`: what is left of the timeout when the turn looks at
-- the clock (`none` when it is exceeded), and what the wait gives back.
pub record Wake : Type 0 where
  pub remaining : Option ℕ
  pub next_inner : LifecycleInner
  pub timed_out : Bool

unfoldable pub is_zero : Option ℕ → Bool
is_zero none = true
is_zero (some n) = n == 0

-- `none` while the thread still waits: the observations are used up.
unfoldable pub wait_for_quiescence : LifecycleInner → List Wake → Option Bool
unfolding is_quiescent is_zero
wait_for_quiescence i [] = if is_quiescent i then some true else none
wait_for_quiescence i (w ∷ ws) =
    let rest = wait_for_quiescence w.next_inner ws in
    if is_quiescent i
    then some true
    else if is_zero w.remaining
    then some false
    else if w.timed_out && not (is_quiescent w.next_inner)
    then some false
    else rest
