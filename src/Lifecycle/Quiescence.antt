-- ===== src/Lifecycle/Quiescence.antt =====
-- Operations are accepted while a lease is held, the last release closes the database for good, and
-- quiescence is final and announced.
use expirkv.Prelude.{
  ◌+◌, ◌^◌, ◌<◌, true, false, some, ◌≡◌, ◌⊎◌, inl, inr, refl, List, [], ◌∷◌, arith, Bool-cases,
}
use expirkv.Runtime.Gate.{Control}
use expirkv.Lifecycle.{
  LifecycleInner, LifecycleController, Wake, is_quiescent, new_with_external_lease, bind_runtime,
  acquire_operation, clone_external_lease, release_external_lease, release_operation_guard,
  close_runtime, wait_for_quiescence,
}

-- A call, with what its caller must hold: only the owner of a lease clones or releases it, only the
-- owner of a guard releases that, and the counters do not come round.
pub data Step : LifecycleController → LifecycleController → Type 0 where
  binds : {c : LifecycleController} (r : Control) → Step c (bind_runtime c r).0
  acquires :
      {c : LifecycleController}
      → c.inner.operation_guards + 1 < 2 ^ 64
      → Step c (acquire_operation c).0
  clones :
      {c : LifecycleController}
      → 0 < c.inner.external_leases
      → c.inner.external_leases + 1 < 2 ^ 64
      → Step c (clone_external_lease c)
  drops_lease :
      {c : LifecycleController} → 0 < c.inner.external_leases → Step c (release_external_lease c).0
  drops_guard :
      {c : LifecycleController}
      → 0 < c.inner.operation_guards
      → Step c (release_operation_guard c).0

pub data Reachable : LifecycleController → Type 0 where
  starts : Reachable new_with_external_lease
  steps : {c c' : LifecycleController} → Reachable c → Step c c' → Reachable c'

-- Operations are accepted exactly while a lease is held, and the counters are `usize`s.
pub record IsConsistent (c : LifecycleController) : Type 0 where
  pub accepts_leased : c.inner.accepting_operations ≡ true → 0 < c.inner.external_leases
  pub leased_accepts : 0 < c.inner.external_leases → c.inner.accepting_operations ≡ true
  pub leases_bound : c.inner.external_leases < 2 ^ 64
  pub guards_bound : c.inner.operation_guards < 2 ^ 64

Step-IsConsistent : {c c' : LifecycleController} → Step c c' → IsConsistent c → IsConsistent c'
unfolding bind_runtime acquire_operation clone_external_lease release_external_lease
    release_operation_guard
Step-IsConsistent (binds r) h = record {
  accepts_leased = λ k. ground (arith, h.accepts_leased);
  leased_accepts = λ k. ground (arith, h.leased_accepts);
  leases_bound = ground (arith, h.leases_bound);
  guards_bound = ground (arith, h.guards_bound);
}
Step-IsConsistent (acquires b) h = record {
  accepts_leased = λ k. ground (arith, h.accepts_leased);
  leased_accepts = λ k. ground (arith, h.leased_accepts);
  leases_bound = ground (arith, h.leases_bound);
  guards_bound = ground (arith, h.guards_bound);
}
Step-IsConsistent (clones p b) h = record {
  accepts_leased = λ k. ground (arith, h.accepts_leased);
  leased_accepts = λ k. ground (arith, h.leased_accepts);
  leases_bound = ground (arith, h.leases_bound);
  guards_bound = ground (arith, h.guards_bound);
}
Step-IsConsistent (drops_lease p) h = record {
  accepts_leased = λ k. ground (arith, h.accepts_leased);
  leased_accepts = λ k. ground (arith, h.leased_accepts);
  leases_bound = ground (arith, h.leases_bound);
  guards_bound = ground (arith, h.guards_bound);
}
Step-IsConsistent (drops_guard p) h = record {
  accepts_leased = λ k. ground (arith, h.accepts_leased);
  leased_accepts = λ k. ground (arith, h.leased_accepts);
  leases_bound = ground (arith, h.leases_bound);
  guards_bound = ground (arith, h.guards_bound);
}

-- In every controller that legal calls reach, operations are accepted exactly while an external
-- lease is held, and both counters are `usize`s.
pub Reachable-IsConsistent : {c : LifecycleController} → Reachable c → IsConsistent c
unfolding new_with_external_lease
Reachable-IsConsistent starts = record {
  accepts_leased = λ k. omega arith;
  leased_accepts = λ k. refl;
  leases_bound = omega arith;
  guards_bound = omega arith;
}
Reachable-IsConsistent (steps r s) = Step-IsConsistent s (Reachable-IsConsistent r)

-- Quiescence is final: no call on a reachable, quiescent controller changes its counters or lets
-- an operation in.
pub Step-quiescent_stays :
    {c c' : LifecycleController}
    → Reachable c
    → Step c c'
    → is_quiescent c.inner ≡ true
    → (is_quiescent c'.inner ≡ true) × ((acquire_operation c').1 ≡ false)
unfolding is_quiescent bind_runtime acquire_operation clone_external_lease release_external_lease
    release_operation_guard
Step-quiescent_stays r (binds q) h = ground (arith, (Reachable-IsConsistent r).accepts_leased)
Step-quiescent_stays r (acquires b) h = ground (arith, (Reachable-IsConsistent r).accepts_leased)
Step-quiescent_stays r (clones p b) h = absurd (ground arith)
Step-quiescent_stays r (drops_lease p) h = absurd (ground arith)
Step-quiescent_stays r (drops_guard p) h = absurd (ground arith)

-- No wake-up is lost: a call that makes a reachable controller quiescent is a release that notifies
-- the waiting threads.
pub Step-quiescence_announced :
    {c c' : LifecycleController}
    → Reachable c
    → Step c c'
    → is_quiescent c.inner ≡ false
    → is_quiescent c'.inner ≡ true
    → (release_external_lease c ≡ (c', true)) ⊎ (release_operation_guard c ≡ (c', true))
unfolding is_quiescent bind_runtime acquire_operation clone_external_lease release_external_lease
    release_operation_guard
Step-quiescence_announced r (binds q) before after = absurd (ground arith)
Step-quiescence_announced r (acquires b) before after = absurd (ground arith)
Step-quiescence_announced r (clones p b) before after = absurd (ground arith)
Step-quiescence_announced r (drops_lease p) before after = inl (rw after refl)
Step-quiescence_announced r (drops_guard p) before after = inr (rw after refl)

-- What any number of calls leads to.
pub data Later : LifecycleController → LifecycleController → Type 0 where
  here : {c : LifecycleController} → Later c c
  then : {c c' c'' : LifecycleController} → Later c c' → Step c' c'' → Later c c''

-- No lease is held, and no operation is let in.
IsClosed : LifecycleController → Type 0
IsClosed c = (c.inner.external_leases ≡ 0) × (c.inner.accepting_operations ≡ false)

Step-IsClosed : {c c' : LifecycleController} → Step c c' → IsClosed c → IsClosed c'
unfolding IsClosed bind_runtime acquire_operation clone_external_lease release_external_lease
    release_operation_guard
Step-IsClosed (binds q) h = ground arith
Step-IsClosed (acquires b) h = ground arith
Step-IsClosed (clones p b) h = absurd (omega (arith, h.0))
Step-IsClosed (drops_lease p) h = absurd (omega (arith, h.0))
Step-IsClosed (drops_guard p) h = ground arith

Later-IsClosed : {c c' : LifecycleController} → Later c c' → IsClosed c → IsClosed c'
Later-IsClosed here h = h
Later-IsClosed (then l s) h = Step-IsClosed s (Later-IsClosed l h)

IsClosed-refuses : (c : LifecycleController) → IsClosed c → (acquire_operation c).1 ≡ false
unfolding IsClosed acquire_operation
IsClosed-refuses c h = ground arith

release_last-IsClosed :
    (c : LifecycleController)
    → IsConsistent c
    → c.inner.external_leases ≡ 1
    → IsClosed (release_external_lease c).0
unfolding IsClosed release_external_lease
release_last-IsClosed c k last = ground (arith, k.leases_bound, k.leased_accepts)

-- On a reachable controller the release of a lease that is not the last one keeps accepting
-- operations and leaves the bound write gate alone; the release of the last one closes the bound write
-- gate, and after it and any number of further calls an operation is refused.
pub release_external_lease-closes :
    {c later : LifecycleController}
    → Reachable c
    → 0 < c.inner.external_leases
    → Later (release_external_lease c).0 later
    → let c' = (release_external_lease c).0 in
      (c'.inner.external_leases + 1 ≡ c.inner.external_leases)
      × (1 < c.inner.external_leases → ((acquire_operation c').1 ≡ true) × (c'.runtime ≡ c.runtime))
      × (c.inner.external_leases ≡ 1
          → ((acquire_operation later).1 ≡ false) × (c'.runtime ≡ close_runtime c.runtime))
release_external_lease-closes {c = c} {later = later} r held calls =
    let k = Reachable-IsConsistent r in
    unfold acquire_operation release_external_lease in
    (
      ground (arith, k.leases_bound),
      λ more. ground (arith, k.leases_bound, k.leased_accepts),
      λ last. (
        IsClosed-refuses later (Later-IsClosed calls (release_last-IsClosed c k last)),
        ground (arith, k.leases_bound, k.leased_accepts),
      ),
    )

-- Some state that the waiting thread looked at was quiescent.
abbrev pub SawQuiescence : LifecycleInner → List Wake → Type 0
SawQuiescence i [] = is_quiescent i ≡ true
SawQuiescence i (w ∷ ws) = (is_quiescent i ≡ true) ⊎ SawQuiescence w.next_inner ws

-- `wait_for_quiescence` answers true only after it saw a quiescent state, it does so at once in a
-- quiescent one whatever the timeout, and it answers false only when the state it started from was
-- not quiescent.
pub wait_for_quiescence-saw :
    (i : LifecycleInner) (ws : List Wake)
    → (wait_for_quiescence i ws ≡ some true → SawQuiescence i ws)
      × (is_quiescent i ≡ true → wait_for_quiescence i ws ≡ some true)
      × (wait_for_quiescence i ws ≡ some false → is_quiescent i ≡ false)
unfolding wait_for_quiescence
wait_for_quiescence-saw i [] = (λ h. ground arith, λ h. ground arith, λ h. ground arith)
wait_for_quiescence-saw i (w ∷ ws) =
    let later = wait_for_quiescence-saw w.next_inner ws in
    elim (Bool-cases (is_quiescent i)) [
      | inl still ↦ (λ h. inl still, λ h. ground arith, λ h. ground arith)
      | inr busy ↦ (λ h. inr (later.0 (ground arith)), λ h. ground arith, λ h. busy)
    ]
