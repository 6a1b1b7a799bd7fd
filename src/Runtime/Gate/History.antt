-- ===== src/Runtime/Gate/History.antt =====
-- What the runtime control guarantees over time, in every state that its calls reach.
use expirkv.Prelude.{
  ℕ, ◌≤◌, true, false, some, ◌≡◌, ◌≢◌, refl, ◌∙◌, [], arith, Bool-cases, Option-cases, inl, inr,
}
use expirkv.Error.{InstanceState, poisoned, StorageError}
use expirkv.Stats
use expirkv.Stats.{DbStats, LatchedErrorSummary}
use expirkv.Runtime.State.{state_rank, is_upgrade, required_failure_state}
use expirkv.Runtime.Gate.{
  WriteRequest, queued, started, Control, state, is_healthy, abandon_write,
  abandoned_active_write_error, close_write_admission, latch_failure, latch_upgrade, in_queue,
  is_active, set_once,
}
use expirkv.Runtime.Gate.Coherent.{StateCoherent, IsCoherent}
use expirkv.Runtime.Gate.Latch.{latch_upgrade-word, latch_upgrade-rank}
use expirkv.Runtime.Gate.Steps.{
  Step, Reachable, enqueues, cancels, finishes, abandons, latches, closes, Reachable-IsCoherent,
  enqueue_write-same_word, enqueue_write-same_error, cancel_queued-same, finish_write-same,
  latch_failure-IsCoherent,
}

-- In every reachable control at most one write request is started: two started requests have the
-- same id.
pub one_started :
    {c : Control}
    → Reachable c
    → (i j : ℕ) → c.phases i ≡ some started
    → c.phases j ≡ some started
    → i ≡ j
one_started r i j hi hj =
    let g = (Reachable-IsCoherent r).gate in
    ground (arith, g.started_active i hi, g.started_active j hj)

-- In every reachable control a queued request has a started one to wait for: it stands in the queue,
-- some request is the active one, and that request is started.
pub queued_waits :
    {c : Control}
    → Reachable c
    → (j : ℕ) → c.phases j ≡ some queued
    → (in_queue j c.ordered_queue ≡ true)
      × ((a : ℕ) × (c.active_request ≡ some a) × (c.phases a ≡ some started))
unfolding in_queue
queued_waits {c = c} r j h =
    let g = (Reachable-IsCoherent r).gate in
    let there = g.queued_in_queue j h in
    (
      there,
      elim (Option-cases c.active_request) [
        | inl idle ↦ absurd (cc (rw (g.idle_empty idle) at there))
        | inr (a, e) ↦ (a, e, g.active_started a e)
      ],
    )

-- In every reachable control whose state is not healthy no request is queued and none is admitted.
pub failed-none_waits :
    {c : Control}
    → Reachable c
    → is_healthy (state c).instance_state ≡ false
    → (c.accepting_writes ≡ false) × (c.ordered_queue ≡ []) × ((j : ℕ) → c.phases j ≢ some queued)
unfolding in_queue state is_healthy
failed-none_waits {c = c} r down =
    let h = Reachable-IsCoherent r in
    let shut = h.states.failed_closed (ground arith) in
    let empty = h.gate.closed_empty shut in
    (shut, empty, λ j q. cc (rw empty at (h.gate.queued_in_queue j q)))

latch-keeps :
    (c : Control) (asked : InstanceState) (e : StorageError) (first : LatchedErrorSummary)
    → c.first_latched_error ≡ some first
    → (latch_failure c asked e).0.first_latched_error ≡ some first
unfolding latch_failure latch_upgrade set_once
latch-keeps c asked e first h = ground arith

abandon-keeps :
    (c : Control)
    → IsCoherent c
    → (r : WriteRequest) (first : LatchedErrorSummary) → c.first_latched_error ≡ some first
    → (abandon_write c r).first_latched_error ≡ some first
unfolding abandon_write
abandon-keeps c k r first h =
    let e = abandoned_active_write_error r.operation in
    ground (
      arith,
      (cancel_queued-same c k r).1,
      latch-keeps c poisoned e first h,
      (finish_write-same _ (latch_failure-IsCoherent c k poisoned e) r).1,
    )

-- Once a first error is latched, no call on a reachable control replaces or drops it.
pub Step-first_error_stays :
    {c c' : Control}
    → Reachable c
    → Step c c'
    → (first : LatchedErrorSummary) → c.first_latched_error ≡ some first
    → c'.first_latched_error ≡ some first
Step-first_error_stays r (enqueues op ids) first h =
    enqueue_write-same_error _ (Reachable-IsCoherent r) op ∙ h
Step-first_error_stays r (cancels q) first h =
    (cancel_queued-same _ (Reachable-IsCoherent r) q).1 ∙ h
Step-first_error_stays r (finishes q) first h =
    (finish_write-same _ (Reachable-IsCoherent r) q).1 ∙ h
Step-first_error_stays r (abandons q) first h = abandon-keeps _ (Reachable-IsCoherent r) q first h
Step-first_error_stays r (latches target e) first h = latch-keeps _ target e first h
Step-first_error_stays r closes first h = unfold close_write_admission in h

abbrev Later : Control → Control → Type 0
Later c c' =
    (state_rank (state c).instance_state ≤ state_rank (state c').instance_state)
    × ((state c).state_epoch ≤ (state c').state_epoch)

module _ (c : Control) (h : StateCoherent c) where
  latch-Later : (asked : InstanceState) (e : StorageError) → Later c (latch_failure c asked e).0
  unfolding latch_failure state state_rank
  latch-Later asked e =
      elim (Bool-cases (is_upgrade (state c).instance_state (required_failure_state asked e))) [
        | inl up ↦ ground (
          arith,
          latch_upgrade-word c (required_failure_state asked e) (Stats.from_storage_error e) h up,
          latch_upgrade-rank c (required_failure_state asked e) (Stats.from_storage_error e) h up,
        )
        | inr same ↦ rw same ground arith
      ]

Later-of_word : (c c' : Control) → c'.state_word ≡ c.state_word → Later c c'
unfolding state
Later-of_word c c' e = rw e ground arith

Later-trans : (a b c : Control) → Later a b → Later b c → Later a c
Later-trans a b c p q = (omega (arith, p.0, q.0), omega (arith, p.1, q.1))

abandon-Later : (c : Control) → IsCoherent c → (r : WriteRequest) → Later c (abandon_write c r)
unfolding abandon_write
abandon-Later c h r = elim (Bool-cases (in_queue r.id c.ordered_queue)) [
  | inl waiting ↦ rw waiting (Later-of_word c _ (cancel_queued-same c h r).0)
  | inr gone ↦ elim (Bool-cases (is_active c.active_request r.id)) [
    | inl active ↦
        let e = abandoned_active_write_error r.operation in
        rw (gone, active)
          (Later-trans c (latch_failure c poisoned e).0 _ (latch-Later c h.states poisoned e)
            (Later-of_word _ _ (finish_write-same _ (latch_failure-IsCoherent c h poisoned e) r).0))
    | inr other ↦ rw (gone, other) (Later-of_word c c refl)
  ]
]

-- A call on a reachable control never lowers the instance state's rank (healthy, write-stopped,
-- poisoned) nor the state epoch.
pub Step-Later :
    {c c' : Control}
    → Reachable c
    → Step c c'
    → (state_rank (state c).instance_state ≤ state_rank (state c').instance_state)
      × ((state c).state_epoch ≤ (state c').state_epoch)
Step-Later r (enqueues op ids) =
    Later-of_word _ _ (enqueue_write-same_word _ (Reachable-IsCoherent r) op)
Step-Later r (cancels q) = Later-of_word _ _ (cancel_queued-same _ (Reachable-IsCoherent r) q).0
Step-Later r (finishes q) = Later-of_word _ _ (finish_write-same _ (Reachable-IsCoherent r) q).0
Step-Later r (abandons q) = abandon-Later _ (Reachable-IsCoherent r) q
Step-Later r (latches target e) = latch-Later _ (Reachable-IsCoherent r).states target e
Step-Later r closes = Later-of_word _ _ (unfold close_write_admission in refl)
