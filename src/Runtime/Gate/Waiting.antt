-- ===== src/Runtime/Gate/Waiting.antt =====
-- What becomes of the waiting requests and of the active one when a failure is latched.
use expirkv.Prelude.{
  ℕ, ◌+◌, ◌%◌, true, false, Option, none, some, ◌≡◌, ◌≢◌, refl, sym, ◌∙◌, [], arith, inl, length,
}
use expirkv.Error.{InstanceState, poisoned, StorageError}
use expirkv.Stats
use expirkv.Runtime.State.{state_rank, is_upgrade, required_failure_state}
use expirkv.Runtime.State.Word.{required_failure_state-poisoned}
use expirkv.Runtime.Gate.{
  WriteRequest, RequestPhase, queued, started, completed, cancelled, Control, state, is_healthy,
  finish_write, abandon_write, abandoned_active_write_error, latch_failure, latch_upgrade, raised,
  cancel_all, in_queue, is_active, mark_completed,
}
use expirkv.Runtime.Gate.Requests.{cancel_all-at, mark_completed-at}
use expirkv.Runtime.Gate.Coherent.{StateCoherent, GateCoherent}
use expirkv.Runtime.Gate.Latch.{latch_upgrade-word, latch_upgrade-rank}
use expirkv.Runtime.Gate.Steps.{
  Reachable, Reachable-IsCoherent, latch_failure-IsCoherent, finish_write-IsCoherent,
  finish_write-same,
}

-- The phase of a request after the queue was cancelled.
abbrev pub after_cancel : InstanceState → Option RequestPhase → Option RequestPhase
after_cancel s (some queued) = some (cancelled s)
after_cancel s p = p

raised-state : (c : Control) (target : InstanceState) → (raised c target).instance_state ≡ target
unfolding raised
raised-state c target = refl

module _ (c : Control) (s : StateCoherent c) (target : InstanceState)
    (summary : Stats.LatchedErrorSummary)
    (up : is_upgrade (state c).instance_state target ≡ true) where
  upgraded-state : (state (latch_upgrade c target summary)).instance_state ≡ target
  unfolding state state_rank
  upgraded-state = ground (arith, latch_upgrade-word c target summary s up)

  upgraded-epoch : (state (latch_upgrade c target summary)).state_epoch ≡ (state c).state_epoch + 1
  unfolding state state_rank
  upgraded-epoch =
      ground
        (arith, latch_upgrade-word c target summary s up, latch_upgrade-rank c target summary s up)

  raised-epoch : (raised c target).state_epoch ≡ (state c).state_epoch + 1
  unfolding raised state
  raised-epoch = ground (arith, s.epoch_bound)

  upgraded-snapshot : state (latch_upgrade c target summary) ≡ raised c target
  upgraded-snapshot =
      ground (arith, upgraded-state, upgraded-epoch, raised-epoch, raised-state c target)

cancelled-phase :
    (c : Control)
    → GateCoherent c
    → (target : InstanceState) (j : ℕ)
    → cancel_all target c.phases c.ordered_queue j ≡ after_cancel target (c.phases j)
cancelled-phase c g target j = ground (
  arith,
  cancel_all-at target c.phases c.ordered_queue j,
  g.queued_in_queue j,
  g.in_queue_queued j,
)

-- On a reachable control, an error that calls for a higher state than the present one raises the
-- state to it with one more epoch, closes and empties the gate, cancels every queued request with the
-- new state and no other, leaves the active request alone and reports how many it cancelled.
pub latch_failure-upgrade :
    {c : Control}
    → Reachable c
    → (asked : InstanceState) (e : StorageError)
    → is_upgrade (state c).instance_state (required_failure_state asked e) ≡ true
    → let c' = (latch_failure c asked e).0 in
      let t = (latch_failure c asked e).1 in
      ((state c').instance_state ≡ required_failure_state asked e)
      × ((state c').state_epoch ≡ (state c).state_epoch + 1)
      × (c'.ordered_queue ≡ [])
      × (c'.accepting_writes ≡ false)
      × (c'.active_request ≡ c.active_request)
      × ((j : ℕ) → c'.phases j ≡ after_cancel (required_failure_state asked e) (c.phases j))
      × (t.current ≡ state c')
      × (t.cancelled_writes ≡ length c.ordered_queue)
unfolding latch_failure latch_upgrade
latch_failure-upgrade {c = c} r asked e up =
    let k = Reachable-IsCoherent r in
    rw up (
      upgraded-state c k.states (required_failure_state asked e) (Stats.from_storage_error e) up,
      upgraded-epoch c k.states (required_failure_state asked e) (Stats.from_storage_error e) up,
      refl,
      refl,
      refl,
      λ j. cancelled-phase c k.gate (required_failure_state asked e) j,
      sym (
          upgraded-snapshot c k.states (required_failure_state asked e) (Stats.from_storage_error e)
            up),
      refl,
    )

-- On a reachable control, an error that calls for no higher state changes nothing.
pub latch_failure-no_upgrade :
    (c : Control) (asked : InstanceState) (e : StorageError)
    → is_upgrade (state c).instance_state (required_failure_state asked e) ≡ false
    → ((latch_failure c asked e).0 ≡ c) × ((latch_failure c asked e).1.changed ≡ false)
unfolding latch_failure
latch_failure-no_upgrade c asked e same = rw same (refl, refl)

failed-hand_over :
    (c : Control) (r : WriteRequest)
    → c.active_request ≡ some r.id
    → is_healthy (state c).instance_state ≡ false
    → ((finish_write c r).0.active_request ≡ none)
      × ((finish_write c r).0.phases ≡ mark_completed c.phases r.id)
      × ((finish_write c r).1 ≡ true)
unfolding finish_write is_active
failed-hand_over c r active down = ground arith

failed_word : (c : Control) → is_healthy (state c).instance_state ≡ false → c.state_word % 4 ≢ 0
unfolding state is_healthy
failed_word c down = ground arith

same_state :
    (a b : Control)
    → a.state_word ≡ b.state_word
    → (state a).instance_state ≡ (state b).instance_state
unfolding state
same_state a b e = rw e refl

module _ {c : Control} (reach : Reachable c) (r : WriteRequest)
    (active : c.active_request ≡ some r.id) where
  abbrev error : StorageError
  error = abandoned_active_write_error r.operation

  active-not_queued : in_queue r.id c.ordered_queue ≡ false
  active-not_queued =
      let g = (Reachable-IsCoherent reach).gate in
      ground (arith, g.in_queue_queued r.id, g.active_started r.id active)

  latched-active : (latch_failure c poisoned error).0.active_request ≡ c.active_request
  unfolding latch_failure latch_upgrade
  latched-active = ground arith

  latched-phase : (latch_failure c poisoned error).0.phases r.id ≡ some started
  unfolding latch_failure latch_upgrade
  latched-phase =
      let g = (Reachable-IsCoherent reach).gate in
      ground (
        arith,
        cancelled-phase c g (required_failure_state poisoned error) r.id,
        g.active_started r.id active,
      )

  latched-poisoned : (state (latch_failure c poisoned error).0).instance_state ≡ poisoned
  unfolding latch_failure is_upgrade state_rank abandoned_active_write_error
  latched-poisoned =
      let h = (Reachable-IsCoherent reach).states in
      ground (
        arith,
        required_failure_state-poisoned poisoned error (inl refl),
        upgraded-state c h (required_failure_state poisoned error) (Stats.from_storage_error error),
      )

  abandoned : abandon_write c r ≡ (finish_write (latch_failure c poisoned error).0 r).0
  unfolding abandon_write is_active
  abandoned = rw (active-not_queued, active) (ground arith)

  -- On a reachable control, dropping the ticket of the active request poisons the instance, leaves no
  -- request active, admitted or queued, and marks the dropped one completed.
  pub abandon_write-active :
      ((state (abandon_write c r)).instance_state ≡ poisoned)
      × ((abandon_write c r).active_request ≡ none)
      × ((abandon_write c r).phases r.id ≡ some completed)
      × ((abandon_write c r).accepting_writes ≡ false)
      × ((abandon_write c r).ordered_queue ≡ [])
  abandon_write-active =
      let latched = (latch_failure c poisoned error).0 in
      let coherent = latch_failure-IsCoherent c (Reachable-IsCoherent reach) poisoned error in
      let down : is_healthy (state latched).instance_state ≡ false =
        rw latched-poisoned (unfold is_healthy in refl) in
      let same = finish_write-same latched coherent r in
      let done = failed-hand_over latched r (latched-active ∙ active) down in
      let finished = finish_write-IsCoherent latched coherent r in
      let shut = same.2 ∙ coherent.states.failed_closed (failed_word latched down) in
      rw abandoned (
        same_state _ _ same.0 ∙ latched-poisoned,
        done.0,
        ground (arith, done.1, mark_completed-at latched.phases r.id r.id, latched-phase),
        shut,
        finished.gate.closed_empty shut,
      )
