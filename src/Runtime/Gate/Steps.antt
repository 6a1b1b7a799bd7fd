-- ===== src/Runtime/Gate/Steps.antt =====
-- The operations as steps, and what holds in every state that they reach.
use expirkv.Prelude.{◌+◌, ◌%◌, ◌^◌, true, false, ◌≡◌, refl, ◌⊎◌, arith, Bool-cases, inl, inr}
use expirkv.Error.{InstanceState, poisoned, Operation, StorageError}
use expirkv.Stats
use expirkv.Stats.{DbStats}
use expirkv.Runtime.State.{is_upgrade, required_failure_state}
use expirkv.Runtime.Gate.{
  WriteRequest, Control, state, is_healthy, new, enqueue_write, admit, finish_write, hand_over,
  cancel_queued_write, abandon_write, abandoned_active_write_error, close_write_admission,
  latch_failure, in_queue, is_active,
}
use expirkv.Runtime.Gate.Coherent.{StatsCoherent, GateCoherent, IsCoherent, new-IsCoherent}
use expirkv.Runtime.Gate.Preserve.{
  HasIds, admit-GateCoherent, drawn-GateCoherent, cancel_queued-GateCoherent, emptied-GateCoherent,
  StateCoherent-of_same,
}
use expirkv.Runtime.Gate.Finish.{finish_write-GateCoherent}
use expirkv.Runtime.Gate.Latch.{
  latch_upgrade-StateCoherent, latch_upgrade-StatsCoherent, latch_upgrade-GateCoherent,
}

StatsCoherent-of_same :
    (c c' : Control)
    → StatsCoherent c
    → c'.stats ≡ c.stats
    → c'.state_word ≡ c.state_word
    → c'.first_latched_error ≡ c.first_latched_error
    → StatsCoherent c'
unfolding state
StatsCoherent-of_same c c' s e₁ e₂ e₃ = ground arith

-- Coherence carries over to a control with the same state and statistics.
IsCoherent-of_gate :
    (c c' : Control)
    → IsCoherent c
    → GateCoherent c'
    → c'.state_word ≡ c.state_word
    → c'.first_latched_error ≡ c.first_latched_error
    → (c'.accepting_writes ≡ c.accepting_writes) ⊎ (c'.accepting_writes ≡ false)
    → c'.stats ≡ c.stats
    → IsCoherent c'
IsCoherent-of_gate c c' h g e₁ e₂ e₃ e₄ = record {
  states = StateCoherent-of_same c c' h.states e₁ e₂ e₃;
  stats = StatsCoherent-of_same c c' h.stats e₄ e₁ e₂;
  gate = g;
}

module _ (c : Control) (h : IsCoherent c) where
  admit-same :
      (d : Control) (r : WriteRequest)
      → ((admit d r).state_word ≡ d.state_word)
        × ((admit d r).first_latched_error ≡ d.first_latched_error)
        × ((admit d r).accepting_writes ≡ d.accepting_writes)
        × ((admit d r).stats ≡ d.stats)
  unfolding admit
  admit-same d r = ground arith

  module _ (op : Operation) where
    enqueue_write-admitted :
        is_healthy (state c).instance_state ≡ true
        → c.accepting_writes ≡ true
        → (enqueue_write c op).0
          ≡ admit
              (record c { next_request_id = (c.next_request_id + 1) % 2 ^ 64 })
              (record { id = c.next_request_id; operation = op })
    unfolding enqueue_write
    enqueue_write-admitted up open_gate = rw (up, open_gate) refl

    enqueue_write-refused :
        is_healthy (state c).instance_state ≡ true
        → c.accepting_writes ≡ false
        → (enqueue_write c op).0 ≡ record c { next_request_id = (c.next_request_id + 1) % 2 ^ 64 }
    unfolding enqueue_write
    enqueue_write-refused up shut = rw (up, shut) refl

    enqueue_write-down : is_healthy (state c).instance_state ≡ false → (enqueue_write c op).0 ≡ c
    unfolding enqueue_write
    enqueue_write-down down = rw down refl

    pub enqueue_write-IsCoherent : HasIds c → IsCoherent (enqueue_write c op).0
    enqueue_write-IsCoherent ids = elim (Bool-cases (is_healthy (state c).instance_state)) [
      | inl up ↦ elim (Bool-cases c.accepting_writes) [
        | inl open_gate ↦
            let same =
              admit-same (record c { next_request_id = (c.next_request_id + 1) % 2 ^ 64 })
                (record { id = c.next_request_id; operation = op }) in
            rw (enqueue_write-admitted up open_gate) (
              IsCoherent-of_gate c _ h (admit-GateCoherent c h.gate ids op open_gate) same.0 same.1
                (inl same.2) same.3)
        | inr shut ↦
            rw (enqueue_write-refused up shut)
              (IsCoherent-of_gate c _ h (drawn-GateCoherent c h.gate ids) refl refl (inl refl) refl)
      ]
      | inr down ↦ rw (enqueue_write-down down) h
    ]

  pub enqueue_write-same_word : (op : Operation) → (enqueue_write c op).0.state_word ≡ c.state_word
  unfolding enqueue_write admit
  enqueue_write-same_word op = ground arith

  pub enqueue_write-same_error :
      (op : Operation) → (enqueue_write c op).0.first_latched_error ≡ c.first_latched_error
  unfolding enqueue_write admit
  enqueue_write-same_error op = ground arith

  pub cancel_queued-same :
      (r : WriteRequest)
      → let c' = (cancel_queued_write c r).0 in
        (c'.state_word ≡ c.state_word)
        × (c'.first_latched_error ≡ c.first_latched_error)
        × (c'.accepting_writes ≡ c.accepting_writes)
        × (c'.stats ≡ c.stats)
  unfolding cancel_queued_write
  cancel_queued-same r = ground arith

  pub cancel_queued_write-IsCoherent : (r : WriteRequest) → IsCoherent (cancel_queued_write c r).0
  cancel_queued_write-IsCoherent r =
      let same = cancel_queued-same r in
      IsCoherent-of_gate c _ h (cancel_queued-GateCoherent c h.gate r) same.0 same.1 (inl same.2)
        same.3

  failed_shut : is_healthy (state c).instance_state ≡ false → c.accepting_writes ≡ false
  unfolding state is_healthy
  failed_shut down = h.states.failed_closed (ground arith)

  pub finish_write-same :
      (r : WriteRequest)
      → let c' = (finish_write c r).0 in
        (c'.state_word ≡ c.state_word)
        × (c'.first_latched_error ≡ c.first_latched_error)
        × (c'.accepting_writes ≡ c.accepting_writes)
        × (c'.stats ≡ c.stats)
  unfolding finish_write hand_over
  finish_write-same r = ground arith

  pub finish_write-IsCoherent : (r : WriteRequest) → IsCoherent (finish_write c r).0
  finish_write-IsCoherent r =
      let same = finish_write-same r in
      IsCoherent-of_gate c _ h (finish_write-GateCoherent c r h.gate failed_shut) same.0 same.1
        (inl same.2) same.3

  pub close_write_admission-IsCoherent : IsCoherent (close_write_admission c)
  unfolding close_write_admission
  close_write_admission-IsCoherent =
      IsCoherent-of_gate c _ h
        (emptied-GateCoherent c h.gate (state c).instance_state _ refl refl refl refl) refl refl
        (inr refl) refl

  pub latch_failure-IsCoherent :
      (asked : InstanceState) (e : StorageError) → IsCoherent (latch_failure c asked e).0
  unfolding latch_failure
  latch_failure-IsCoherent asked e =
      elim (Bool-cases (is_upgrade (state c).instance_state (required_failure_state asked e))) [
        | inl up ↦ rw up (record {
          states = latch_upgrade-StateCoherent c _ _ h.states up;
          stats = latch_upgrade-StatsCoherent c _ _ h.states h.stats up;
          gate = latch_upgrade-GateCoherent c _ _ h.gate;
        })
        | inr same ↦ rw same h
      ]

pub abandon_write-IsCoherent :
    (c : Control) (h : IsCoherent c) (r : WriteRequest) → IsCoherent (abandon_write c r)
unfolding abandon_write
abandon_write-IsCoherent c h r = elim (Bool-cases (in_queue r.id c.ordered_queue)) [
  | inl waiting ↦ rw waiting (cancel_queued_write-IsCoherent c h r)
  | inr gone ↦ elim (Bool-cases (is_active c.active_request r.id)) [
    | inl active ↦
        rw (gone, active)
          (finish_write-IsCoherent _
            (latch_failure-IsCoherent c h poisoned (abandoned_active_write_error r.operation)) r)
    | inr other ↦ rw (gone, other) h
  ]
]

-- One call of one thread. Any thread may make the next call.
pub data Step : Control → Control → Type 0 where
  enqueues : {c : Control} (op : Operation) → HasIds c → Step c (enqueue_write c op).0
  cancels : {c : Control} (r : WriteRequest) → Step c (cancel_queued_write c r).0
  finishes : {c : Control} (r : WriteRequest) → Step c (finish_write c r).0
  abandons : {c : Control} (r : WriteRequest) → Step c (abandon_write c r)
  latches :
      {c : Control} (target : InstanceState) (e : StorageError)
      → Step c (latch_failure c target e).0
  closes : {c : Control} → Step c (close_write_admission c)

pub data Reachable : Control → Type 0 where
  starts : Reachable (new Stats.new)
  steps : {c c' : Control} → Reachable c → Step c c' → Reachable c'

Step-IsCoherent : {c c' : Control} → Step c c' → IsCoherent c → IsCoherent c'
Step-IsCoherent (enqueues op ids) h = enqueue_write-IsCoherent _ h op ids
Step-IsCoherent (cancels r) h = cancel_queued_write-IsCoherent _ h r
Step-IsCoherent (finishes r) h = finish_write-IsCoherent _ h r
Step-IsCoherent (abandons r) h = abandon_write-IsCoherent _ h r
Step-IsCoherent (latches target e) h = latch_failure-IsCoherent _ h target e
Step-IsCoherent closes h = close_write_admission-IsCoherent _ h

-- Every control that calls of any threads reach from a new one, as long as request ids do not come
-- round, is coherent: its state, its statistics and its gate agree.
pub Reachable-IsCoherent : {c : Control} → Reachable c → IsCoherent c
Reachable-IsCoherent starts = new-IsCoherent
Reachable-IsCoherent (steps r s) = Step-IsCoherent s (Reachable-IsCoherent r)
