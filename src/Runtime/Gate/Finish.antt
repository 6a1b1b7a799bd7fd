-- ===== src/Runtime/Gate/Finish.antt =====
-- `finish_write` keeps the gate coherent: it retires the active request and starts the head of the
-- queue, or leaves an empty gate.
use expirkv.Prelude.{
  ℕ, Bool, true, false, ◌&&◌, Option, none, some, ◌≡◌, refl, List, [], ◌∷◌, arith, Bool-cases, inl,
  inr, ◌==◌, if◌then◌else◌,
}
use expirkv.Runtime.Gate.{
  WriteRequest, queued, started, completed, Control, state, is_healthy, is_active, in_queue,
  finish_write, hand_over, mark_started, mark_completed,
}
use expirkv.Runtime.Gate.Requests.{IsDistinct, mark_started-at, mark_completed-at}
use expirkv.Runtime.Gate.Coherent.{GateCoherent}

module _ (c : Control) (g : GateCoherent c) (r : WriteRequest)
    (active : c.active_request ≡ some r.id) where
  abbrev retired : Control
  retired = record c { active_request = none; phases = mark_completed c.phases r.id }

  retired-GateCoherent : c.ordered_queue ≡ [] → GateCoherent retired
  unfolding in_queue
  retired-GateCoherent empty = record {
    closed_empty = λ h. empty;
    idle_empty = λ h. empty;
    active_started = λ j h. cc;
    started_active = λ j h. ground (arith, g.started_active j, mark_completed-at c.phases r.id j);
    in_queue_queued = λ j h. let none_left = rw empty at h in cc;
    queued_in_queue = λ j h. ground (arith, g.queued_in_queue j, mark_completed-at c.phases r.id j);
    distinct = g.distinct;
    fresh = λ j h. ground (arith, g.fresh j h, mark_completed-at c.phases r.id j);
  }

  module _ (next : WriteRequest) (rest : List WriteRequest)
      (queue_is : c.ordered_queue ≡ next ∷ rest) where
    in_queue-head : (j : ℕ) → in_queue j (next ∷ rest) ≡ true → c.phases j ≡ some queued
    in_queue-head j h = g.in_queue_queued j (rw queue_is h)

    queued-head : (j : ℕ) → c.phases j ≡ some queued → in_queue j (next ∷ rest) ≡ true
    queued-head j h = rw queue_is at (g.queued_in_queue j h)

    handed_phase :
        (j : ℕ)
        → mark_started retired.phases next.id j ≡ (
            if j == next.id then some started else if j == r.id then some completed else c.phases j)
    unfolding in_queue
    handed_phase j = ground (
      arith,
      mark_started-at retired.phases next.id j,
      mark_completed-at c.phases r.id j,
      in_queue-head next.id,
      g.active_started r.id active,
    )

    handed-IsDistinct : IsDistinct (next ∷ rest)
    handed-IsDistinct = rw queue_is at g.distinct

    next-GateCoherent : c.accepting_writes ≡ true → GateCoherent (hand_over retired (next ∷ rest))
    unfolding hand_over in_queue
    next-GateCoherent open_gate = record {
      closed_empty = λ h. cc;
      idle_empty = λ h. cc;
      active_started = λ j h. ground (arith, handed_phase j);
      started_active = λ j h. ground (arith, handed_phase j, g.started_active j);
      in_queue_queued = λ j h. ground (
        arith,
        handed_phase j,
        in_queue-head j,
        handed-IsDistinct.0,
        g.active_started r.id active,
      );
      queued_in_queue = λ j h. ground (arith, handed_phase j, queued-head j);
      distinct = handed-IsDistinct.1;
      fresh = λ j h.
          ground (
            arith,
            handed_phase j,
            g.fresh j h,
            in_queue-head next.id,
            g.active_started r.id active,
          );
    }

  hand_over-GateCoherent :
      (queue : List WriteRequest)
      → c.ordered_queue ≡ queue
      → c.accepting_writes ≡ true
      → GateCoherent (hand_over retired queue)
  hand_over-GateCoherent [] e open_gate = unfold hand_over in retired-GateCoherent e
  hand_over-GateCoherent (next ∷ rest) e open_gate = next-GateCoherent next rest e open_gate

pub is_active-eq : (a : Option ℕ) (id : ℕ) → is_active a id ≡ true → a ≡ some id
unfolding is_active
is_active-eq a id h = ground arith

and-right : (a b : Bool) → (a && b) ≡ true → b ≡ true
and-right a b h = ground arith

shut_closed :
    (c : Control)
    → (is_healthy (state c).instance_state ≡ false → c.accepting_writes ≡ false)
    → (is_healthy (state c).instance_state && c.accepting_writes) ≡ false
    → c.accepting_writes ≡ false
shut_closed c failed h = ground arith

-- Finishing any request, active or not, keeps the gate coherent.
pub finish_write-GateCoherent :
    (c : Control) (r : WriteRequest)
    → GateCoherent c
    → (is_healthy (state c).instance_state ≡ false → c.accepting_writes ≡ false)
    → GateCoherent (finish_write c r).0
unfolding finish_write
finish_write-GateCoherent c r g failed = elim (Bool-cases (is_active c.active_request r.id)) [
  | inl active ↦
      let is_it = is_active-eq c.active_request r.id active in
      elim (Bool-cases (is_healthy (state c).instance_state && c.accepting_writes)) [
        | inl open_gate ↦
            rw (active, open_gate)
              (hand_over-GateCoherent c g r is_it c.ordered_queue refl (and-right _ _ open_gate))
        | inr shut ↦
            rw (active, shut)
              (retired-GateCoherent c g r is_it (g.closed_empty (shut_closed c failed shut)))
      ]
  | inr other ↦ rw other g
]
