-- ===== src/Runtime/Gate/Ticket.antt =====
-- src/runtime/write_gate.rs: `WriteTicket`, which its owner finishes or drops. Either way its request
-- leaves the gate.
use expirkv.Prelude.{
  List, [], ◌∷◌, ℕ, Bool, true, false, none, some, ◌≡◌, ◌≢◌, refl, arith, Bool-cases, inl, inr,
  if◌then◌else◌,
}
use expirkv.Error.{healthy}
use expirkv.Runtime.Gate.{
  WriteRequest, queued, started, completed, cancelled, Control, finish_write, hand_over,
  cancel_queued_write, abandon_write, in_queue, is_active, mark_completed,
}
use expirkv.Runtime.Gate.Requests.{mark_started-at, mark_completed-at, cancel_for_state-at}
use expirkv.Runtime.Gate.Coherent.{GateCoherent, IsCoherent}
use expirkv.Runtime.Gate.Finish.{is_active-eq}
use expirkv.Runtime.Gate.Steps.{
  Reachable, Reachable-IsCoherent, finish_write-IsCoherent, abandon_write-IsCoherent,
}
use expirkv.Runtime.Gate.Waiting.{abandon_write-active}

-- `Drop`: a ticket that was not released abandons its write.
unfoldable pub drop_ticket : Control → WriteRequest → Control
drop_ticket c r = abandon_write c r

-- `finish` takes the ticket, so that one whose request was not active is dropped at its end.
unfoldable pub finish_ticket : Control → WriteRequest → Control × Bool
unfolding drop_ticket
finish_ticket c r =
    let finished = finish_write c r in
    if finished.1 then finished else (drop_ticket finished.0 r, false)

-- The request of this id is neither active nor queued.
pub record HasLeft (c : Control) (id : ℕ) : Type 0 where
  pub not_active : c.active_request ≢ some id
  pub not_in_queue : in_queue id c.ordered_queue ≡ false
  pub not_queued : c.phases id ≢ some queued
  pub not_started : c.phases id ≢ some started

HasLeft-of_phase :
    (c : Control)
    → GateCoherent c
    → (id : ℕ) → c.phases id ≢ some queued
    → c.phases id ≢ some started
    → HasLeft c id
HasLeft-of_phase c g id q s = record {
  not_active = λ h. s (g.active_started id h);
  not_in_queue = elim (Bool-cases (in_queue id c.ordered_queue)) [
    | inl found ↦ absurd (q (g.in_queue_queued id found))
    | inr gone ↦ gone
  ];
  not_queued = q;
  not_started = s;
}

hand_over-completed :
    (c : Control) (queue : List WriteRequest) (id : ℕ)
    → c.phases id ≡ some completed
    → (hand_over c queue).phases id ≡ some completed
unfolding hand_over
hand_over-completed c [] id h = h
hand_over-completed c (next ∷ rest) id h = ground (arith, mark_started-at c.phases next.id id)

module _ (c : Control) (g : GateCoherent c) (r : WriteRequest) where
  finish_write-completed :
      c.active_request ≡ some r.id → (finish_write c r).0.phases r.id ≡ some completed
  unfolding finish_write is_active
  finish_write-completed active =
      let done : mark_completed c.phases r.id r.id ≡ some completed =
        ground (arith, g.active_started r.id active, mark_completed-at c.phases r.id r.id) in
      let idle = record c { active_request = none; phases = mark_completed c.phases r.id } in
      ground (arith, active, done, hand_over-completed idle c.ordered_queue r.id done)

  cancel_queued-cancelled :
      in_queue r.id c.ordered_queue ≡ true
      → (cancel_queued_write c r).0.phases r.id ≡ some (cancelled healthy)
  unfolding cancel_queued_write
  cancel_queued-cancelled waiting =
      ground (arith, g.in_queue_queued r.id waiting, cancel_for_state-at c.phases r.id r.id healthy)

HasLeft-of_completed :
    (c : Control) → IsCoherent c → (id : ℕ) → c.phases id ≡ some completed → HasLeft c id
HasLeft-of_completed c h id e = HasLeft-of_phase c h.gate id (λ q. cc) (λ s. cc)

module _ (c : Control) (r : WriteRequest) where
  abandon_write-outside :
      in_queue r.id c.ordered_queue ≡ false
      → is_active c.active_request r.id ≡ false
      → abandon_write c r ≡ c
  unfolding abandon_write
  abandon_write-outside gone other = rw (gone, other) refl

  outside-HasLeft :
      GateCoherent c
      → in_queue r.id c.ordered_queue ≡ false
      → is_active c.active_request r.id ≡ false
      → HasLeft c r.id
  unfolding is_active
  outside-HasLeft g gone other =
      HasLeft-of_phase c g r.id (λ q. ground (arith, g.queued_in_queue r.id q))
        (λ s. ground (arith, g.started_active r.id s))

  finish_write-active : is_active c.active_request r.id ≡ true → (finish_write c r).1 ≡ true
  unfolding finish_write
  finish_write-active active = ground arith

  finish_write-other : is_active c.active_request r.id ≡ false → finish_write c r ≡ (c, false)
  unfolding finish_write
  finish_write-other other = rw other refl

-- On a reachable control, a ticket that is dropped leaves the gate: its request is not active, not in
-- the queue, and its phase neither queued nor started.
pub drop_ticket-HasLeft :
    {c : Control} → Reachable c → (r : WriteRequest) → HasLeft (drop_ticket c r) r.id
unfolding drop_ticket
drop_ticket-HasLeft {c = c} reach r =
    let h = Reachable-IsCoherent reach in
    let after = abandon_write-IsCoherent c h r in
    elim (Bool-cases (is_active c.active_request r.id)) [
      | inl active ↦
          let left = abandon_write-active reach r (is_active-eq c.active_request r.id active) in
          HasLeft-of_completed _ after r.id left.2
      | inr other ↦ elim (Bool-cases (in_queue r.id c.ordered_queue)) [
        | inl waiting ↦
            let phase : (abandon_write c r).phases r.id ≡ some (cancelled healthy) =
              unfold abandon_write in rw waiting (cancel_queued-cancelled c h.gate r waiting) in
            HasLeft-of_phase _ after.gate r.id (λ q. cc) (λ s. cc)
        | inr gone ↦
            rw (abandon_write-outside c r gone other) (outside-HasLeft c r h.gate gone other)
      ]
    ]

-- On a reachable control, a ticket that is finished leaves the gate too, also when its request was
-- not the active one, and `finish` says whether it was.
pub finish_ticket-HasLeft :
    {c : Control}
    → Reachable c
    → (r : WriteRequest)
    → HasLeft (finish_ticket c r).0 r.id × ((finish_ticket c r).1 ≡ is_active c.active_request r.id)
unfolding finish_ticket
finish_ticket-HasLeft {c = c} reach r =
    let h = Reachable-IsCoherent reach in
    elim (Bool-cases (is_active c.active_request r.id)) [
      | inl active ↦
          let was = is_active-eq c.active_request r.id active in
          rw (active, finish_write-active c r active)
            (
              HasLeft-of_completed _ (finish_write-IsCoherent c h r) r.id
                  (finish_write-completed c h.gate r was),
              refl,
            )
      | inr other ↦ rw (other, finish_write-other c r other) (drop_ticket-HasLeft reach r, refl)
    ]

-- Finishing a ticket keeps the invariant of the gate.
pub finish_ticket-IsCoherent :
    (c : Control) → IsCoherent c → (r : WriteRequest) → IsCoherent (finish_ticket c r).0
unfolding finish_ticket drop_ticket
finish_ticket-IsCoherent c h r = elim (Bool-cases (is_active c.active_request r.id)) [
  | inl active ↦ rw (finish_write-active c r active) (finish_write-IsCoherent c h r)
  | inr other ↦ rw (finish_write-other c r other) (abandon_write-IsCoherent c h r)
]

hand_over-word :
    (c : Control) (queue : List WriteRequest) → (hand_over c queue).state_word ≡ c.state_word
unfolding hand_over
hand_over-word c [] = refl
hand_over-word c (next ∷ rest) = refl

finish_write-word :
    (c : Control) (r : WriteRequest) → (finish_write c r).0.state_word ≡ c.state_word
unfolding finish_write
finish_write-word c r = ground (
  arith,
  hand_over-word (record c { active_request = none; phases = mark_completed c.phases r.id })
      c.ordered_queue,
)

-- It leaves the instance's state, since a ticket whose request is not active is only taken back.
pub finish_ticket-word :
    (c : Control) (r : WriteRequest) → (finish_ticket c r).0.state_word ≡ c.state_word
unfolding finish_ticket drop_ticket abandon_write cancel_queued_write
finish_ticket-word c r = elim (Bool-cases (is_active c.active_request r.id)) [
  | inl active ↦ rw (finish_write-active c r active) (finish_write-word c r)
  | inr other ↦ rw (finish_write-other c r other, other) (ground arith)
]
