-- ===== src/Runtime/Gate/Preserve.antt =====
-- Every operation of the runtime control keeps it coherent.
use expirkv.Prelude.{
  ℕ, ◌+◌, ◌%◌, ◌^◌, ◌≤◌, ◌<◌, true, false, none, some, ◌≡◌, ◌≢◌, sym, ◌∙◌, ◌⊎◌, [], ◌∷◌, ◌++◌,
  arith, Bool-cases, inl, inr,
}
use expirkv.Error.{InstanceState, healthy, Operation}
use expirkv.Runtime.Gate.{
  WriteRequest, queued, Control, admit, set_phase, in_queue, mark_started, cancel_queued_write,
  cancel_all, remove_id,
}
use expirkv.Runtime.Gate.Requests.{
  cancel_for_state-at, cancel_all-at, in_queue-append, IsDistinct-append, in_queue-remove_id,
  IsDistinct-remove_id,
}
use expirkv.Runtime.Gate.Coherent.{StateCoherent, GateCoherent}

-- `fetch_add` has not come round.
abbrev pub HasIds : Control → Type 0
HasIds c = c.next_request_id + 1 < 2 ^ 64

module _ (c : Control) (g : GateCoherent c) where
  not_queued_above : (j : ℕ) → c.next_request_id ≤ j → in_queue j c.ordered_queue ≡ false
  not_queued_above j h = elim (Bool-cases (in_queue j c.ordered_queue)) [
    | inl found ↦ absurd (cc (g.in_queue_queued j found, g.fresh j h))
    | inr absent ↦ absent
  ]

  module _ (ids : HasIds c) (op : Operation) (open_gate : c.accepting_writes ≡ true) where
    abbrev pub drawn : Control
    drawn = record c { next_request_id = (c.next_request_id + 1) % 2 ^ 64 }

    abbrev pub request : WriteRequest
    request = record { id = c.next_request_id; operation = op }

    admit-start :
        c.active_request ≡ none
        → c.ordered_queue ≡ []
        → GateCoherent (record drawn {
          active_request = some request.id;
          phases = mark_started (set_phase c.phases request.id queued) request.id;
        })
    unfolding set_phase in_queue mark_started
    admit-start idle no_queue = record {
      closed_empty = λ h. no_queue;
      idle_empty = λ h. no_queue;
      active_started = λ j h. ground arith;
      started_active = λ j h. ground (arith, g.started_active j);
      in_queue_queued = λ j h. ground (arith, g.in_queue_queued j);
      queued_in_queue = λ j h. ground (arith, g.queued_in_queue j);
      distinct = g.distinct;
      fresh = λ j h. ground (arith, g.fresh j);
    }

    admit-wait :
        c.active_request ≢ none
        → GateCoherent (record drawn {
          ordered_queue = c.ordered_queue ++ (request ∷ []);
          phases = set_phase c.phases request.id queued;
        })
    unfolding set_phase in_queue
    admit-wait busy = record {
      closed_empty = λ h. cc;
      idle_empty = λ h. absurd (busy h);
      active_started = λ j h. ground (arith, g.active_started j h, g.fresh j);
      started_active = λ j h. ground (arith, g.started_active j);
      in_queue_queued =
          λ j h. ground (arith, g.in_queue_queued j, in_queue-append j c.ordered_queue request);
      queued_in_queue =
          λ j h. ground (arith, g.queued_in_queue j, in_queue-append j c.ordered_queue request);
      distinct =
          IsDistinct-append c.ordered_queue request g.distinct (not_queued_above _ (omega arith));
      fresh = λ j h. ground (arith, g.fresh j);
    }

    pub admit-GateCoherent : GateCoherent (admit drawn request)
    unfolding admit
    admit-GateCoherent = ground (arith, g.idle_empty, admit-start, admit-wait)

  -- Dropping the id of a refused request changes nothing else.
  pub drawn-GateCoherent :
      HasIds c → GateCoherent (record c { next_request_id = (c.next_request_id + 1) % 2 ^ 64 })
  drawn-GateCoherent ids = record {
    closed_empty = g.closed_empty;
    idle_empty = g.idle_empty;
    active_started = g.active_started;
    started_active = g.started_active;
    in_queue_queued = g.in_queue_queued;
    queued_in_queue = g.queued_in_queue;
    distinct = g.distinct;
    fresh = λ j h. g.fresh j (omega arith);
  }

  pub cancel_queued-GateCoherent : (r : WriteRequest) → GateCoherent (cancel_queued_write c r).0
  unfolding cancel_queued_write remove_id
  cancel_queued-GateCoherent r = elim (Bool-cases (in_queue r.id c.ordered_queue)) [
    | inl found ↦ rw found (record {
      closed_empty = λ h. rw (g.closed_empty h);
      idle_empty = λ h. rw (g.idle_empty h);
      active_started =
          λ j h. ground (arith, g.active_started j h, cancel_for_state-at c.phases r.id j healthy);
      started_active =
          λ j h. ground (arith, g.started_active j, cancel_for_state-at c.phases r.id j healthy);
      in_queue_queued = λ j h. ground (
        arith,
        g.in_queue_queued j,
        cancel_for_state-at c.phases r.id j healthy,
        in_queue-remove_id r.id j c.ordered_queue g.distinct,
      );
      queued_in_queue = λ j h. ground (
        arith,
        g.queued_in_queue j,
        cancel_for_state-at c.phases r.id j healthy,
        in_queue-remove_id r.id j c.ordered_queue g.distinct,
      );
      distinct = IsDistinct-remove_id r.id c.ordered_queue g.distinct;
      fresh = λ j h. ground (arith, g.fresh j h, cancel_for_state-at c.phases r.id j healthy);
    })
    | inr absent ↦ rw absent g
  ]

  -- Emptying the queue and cancelling what stood in it, as closing and latching do.
  pub emptied-GateCoherent :
      (s : InstanceState) (c' : Control)
      → c'.ordered_queue ≡ []
      → c'.active_request ≡ c.active_request
      → c'.next_request_id ≡ c.next_request_id
      → c'.phases ≡ cancel_all s c.phases c.ordered_queue
      → GateCoherent c'
  unfolding in_queue
  emptied-GateCoherent s c' empty same_active same_next same_phases = record {
    closed_empty = λ h. empty;
    idle_empty = λ h. empty;
    active_started = λ j h. rw same_phases (
        ground (
          arith,
          g.active_started j,
          cancel_all-at s c.phases c.ordered_queue j,
          g.in_queue_queued j,
        ));
    started_active = λ j h. ground (
      arith,
      rw same_phases at h,
      g.started_active j,
      cancel_all-at s c.phases c.ordered_queue j,
    );
    in_queue_queued = λ j h. let none_left = rw empty at h in cc;
    queued_in_queue = λ j h. ground (
      arith,
      rw same_phases at h,
      g.queued_in_queue j,
      cancel_all-at s c.phases c.ordered_queue j,
    );
    distinct = rw empty tt;
    fresh = λ j h.
        rw same_phases (ground (arith, g.fresh j, cancel_all-at s c.phases c.ordered_queue j));
  }

-- The state and the statistics, under the operations that leave them alone.
pub StateCoherent-of_same :
    (c c' : Control)
    → StateCoherent c
    → c'.state_word ≡ c.state_word
    → c'.first_latched_error ≡ c.first_latched_error
    → (c'.accepting_writes ≡ c.accepting_writes) ⊎ (c'.accepting_writes ≡ false)
    → StateCoherent c'
StateCoherent-of_same c c' s e₁ e₂ e₃ = record {
  word_valid = omega arith;
  epoch_bound = omega arith;
  healthy_unlatched = λ h. e₂ ∙ s.healthy_unlatched (omega arith);
  failed_latched = λ h k. s.failed_latched (omega arith) (sym e₂ ∙ k);
  failed_closed = λ h. ground (arith, e₃, s.failed_closed);
}
