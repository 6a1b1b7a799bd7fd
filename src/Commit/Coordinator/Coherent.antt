-- ===== src/Commit/Coordinator/Coherent.antt =====
-- The write gate of Runtime/Gate behind the coordinator's calls.
use expirkv.Prelude.{ℕ, ◌≡◌, ◌∙◌, refl, Bool, Bool-cases, inl, inr, Option, ltb}
use expirkv.Crc.{Crc}
use expirkv.Stats
use expirkv.Runtime.Gate.{WriteRequest, state}
use expirkv.Runtime.Gate.Coherent.{IsCoherent}
use expirkv.Runtime.Gate.Steps.{latch_failure-IsCoherent}
use expirkv.Runtime.Gate.Ticket.{finish_ticket-IsCoherent}
use expirkv.Commit.Preflight.{ValidatedWrite}
use expirkv.Commit.Prepare.{RandomFill}
use expirkv.Commit.Coordinator.{ValueLog, Backend, Coordinator}
use expirkv.Commit.Coordinator.Commit.{commit_active}
use expirkv.Commit.Coordinator.Barrier.{commit_empty_barrier}
use expirkv.Commit.Coordinator.Kept.{IsKept}
use expirkv.Commit.Coordinator.Kept.Started.{commit_active-Kept, commit_empty_barrier-Kept}

-- The commit's part of the statistics leaves the state's part.
update_commit_state-state :
    (s : Stats.DbStats) (head durable : ℕ) (end : Option (ℕ × ℕ)) (active : Option ℕ)
    (count bytes : ℕ)
    → let now = (Stats.update_commit_state s head durable end active count bytes).0 in
      (now.instance_state ≡ s.instance_state)
      × (now.state_epoch ≡ s.state_epoch)
      × (now.first_latched_error ≡ s.first_latched_error)
unfolding Stats.update_commit_state
update_commit_state-state s head durable end active count bytes =
    elim (Bool-cases (ltb head durable)) [
      | inl e ↦ rw e (refl, refl, refl)
      | inr e ↦ rw e (refl, refl, refl)
    ]

IsCoherent-IsKept : IsKept IsCoherent
unfolding state
IsCoherent-IsKept = record {
  latches = λ c target e h. latch_failure-IsCoherent c h target e;
  finishes = λ c r h. finish_ticket-IsCoherent c h r;
  publishes = λ c head durable end active count bytes h.
      let (same_state, same_epoch, same_error) =
        update_commit_state-state c.stats head durable end active count bytes in
      record {
        states = record {
          word_valid = h.states.word_valid;
          epoch_bound = h.states.epoch_bound;
          healthy_unlatched = h.states.healthy_unlatched;
          failed_latched = h.states.failed_latched;
          failed_closed = h.states.failed_closed;
        };
        stats = record {
          published_state = same_state ∙ h.stats.published_state;
          published_epoch = same_epoch ∙ h.stats.published_epoch;
          published_error = same_error ∙ h.stats.published_error;
        };
        gate = record {
          closed_empty = h.gate.closed_empty;
          idle_empty = h.gate.idle_empty;
          active_started = h.gate.active_started;
          started_active = h.gate.started_active;
          in_queue_queued = h.gate.in_queue_queued;
          queued_in_queue = h.gate.queued_in_queue;
          distinct = h.gate.distinct;
          fresh = h.gate.fresh;
        };
      };
}

module _ {W S I : Type 0} (log : ValueLog W S) (backend : Backend I) (reserves : ℕ → Bool)
    (crc : Crc) (c : Coordinator W I) (ticket : WriteRequest)
    (coherent : IsCoherent c.runtime) where
  -- Whatever the allocator, the writer and the index answer, a commit or a barrier leaves the write
  -- gate coherent: its state word, the published statistics, the queue and the phases of the requests
  -- agree.
  pub requests-IsCoherent :
      ((random : RandomFill) (w : ValidatedWrite) (sync : Bool)
        → IsCoherent (commit_active log backend reserves crc c ticket random w sync).0.runtime)
      × IsCoherent (commit_empty_barrier log backend reserves crc c ticket).0.runtime
  requests-IsCoherent = (
    λ random w sync.
        commit_active-Kept IsCoherent IsCoherent-IsKept log backend ticket reserves crc c random w
          sync coherent,
    commit_empty_barrier-Kept IsCoherent IsCoherent-IsKept log backend ticket reserves crc c
        coherent,
  )
