-- ===== src/Runtime/Gate/Coherent.antt =====
-- What holds of the runtime control between two calls.
use expirkv.Prelude.{ℕ, ◌/◌, ◌%◌, ◌≤◌, true, false, none, some, ◌≡◌, ◌≢◌, refl, [], arith}
use expirkv.Stats
use expirkv.Stats.{DbStats}
use expirkv.Runtime.Gate.{queued, started, Control, state, new, in_queue}
use expirkv.Runtime.Gate.Requests.{IsDistinct}

-- The state: a valid word with an epoch no higher than the rank, the first error latched exactly when
-- the instance is not healthy, and no admission then.
pub record StateCoherent (c : Control) : Type 0 where
  pub word_valid : c.state_word % 4 ≤ 2
  pub epoch_bound : c.state_word / 4 ≤ c.state_word % 4
  pub healthy_unlatched : c.state_word % 4 ≡ 0 → c.first_latched_error ≡ none
  pub failed_latched : c.state_word % 4 ≢ 0 → c.first_latched_error ≢ none
  pub failed_closed : c.state_word % 4 ≢ 0 → c.accepting_writes ≡ false

-- The published statistics show the state.
pub record StatsCoherent (c : Control) : Type 0 where
  pub published_state : c.stats.instance_state ≡ (state c).instance_state
  pub published_epoch : c.stats.state_epoch ≡ (state c).state_epoch
  pub published_error : c.stats.first_latched_error ≡ c.first_latched_error

-- The gate: a closed or idle gate has no queue, the started requests are the active one, and the
-- queued requests are those in the queue, each once.
pub record GateCoherent (c : Control) : Type 0 where
  pub closed_empty : c.accepting_writes ≡ false → c.ordered_queue ≡ []
  pub idle_empty : c.active_request ≡ none → c.ordered_queue ≡ []
  pub active_started : (j : ℕ) → c.active_request ≡ some j → c.phases j ≡ some started
  pub started_active : (j : ℕ) → c.phases j ≡ some started → c.active_request ≡ some j
  pub in_queue_queued : (j : ℕ) → in_queue j c.ordered_queue ≡ true → c.phases j ≡ some queued
  pub queued_in_queue : (j : ℕ) → c.phases j ≡ some queued → in_queue j c.ordered_queue ≡ true
  pub distinct : IsDistinct c.ordered_queue
  pub fresh : (j : ℕ) → c.next_request_id ≤ j → c.phases j ≡ none

pub record IsCoherent (c : Control) : Type 0 where
  pub states : StateCoherent c
  pub stats : StatsCoherent c
  pub gate : GateCoherent c

pub new-IsCoherent : IsCoherent (new Stats.new)
unfolding new state Stats.update_runtime_state Stats.new in_queue
new-IsCoherent = record {
  states = ground arith;
  stats = ground arith;
  gate = record {
    closed_empty = λ h. refl;
    idle_empty = λ h. refl;
    active_started = λ j h. cc;
    started_active = λ j h. cc;
    in_queue_queued = λ j h. cc;
    queued_in_queue = λ j h. cc;
    distinct = tt;
    fresh = λ j h. refl;
  };
}
