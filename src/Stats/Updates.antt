-- ===== src/Stats/Updates.antt =====
-- The published statistics: what the two updates keep, and that a late publication loses.
use expirkv.Prelude.{ℕ, ◌+◌, ◌≤◌, ◌<◌, true, false, Option, ◌≡◌, ◌≢◌, refl, arith}
use expirkv.Error.{InstanceState}
use expirkv.Stats
use expirkv.Stats.{DbStats, LatchedErrorSummary, VLogPosition}

-- The sequence numbers: nothing is durable beyond the head, and the lag is what is not durable yet.
pub record LagFits (s : DbStats) : Type 0 where
  pub within_head : s.durable_seq ≤ s.head_seq
  pub lag_is_rest : s.durability_lag + s.durable_seq ≡ s.head_seq

pub new-LagFits : LagFits Stats.new
unfolding Stats.new
new-LagFits = record { within_head = omega arith; lag_is_rest = refl }

-- `update_commit_state` accepts exactly the pairs whose durable number is at most the head's, a pair
-- that it refuses changes nothing, and after every call the durable number is at most the head's with
-- the lag their difference, if that was so before.
pub update_commit_state-LagFits :
    (s : DbStats)
    → LagFits s
    → (head durable : ℕ) (end : Option (ℕ × ℕ)) (active : Option ℕ) (count bytes : ℕ)
    → let out = Stats.update_commit_state s head durable end active count bytes in
      LagFits out.0
      × (out.1 ≡ true → (durable ≤ head) × (out.0.head_seq ≡ head) × (out.0.durable_seq ≡ durable))
      × (out.1 ≡ false → (head < durable) × (out.0 ≡ s))
unfolding Stats.update_commit_state
update_commit_state-LagFits s fits head durable end active count bytes = (
  record {
    within_head = ground (arith, fits.within_head);
    lag_is_rest = ground (arith, fits.lag_is_rest);
  },
  λ h. ground arith,
  λ h. ground arith,
)

-- Two publications of the runtime state with different epochs give the same statistics in either
-- order, so that a thread that publishes late cannot bring an older state back.
pub update_runtime_state-commute :
    (s : DbStats) (a b : InstanceState) (epoch_a epoch_b : ℕ)
    (latched_a latched_b : Option LatchedErrorSummary)
    → epoch_a ≢ epoch_b
    → Stats.update_runtime_state
        (Stats.update_runtime_state s a epoch_a latched_a)
        b
        epoch_b
        latched_b
      ≡ Stats.update_runtime_state
          (Stats.update_runtime_state s b epoch_b latched_b)
          a
          epoch_a
          latched_a
unfolding Stats.update_runtime_state
update_runtime_state-commute s a b epoch_a epoch_b latched_a latched_b differ = ground arith
