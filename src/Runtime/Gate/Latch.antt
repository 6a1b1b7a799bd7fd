-- ===== src/Runtime/Gate/Latch.antt =====
-- Latching a failure raises the state by one epoch, keeps the first error, closes the gate and
-- publishes what it did.
use expirkv.Prelude.{◌+◌, ◌*◌, ◌/◌, ◌%◌, ◌≤◌, ◌<◌, true, ◌≡◌, refl, arith}
use expirkv.Error.{InstanceState}
use expirkv.Stats
use expirkv.Stats.{LatchedErrorSummary}
use expirkv.Runtime.State.{state_rank, is_upgrade}
use expirkv.Runtime.Gate.{Control, state, latch_upgrade}
use expirkv.Runtime.Gate.Coherent.{StateCoherent, StatsCoherent, GateCoherent}
use expirkv.Runtime.Gate.Preserve.{emptied-GateCoherent}

module _ (c : Control) (target : InstanceState) (summary : LatchedErrorSummary) where
  pub latch_upgrade-word :
      StateCoherent c
      → is_upgrade (state c).instance_state target ≡ true
      → (latch_upgrade c target summary).state_word ≡ (c.state_word / 4 + 1) * 4 + state_rank target
  unfolding latch_upgrade is_upgrade
  latch_upgrade-word s up = ground arith

  pub latch_upgrade-rank :
      StateCoherent c
      → is_upgrade (state c).instance_state target ≡ true
      → (c.state_word % 4 < state_rank target) × (state_rank target ≤ 2)
  unfolding is_upgrade state
  latch_upgrade-rank s up = ground arith

  pub latch_upgrade-StateCoherent :
      StateCoherent c
      → is_upgrade (state c).instance_state target ≡ true
      → StateCoherent (latch_upgrade c target summary)
  latch_upgrade-StateCoherent s up = record {
    word_valid = omega (arith, latch_upgrade-word s up, latch_upgrade-rank s up);
    epoch_bound = omega (arith, latch_upgrade-word s up, latch_upgrade-rank s up);
    healthy_unlatched =
        λ h. absurd (omega (arith, latch_upgrade-word s up, latch_upgrade-rank s up));
    failed_latched = λ h. unfold latch_upgrade in ground (arith, s.failed_latched);
    failed_closed = λ h. unfold latch_upgrade in refl;
  }

  pub latch_upgrade-StatsCoherent :
      StateCoherent c
      → StatsCoherent c
      → is_upgrade (state c).instance_state target ≡ true
      → StatsCoherent (latch_upgrade c target summary)
  unfolding latch_upgrade Stats.update_runtime_state is_upgrade
  latch_upgrade-StatsCoherent s st up = ground arith

  pub latch_upgrade-GateCoherent : GateCoherent c → GateCoherent (latch_upgrade c target summary)
  unfolding latch_upgrade
  latch_upgrade-GateCoherent g = emptied-GateCoherent c g target _ refl refl refl refl
