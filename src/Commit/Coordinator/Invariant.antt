-- ===== src/Commit/Coordinator/Invariant.antt =====
-- The commit state is consistent after every request, whatever the writer and the index answer.
use expirkv.Prelude.{ℕ, ◌+◌, ◌≡◌, ◌≢◌, ◌≤◌, refl, sym, Bool, true, false, Option, none, some, arith}
use mathlib.Core.Path.{subst}
use expirkv.Error.{Operation, Result, ok, err}
use expirkv.Vlog.Envelope.{PreparedEnvelope}
use expirkv.Vlog.Geometry.{VLogPosition}
use expirkv.Commit.TxMeta.{TransactionKind, vlog_envelope, index_only_delete}
use expirkv.Commit.Prepare.{PreparedCommit}
use expirkv.Commit.Prepare.Effect.{KindFits}
use expirkv.Commit.Coordinator.{CommitState, frontier_from_optional, descriptor_end_to_format}
use expirkv.Commit.Coordinator.Request.{next_state, with_frontier}
use expirkv.Commit.Coordinator.Commit.{target_of}
use expirkv.Commit.Coordinator.Outcome.{Ended, state_after}

-- The head of the Value Log has an end exactly when something is in it.
abbrev pub EndFits : ℕ → Option VLogPosition → Type 0
EndFits seq none = seq ≡ 0
EndFits seq (some end) = seq ≢ 0

-- The sequence numbers are in order, and a durable Value Log that has reached the head ends there.
pub record IsConsistent (s : CommitState) : Type 0 where
  pub vlog_order : s.head_vlog_seq ≤ s.head_seq
  pub durable_order : s.durable_frontier.durable_seq ≤ s.head_seq
  pub durable_vlog_order : s.durable_frontier.durable_vlog_seq ≤ s.head_vlog_seq
  pub frontier_order : s.durable_frontier.durable_vlog_seq ≤ s.durable_frontier.durable_seq
  pub end_fits : EndFits s.head_vlog_seq s.head_vlog_end
  pub durable_end :
      s.durable_frontier.durable_vlog_seq ≡ s.head_vlog_seq
      → descriptor_end_to_format s.durable_frontier.durable_vlog_end ≡ s.head_vlog_end

pub descriptor_end-frontier :
    (seq vlog_seq : ℕ) (end : Option VLogPosition)
    → descriptor_end_to_format (frontier_from_optional seq vlog_seq end).durable_vlog_end ≡ end
unfolding descriptor_end_to_format frontier_from_optional
descriptor_end-frontier seq vlog_seq none = refl
descriptor_end-frontier seq vlog_seq (some p) = refl

pub frontier-seqs :
    (seq vlog_seq : ℕ) (end : Option VLogPosition)
    → ((frontier_from_optional seq vlog_seq end).durable_seq ≡ seq)
      × ((frontier_from_optional seq vlog_seq end).durable_vlog_seq ≡ vlog_seq)
unfolding frontier_from_optional
frontier-seqs seq vlog_seq none = (refl, refl)
frontier-seqs seq vlog_seq (some p) = (refl, refl)

-- A state whose frontier has just been made from its head.
pub at_frontier-IsConsistent :
    (seq vlog_seq : ℕ) (end : Option VLogPosition)
    → vlog_seq ≤ seq
    → EndFits vlog_seq end
    → IsConsistent (record {
      head_seq = seq;
      durable_frontier = frontier_from_optional seq vlog_seq end;
      head_vlog_seq = vlog_seq;
      head_vlog_end = end;
    })
at_frontier-IsConsistent seq vlog_seq end order fits =
    let (is_seq, is_vlog) = frontier-seqs seq vlog_seq end in
    record {
      vlog_order = order;
      durable_order = omega arith;
      durable_vlog_order = omega arith;
      frontier_order = omega arith;
      end_fits = fits;
      durable_end = λ h. descriptor_end-frontier seq vlog_seq end;
    }

module _ (s : CommitState) (v : IsConsistent s) (p : PreparedCommit) (op : Operation)
    (next : p.commit_seq ≡ s.head_seq + 1) where
  kind-IsConsistent :
      (kind : TransactionKind) (envelope : Option PreparedEnvelope) (sync : Bool)
      → KindFits kind envelope
      → IsConsistent (
          state_after s
            (target_of s (record p { transaction_kind = kind; envelope = envelope }) op sync))
  unfolding state_after target_of next_state with_frontier
  kind-IsConsistent vlog_envelope none sync fits = absurd fits
  kind-IsConsistent vlog_envelope (some e) true fits =
      at_frontier-IsConsistent p.commit_seq p.commit_seq (some e.vlog_end) (omega arith)
        (omega arith)
  kind-IsConsistent vlog_envelope (some e) false fits =
      let old = v.durable_vlog_order in
      let bound = v.vlog_order in
      let durable = v.durable_order in
      record {
        vlog_order = omega arith;
        durable_order = omega arith;
        durable_vlog_order = omega arith;
        frontier_order = v.frontier_order;
        end_fits = omega arith;
        durable_end = λ h. absurd (omega arith);
      }
  kind-IsConsistent index_only_delete none true fits =
      let bound = v.vlog_order in
      at_frontier-IsConsistent p.commit_seq s.head_vlog_seq s.head_vlog_end (omega arith) v.end_fits
  kind-IsConsistent index_only_delete none false fits =
      let bound = v.vlog_order in
      let durable = v.durable_order in
      record {
        vlog_order = omega arith;
        durable_order = omega arith;
        durable_vlog_order = v.durable_vlog_order;
        frontier_order = v.frontier_order;
        end_fits = v.end_fits;
        durable_end = v.durable_end;
      }
  kind-IsConsistent index_only_delete (some e) sync fits = absurd fits

  pub state_after-IsConsistent :
      (sync : Bool)
      → KindFits p.transaction_kind p.envelope
      → IsConsistent (state_after s (target_of s p op sync))
  state_after-IsConsistent sync fits = kind-IsConsistent p.transaction_kind p.envelope sync fits

-- What a commit that returned success leaves: the head is one further, and a commit with `sync` made
-- the head durable, one without left the durable frontier alone.
abbrev pub Advanced : CommitState → Bool → CommitState → Type 0
Advanced s sync now =
    (now.head_seq ≡ s.head_seq + 1)
    × (sync ≡ true
        → (now.durable_frontier.durable_seq ≡ now.head_seq)
          × (now.durable_frontier.durable_vlog_seq ≡ now.head_vlog_seq)
          × (descriptor_end_to_format now.durable_frontier.durable_vlog_end ≡ now.head_vlog_end))
    × (sync ≡ false → now.durable_frontier ≡ s.durable_frontier)

module _ (s : CommitState) (p : PreparedCommit) (op : Operation)
    (next : p.commit_seq ≡ s.head_seq + 1) where
  kind-Advanced :
      (kind : TransactionKind) (envelope : Option PreparedEnvelope) (sync : Bool)
      → KindFits kind envelope
      → Advanced s sync (
          state_after s
            (target_of s (record p { transaction_kind = kind; envelope = envelope }) op sync))
  unfolding state_after target_of next_state with_frontier
  kind-Advanced vlog_envelope none sync fits = absurd fits
  kind-Advanced vlog_envelope (some e) true fits =
      let (is_seq, is_vlog) = frontier-seqs p.commit_seq p.commit_seq (some e.vlog_end) in
      (
        next,
        λ _. (is_seq, is_vlog, descriptor_end-frontier p.commit_seq p.commit_seq (some e.vlog_end)),
        λ h. absurd (cc),
      )
  kind-Advanced vlog_envelope (some e) false fits = (next, λ h. absurd (cc), λ _. refl)
  kind-Advanced index_only_delete none true fits =
      let (is_seq, is_vlog) = frontier-seqs p.commit_seq s.head_vlog_seq s.head_vlog_end in
      (
        next,
        λ _.
            (is_seq, is_vlog, descriptor_end-frontier p.commit_seq s.head_vlog_seq s.head_vlog_end),
        λ h. absurd (cc),
      )
  kind-Advanced index_only_delete none false fits = (next, λ h. absurd (cc), λ _. refl)
  kind-Advanced index_only_delete (some e) sync fits = absurd fits

  pub state_after-Advanced :
      (sync : Bool)
      → KindFits p.transaction_kind p.envelope
      → Advanced s sync (state_after s (target_of s p op sync))
  state_after-Advanced sync fits = kind-Advanced p.transaction_kind p.envelope sync fits

-- A success advanced the state; an error left it.
abbrev pub Moved : CommitState → Bool → CommitState → Result (Unit {0}) → Type 0
Moved before sync now (ok done) = Advanced before sync now
Moved before sync now (err e) = now ≡ before

pub Moved-of_Ended :
    (before after now : CommitState) (sync : Bool) (r : Result (Unit {0}))
    → Ended before after now r
    → Advanced before sync after
    → Moved before sync now r
Moved-of_Ended before after now sync (ok done) e advanced =
    subst (Advanced before sync) (sym e) advanced
Moved-of_Ended before after now sync (err failure) e advanced = e

pub IsConsistent-of_Ended :
    (before after now : CommitState) (r : Result (Unit {0}))
    → Ended before after now r
    → IsConsistent before
    → IsConsistent after
    → IsConsistent now
IsConsistent-of_Ended before after now (ok done) e v w = subst IsConsistent (sym e) w
IsConsistent-of_Ended before after now (err failure) e v w = subst IsConsistent (sym e) v
