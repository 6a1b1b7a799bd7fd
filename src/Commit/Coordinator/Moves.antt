-- ===== src/Commit/Coordinator/Moves.antt =====
-- What an active commit and an empty barrier do to the commit state.
use expirkv.Prelude.{ℕ, ◌+◌, ◌≡◌, refl, sym, Bool, none}
use mathlib.Core.Path.{subst}
use expirkv.Error.{Operation, Result, ok, err}
use expirkv.Crc.{Crc}
use expirkv.Runtime.Gate.{WriteRequest}
use expirkv.Commit.Preflight.{ValidatedWrite, transaction_kind}
use expirkv.Commit.Prepare.{PreparedCommit, RandomFill, prepare_commit}
use expirkv.Commit.Prepare.Effect.{KindFits, prepare_commit-IsPrepared}
use expirkv.Commit.Coordinator.{ValueLog, Backend, Coordinator}
use expirkv.Commit.Coordinator.Commit.{
  batch_answered, target_of, context_of, preparation_answered, with_target_frontier, commit_active,
}
use expirkv.Commit.Coordinator.Outcome.{state_after, batch_answered-Ended, fail_started-Ended}
use expirkv.Commit.Coordinator.Persisted.{OnSuccess}
use expirkv.Commit.Coordinator.Persisted.Commits.{Committed, preparation_answered-Committed}
use expirkv.Commit.Coordinator.Invariant.{
  IsConsistent, Moved, Moved-of_Ended, IsConsistent-of_Ended, state_after-IsConsistent,
  state_after-Advanced,
}

module _ {W S I : Type 0} (log : ValueLog W S) (backend : Backend I) (reserves : ℕ → Bool)
    (crc : Crc) (c : Coordinator W I) (ticket : WriteRequest) where
  preparation_answered-Moved :
      (op : Operation) (sync : Bool) (r : Result PreparedCommit)
      → ((p : PreparedCommit)
          → r ≡ ok p
          → (p.commit_seq ≡ c.state.head_seq + 1) × KindFits p.transaction_kind p.envelope)
      → let out = preparation_answered log backend reserves crc c ticket op sync r in
        Moved c.state sync out.0.state out.1 × (IsConsistent c.state → IsConsistent out.0.state)
  unfolding preparation_answered
  preparation_answered-Moved op sync (err e) numbered =
      let same = fail_started-Ended log c ticket e none none c.state in
      (same, λ v. subst IsConsistent (sym same) v)
  preparation_answered-Moved op sync (ok p) numbered =
      let (next, fits) = numbered p refl in
      let t = target_of c.state p op sync in
      let batch = with_target_frontier reserves crc p.index_batch t in
      let ended = batch_answered-Ended log backend ticket t c p.envelope batch in
      let out = batch_answered log backend c ticket t p.envelope batch in
      (
        Moved-of_Ended c.state (state_after c.state t) out.0.state sync out.1 ended
            (state_after-Advanced c.state p op next sync fits),
        λ v.
            IsConsistent-of_Ended c.state (state_after c.state t) out.0.state out.1 ended v
              (state_after-IsConsistent c.state v p op next sync fits),
      )

  numbered :
      (random : RandomFill) (w : ValidatedWrite) (p : PreparedCommit)
      → prepare_commit reserves crc
          (backend.get_user c.index)
          random
          w
          c.state.head_seq
          (context_of log backend c (transaction_kind w))
        ≡ ok p
      → (p.commit_seq ≡ c.state.head_seq + 1) × KindFits p.transaction_kind p.envelope
  numbered random w p h =
      let v =
        prepare_commit-IsPrepared reserves crc (backend.get_user c.index) random w c.state.head_seq
          (context_of log backend c (transaction_kind w)) p h in
      (v.next, v.fits_kind)

  -- Whatever the allocator, the writer, the index and the source of identifiers answer, an active
  -- commit that returns an error has left the commit state as it was. One that returns success has
  -- moved the head by one, and with `sync` made the durable frontier that of the new head, with the end
  -- of its Value Log, and without left the frontier as it was. It has appended the prepared envelope,
  -- if the commit has one, and the append succeeded; with `sync`, when the durable frontier of the
  -- Value Log stood below its new head, it has called `sync_through` on the writer behind the append,
  -- up to that head and its end, which succeeded and was handed to `frontier_succeeded`; and
  -- `commit_atomic` has applied the batch: without `sync` the prepared one, in `Buffer` mode, with
  -- `sync` that batch and the encoded row of the new durable frontier behind it, in `SyncAll` mode.
  pub commit_active-Moved :
      (random : RandomFill) (w : ValidatedWrite) (sync : Bool)
      → let out = commit_active log backend reserves crc c ticket random w sync in
        Moved c.state sync out.0.state out.1
        × OnSuccess
            ((p : PreparedCommit) × (prepare_commit reserves crc
                  (backend.get_user c.index)
                  random
                  w
                  c.state.head_seq
                  (context_of log backend c (transaction_kind w))
                ≡ ok p)
              × Committed log backend crc c sync p out.0.state out.0.writer out.0.index)
            out.1
  unfolding commit_active
  commit_active-Moved random w sync = (
    (preparation_answered-Moved w.public_operation sync _ (numbered random w)).0,
    preparation_answered-Committed log backend reserves crc c ticket w.public_operation sync _
        (λ p h. (numbered random w p h).1),
  )

  -- Such a commit keeps the order of the sequence numbers: the durable ones do not pass the head's, the
  -- Value Log's not the commit's, and the ends fit them.
  pub commit_active-IsConsistent :
      (random : RandomFill) (w : ValidatedWrite) (sync : Bool)
      → IsConsistent c.state
      → IsConsistent (commit_active log backend reserves crc c ticket random w sync).0.state
  unfolding commit_active
  commit_active-IsConsistent random w sync =
      (preparation_answered-Moved w.public_operation sync _ (numbered random w)).1
