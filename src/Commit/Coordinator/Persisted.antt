-- ===== src/Commit/Coordinator/Persisted.antt =====
-- What a commit that returns success has called: the append of its envelope, the sync of the Value
-- Log, and the commit of its batch in the index.
pub mod Commits
pub mod Barriers
use expirkv.Prelude.{
  ℕ, ◌≡◌, refl, sym, ◌∙◌, Bool, true, false, ◌&&◌, Option, none, some, if◌then◌else◌, List, [], ◌∷◌,
  ◌++◌, Bytes, Bool-cases, inl, inr, arith,
}
use expirkv.Error.{Operation, Result, ok, err}
use expirkv.Crc.{Crc}
use expirkv.Runtime.Gate.{WriteRequest}
use expirkv.Vlog.Geometry.{VLogPosition}
use expirkv.Vlog.Envelope.{PreparedEnvelope}
use expirkv.Commit.Frontier
use expirkv.Commit.Frontier.{DurableFrontier}
use expirkv.Commit.Coordinator.{ValueLog, Backend, Coordinator}
use expirkv.Commit.Coordinator.Request.{
  publish_stats, latch_unfinished, finish_frontier_after_success, finish_synced, finish,
  fail_started, publish_nonempty_success,
}
use expirkv.Commit.Coordinator.Commit.{
  Target, mode_of, needs_vlog_sync, index_answered, commit_index, sync_answered, commit_sync,
  append_answered, commit_append, batch_answered,
}
use expirkv.Index.{
  put_internal, system, durable_frontier_key, IndexAtomicBatch, IndexCommitMode, buffer, sync_all,
  IndexCommitResult, applied, commit_failed,
}

-- The writer behind the append of an envelope, if there is one.
abbrev pub Appended : {W S : Type 0} → ValueLog W S → W → Option PreparedEnvelope → W → Type 0
Appended log w none now = now ≡ w
Appended log w (some e) now = log.append w e ≡ (now, ok tt)

-- The writer behind a sync up to this end that answered and whose frontier was then finished, when a
-- sync is needed.
abbrev pub Synced : {W S : Type 0} → ValueLog W S → Bool → W → ℕ → Option VLogPosition → W → Type 0
Synced log false w seq end now = now ≡ w
Synced {S = S} log true w seq end now =
    (synced : S) × ((log.sync_through w seq end).1 ≡ ok synced)
    × (now ≡ (log.frontier_succeeded (log.sync_through w seq end).0 synced).0)

-- The index has applied a batch: synced to storage, or in its buffer.
abbrev pub Applied : {I : Type 0} → Backend I → I → IndexAtomicBatch → Bool → I → Type 0
Applied backend i batch true now = backend.commit_atomic i batch sync_all ≡ (now, applied)
Applied backend i batch false now = backend.commit_atomic i batch buffer ≡ (now, applied)

-- A claim about the outcomes that return success.
abbrev pub OnSuccess : Type 0 → Result (Unit {0}) → Type 0
OnSuccess A (ok done) = A
OnSuccess A (err e) = Unit {0}

pub OnSuccess-map : {A B : Type 0} (r : Result (Unit {0})) → (A → B) → OnSuccess A r → OnSuccess B r
OnSuccess-map (ok done) f h = f h
OnSuccess-map (err e) f h = tt

-- A property of both branches, each with its test.
pub chosen :
    {X : Type 0} (P : Bool → X → Type 0) {x y : X}
    → P true x
    → P false y
    → (b : Bool) → P b (if b then x else y)
chosen P h k true = h
chosen P h k false = k

pub pair_eq : {A B : Type 0} (x : A × B) (a : A) (b : B) → a ≡ x.0 → x.1 ≡ b → x ≡ (a, b)
pair_eq x a b e e' = λ i. (sym e i, e' i)

Applied-of_mode :
    {I : Type 0} (backend : Backend I) (i : I) (batch : IndexAtomicBatch) (sync : Bool) (now : I)
    → let answer = backend.commit_atomic i batch (mode_of sync) in
      now ≡ answer.0 → answer.1 ≡ applied → Applied backend i batch sync now
unfolding mode_of
Applied-of_mode backend i batch true now e done = pair_eq _ now applied e done
Applied-of_mode backend i batch false now e done = pair_eq _ now applied e done

-- The writer once the frontier of a sync, if there was one, is finished.
abbrev pub finished : {W S : Type 0} → ValueLog W S → W → Option S → W
finished log w none = w
finished log w (some synced) = (log.frontier_succeeded w synced).0

module _ {W I : Type 0} where
  latch_unfinished-rest :
      (c : Coordinator W I) (op : Operation) (r : Result (Unit {0}))
      → let now = latch_unfinished c op r in (now.index ≡ c.index) × (now.writer ≡ c.writer)
  unfolding latch_unfinished
  latch_unfinished-rest c op (ok _) = (refl, refl)
  latch_unfinished-rest c op (err e) = (refl, refl)

module _ {W S I : Type 0} (log : ValueLog W S) where
  pub publish_stats-rest :
      (c : Coordinator W I)
      → ((publish_stats log c).index ≡ c.index) × ((publish_stats log c).writer ≡ c.writer)
  unfolding publish_stats
  publish_stats-rest c = ground arith

  pub finish_synced-rest :
      (c : Coordinator W I) (synced : Option S) (op : Operation)
      → let now = finish_synced log c synced op in
        (now.index ≡ c.index) × (now.writer ≡ finished log c.writer synced)
  unfolding finish_synced finish_frontier_after_success
  finish_synced-rest c none op = (refl, refl)
  finish_synced-rest c (some synced) op = latch_unfinished-rest _ op _

  module _ (backend : Backend I) (ticket : WriteRequest) (t : Target) where
    index_answered-Persisted :
        (c : Coordinator W I) (synced : Option S) (r : IndexCommitResult)
        → let out = index_answered log backend c ticket t synced r in
          OnSuccess
            ((out.0.index ≡ c.index)
              × (out.0.writer ≡ finished log c.writer synced)
              × (r ≡ applied))
            out.1
    unfolding index_answered finish publish_nonempty_success fail_started
    index_answered-Persisted c synced applied =
        let (index_same, writer_same) = finish_synced-rest c synced t.operation in
        let published = publish_stats-rest _ in
        (published.0 ∙ index_same, published.1 ∙ writer_same, refl)
    index_answered-Persisted c synced (commit_failed e) = tt

    commit_index-Persisted :
        (c : Coordinator W I) (batch : IndexAtomicBatch) (synced : Option S)
        → let out = commit_index log backend c ticket t batch synced in
          OnSuccess
            (Applied backend c.index batch t.sync out.0.index
              × (out.0.writer ≡ finished log c.writer synced))
            out.1
    unfolding commit_index
    commit_index-Persisted c batch synced =
        let answer = backend.commit_atomic c.index batch (mode_of t.sync) in
        let out =
          index_answered log backend (record c { index = answer.0 }) ticket t synced answer.1 in
        OnSuccess-map out.1
          (λ h. (Applied-of_mode backend c.index batch t.sync out.0.index h.0 h.2, h.1))
          (index_answered-Persisted (record c { index = answer.0 }) synced answer.1)

    sync_answered-Persisted :
        (c : Coordinator W I) (batch : IndexAtomicBatch) (r : Result S)
        → let out = sync_answered log backend c ticket t batch r in
          OnSuccess
            (Applied backend c.index batch t.sync out.0.index
              × ((synced : S) × (r ≡ ok synced)
                  × (out.0.writer ≡ (log.frontier_succeeded c.writer synced).0)))
            out.1
    unfolding sync_answered fail_started
    sync_answered-Persisted c batch (ok synced) =
        OnSuccess-map (commit_index log backend c ticket t batch (some synced)).1
          (λ h. (h.0, (synced, refl, h.1))) (commit_index-Persisted c batch (some synced))
    sync_answered-Persisted c batch (err e) = tt

    commit_sync-Persisted :
        (c : Coordinator W I) (batch : IndexAtomicBatch)
        → let out = commit_sync log backend c ticket t batch in
          OnSuccess
            (Applied backend c.index batch t.sync out.0.index
              × Synced log (needs_vlog_sync c.state t) c.writer t.vlog_seq t.vlog_end out.0.writer)
            out.1
    unfolding commit_sync
    commit_sync-Persisted c batch =
        let answer = log.sync_through c.writer t.vlog_seq t.vlog_end in
        chosen
          (λ needed (out : Coordinator W I × Result (Unit {0})).
            OnSuccess
              (Applied backend c.index batch t.sync out.0.index
                × Synced log needed c.writer t.vlog_seq t.vlog_end out.0.writer)
              out.1)
          (sync_answered-Persisted (record c { writer = answer.0 }) batch answer.1)
          (commit_index-Persisted c batch none) (needs_vlog_sync c.state t)

    -- The append, the sync and the index's commit, one behind the other.
    abbrev pub Stored :
        Coordinator W I → Option PreparedEnvelope → IndexAtomicBatch → Coordinator W I → Type 0
    Stored c envelope batch now =
        (w : W) × Appended log c.writer envelope w
        × Synced log (needs_vlog_sync c.state t) w t.vlog_seq t.vlog_end now.writer
        × Applied backend c.index batch t.sync now.index

    append_answered-Persisted :
        (c : Coordinator W I) (batch : IndexAtomicBatch) (r : Result (Unit {0}))
        → let out = append_answered log backend c ticket t batch r in
          OnSuccess
            ((r ≡ ok tt)
              × Applied backend c.index batch t.sync out.0.index
              × Synced log (needs_vlog_sync c.state t) c.writer t.vlog_seq t.vlog_end out.0.writer)
            out.1
    unfolding append_answered fail_started
    append_answered-Persisted c batch (ok done) =
        OnSuccess-map (commit_sync log backend c ticket t batch).1 (λ h. (refl, h.0, h.1))
          (commit_sync-Persisted c batch)
    append_answered-Persisted c batch (err e) = tt

    commit_append-Persisted :
        (c : Coordinator W I) (batch : IndexAtomicBatch) (envelope : Option PreparedEnvelope)
        → let out = commit_append log backend c ticket t batch envelope in
          OnSuccess (Stored c envelope batch out.0) out.1
    unfolding commit_append
    commit_append-Persisted c batch none =
        OnSuccess-map (commit_sync log backend c ticket t batch).1 (λ h. (c.writer, refl, h.1, h.0))
          (commit_sync-Persisted c batch)
    commit_append-Persisted c batch (some envelope) =
        let answer = log.append c.writer envelope in
        let out =
          append_answered log backend (record c { writer = answer.0 }) ticket t batch answer.1 in
        OnSuccess-map out.1 (λ h. (answer.0, pair_eq answer answer.0 (ok tt) refl h.0, h.2, h.1))
          (append_answered-Persisted (record c { writer = answer.0 }) batch answer.1)

    pub batch_answered-Persisted :
        (c : Coordinator W I) (envelope : Option PreparedEnvelope) (r : Result IndexAtomicBatch)
        → let out = batch_answered log backend c ticket t envelope r in
          OnSuccess
            ((batch : IndexAtomicBatch) × (r ≡ ok batch) × Stored c envelope batch out.0)
            out.1
    unfolding batch_answered fail_started
    batch_answered-Persisted c envelope (err e) = tt
    batch_answered-Persisted c envelope (ok batch) =
        OnSuccess-map (commit_append log backend c ticket t batch envelope).1
          (λ h. (batch, refl, h)) (commit_append-Persisted c batch envelope)
