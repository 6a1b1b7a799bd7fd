-- ===== src/Commit/Coordinator/Reached.antt =====
-- The commit state over the life of a coordinator: `new`, then commits and barriers of any threads.
use expirkv.Prelude.{
  ℕ, ◌≡◌, ◌≤◌, refl, sym, ◌∙◌, ap, Bool, true, false, not, ◌&&◌, ◌||◌, Option, none, some, leb,
  ◌==◌, arith,
}
use mathlib.Core.Path.{subst}
use expirkv.Error.{StorageError, ok, bind-eq-ok, map_err, reject_if}
use expirkv.Crc.{Crc}
use expirkv.Runtime.Gate.{Control, WriteRequest}
use expirkv.Vlog.Geometry.{VLogPosition}
use expirkv.Commit.Frontier
use expirkv.Commit.Frontier.{DurableFrontier}
use expirkv.Commit.Preflight.{ValidatedWrite}
use expirkv.Commit.Prepare.{RandomFill}
use expirkv.Commit.Coordinator.{
  ValueLog, Backend, Coordinator, descriptor_end_to_format, initial_state_error,
}
use expirkv.Commit.Coordinator.Request.{
  validate_initial_state, publish_stats, same_end, valid_vlog_frontier,
}
use expirkv.Commit.Coordinator.Outcome.{publish_stats-state}
use expirkv.Commit.Coordinator.Invariant.{EndFits, IsConsistent}
use expirkv.Commit.Coordinator.Moves.{commit_active-IsConsistent}
use expirkv.Commit.Coordinator.Flushed.{commit_empty_barrier-Durable}
use expirkv.Commit.Coordinator.Entry
use expirkv.Commit.Coordinator.Commit.{commit_active}
use expirkv.Commit.Coordinator.Barrier.{commit_empty_barrier}

accepted_parts :
    (nil first second : Bool)
    → (nil || not first || not second) ≡ false
    → (first ≡ true) × (second ≡ true)
accepted_parts nil first second h = ground arith

frontier_parts :
    (first second third fourth : Bool)
    → (first && second && third && fourth) ≡ true
    → (first ≡ true) × (second ≡ true) × (third ≡ true) × (fourth ≡ true)
frontier_parts first second third fourth h = ground arith

not_rejected : (b : Bool) (e : StorageError) → reject_if b e ≡ ok tt → b ≡ false
not_rejected b e h = ground arith

eq_of-same_end : (p q : Option VLogPosition) → same_end p q ≡ true → p ≡ q
unfolding same_end
eq_of-same_end none none h = refl
eq_of-same_end none (some q) h = absurd (cc)
eq_of-same_end (some p) none h = absurd (cc)
eq_of-same_end (some p) (some q) h =
    let file : p.file_id ≡ q.file_id = ground arith in
    let place : p.offset ≡ q.offset = ground arith in cc

valid_vlog_frontier-EndFits :
    (seq : ℕ) (end : Option VLogPosition) (p : VLogPosition)
    → valid_vlog_frontier seq end p ≡ true
    → EndFits seq end
unfolding valid_vlog_frontier
valid_vlog_frontier-EndFits seq none p h = ground arith
valid_vlog_frontier-EndFits seq (some end) p h = ground arith

module _ {W S : Type 0} (log : ValueLog W S) where
  validate_initial_state-IsConsistent :
      (head : ℕ) (frontier : DurableFrontier) (vlog_seq : ℕ) (vlog_end : Option VLogPosition)
      (writer : W) (done : Unit {0})
      → validate_initial_state log head frontier vlog_seq vlog_end writer ≡ ok done
      → IsConsistent (record {
        head_seq = head;
        durable_frontier = frontier;
        head_vlog_seq = vlog_seq;
        head_vlog_end = vlog_end;
      })
  unfolding validate_initial_state
  validate_initial_state-IsConsistent head frontier vlog_seq vlog_end writer done h =
      let (_, _, accepted) =
        bind-eq-ok
          (map_err (λ _. initial_state_error) (Frontier.validate_against_head frontier head)) _ h in
      let durable_end = descriptor_end_to_format frontier.durable_vlog_end in
      let (ordered, valid) = accepted_parts _ _ _ (not_rejected _ _ accepted) in
      let (at_head, at_vlog, below, ends) =
        frontier_parts (frontier.durable_seq == head) (frontier.durable_vlog_seq == vlog_seq)
          (leb vlog_seq head) (same_end durable_end vlog_end) ordered in
      let seq_same : frontier.durable_seq ≡ head = ground arith in
      let vlog_same : frontier.durable_vlog_seq ≡ vlog_seq = ground arith in
      let bound : vlog_seq ≤ head = ground arith in
      record {
        vlog_order = bound;
        durable_order = omega arith;
        durable_vlog_order = omega arith;
        frontier_order = omega arith;
        end_fits = valid_vlog_frontier-EndFits vlog_seq vlog_end (log.position writer) valid;
        durable_end = λ _. eq_of-same_end durable_end vlog_end ends;
      }

module _ {W S I : Type 0} (log : ValueLog W S) (backend : Backend I) (reserves : ℕ → Bool)
    (crc : Crc) where
  -- The coordinators that `new` and then any sequence of active requests reach. Between them, the gate,
  -- the writer and the index may change in every way; only requests touch the commit state.
  pub data Reached : Coordinator W I → Type 0 where
    starts :
        {c : Coordinator W I} (runtime : Control) (index : I) (writer : W) (head : ℕ)
        (frontier : DurableFrontier) (vlog_seq : ℕ) (vlog_end : Option VLogPosition)
        → Entry.new log runtime index writer head frontier vlog_seq vlog_end ≡ ok c
        → Reached c
    commits :
        {c : Coordinator W I} (ticket : WriteRequest) (random : RandomFill) (w : ValidatedWrite)
        (sync : Bool)
        → Reached c
        → Reached (commit_active log backend reserves crc c ticket random w sync).0
    flushes :
        {c : Coordinator W I} (ticket : WriteRequest)
        → Reached c
        → Reached (commit_empty_barrier log backend reserves crc c ticket).0
    changes :
        {c : Coordinator W I} (runtime : Control) (writer : W) (index : I)
        → Reached c
        → Reached (record c { runtime = runtime; writer = writer; index = index })

  new-IsConsistent :
      (c : Coordinator W I) (runtime : Control) (index : I) (writer : W) (head : ℕ)
      (frontier : DurableFrontier) (vlog_seq : ℕ) (vlog_end : Option VLogPosition)
      → Entry.new log runtime index writer head frontier vlog_seq vlog_end ≡ ok c
      → IsConsistent c.state
  unfolding Entry.new
  new-IsConsistent c runtime index writer head frontier vlog_seq vlog_end h =
      let (done, valid, made) =
        bind-eq-ok (validate_initial_state log head frontier vlog_seq vlog_end writer) _ h in
      let fresh : Coordinator W I = record {
        runtime = runtime;
        state = record {
          head_seq = head;
          durable_frontier = frontier;
          head_vlog_seq = vlog_seq;
          head_vlog_end = vlog_end;
        };
        writer = writer;
        index = index;
      } in
      let same : publish_stats log fresh ≡ c = cc in
      subst IsConsistent
        (sym (publish_stats-state log fresh) ∙ ap (λ (d : Coordinator W I). d.state) same)
        (validate_initial_state-IsConsistent log head frontier vlog_seq vlog_end writer done valid)

  -- In every coordinator that `new` and requests reach, whatever the allocator, the writer, the index
  -- and the source of identifiers answer, the durable frontier does not pass the head, the Value Log
  -- does not pass the commits, and the ends fit them.
  pub Reached-IsConsistent : {c : Coordinator W I} → Reached c → IsConsistent c.state
  Reached-IsConsistent (starts {c = c} runtime index writer head frontier vlog_seq vlog_end h) =
      new-IsConsistent c runtime index writer head frontier vlog_seq vlog_end h
  Reached-IsConsistent (commits {c = c} ticket random w sync r) =
      commit_active-IsConsistent log backend reserves crc c ticket random w sync
        (Reached-IsConsistent r)
  Reached-IsConsistent (flushes {c = c} ticket r) =
      (commit_empty_barrier-Durable log backend reserves crc c ticket (Reached-IsConsistent r)).1
  Reached-IsConsistent (changes runtime writer index r) = Reached-IsConsistent r
