-- ===== src/Runtime/Gate/Requests.antt =====
-- The store of phases, point by point, and membership in the queue.
use expirkv.Prelude.{
  ℕ, false, Option, some, not, ◌&&◌, ◌||◌, ◌==◌, ◌≡◌, refl, if◌then◌else◌, List, [], ◌∷◌, ◌++◌, inl,
  inr, Bool-cases, arith,
}
use expirkv.Error.{InstanceState}
use expirkv.Runtime.Gate.{
  WriteRequest, RequestPhase, queued, started, completed, cancelled, mark_started, mark_completed,
  cancel_for_state, cancel_all, in_queue, remove_id,
}

abbrev pub start_one : Option RequestPhase → Option RequestPhase
start_one (some queued) = some started
start_one p = p

abbrev pub complete_one : Option RequestPhase → Option RequestPhase
complete_one (some started) = some completed
complete_one p = p

abbrev pub cancel_one : InstanceState → Option RequestPhase → Option RequestPhase
cancel_one s (some queued) = some (cancelled s)
cancel_one s p = p

module _ (phases : ℕ → Option RequestPhase) (id j : ℕ) where
  pub mark_started-at :
      mark_started phases id j ≡ (if j == id then start_one (phases j) else phases j)
  unfolding mark_started
  mark_started-at = ground arith

  pub mark_completed-at :
      mark_completed phases id j ≡ (if j == id then complete_one (phases j) else phases j)
  unfolding mark_completed
  mark_completed-at = ground arith

  pub cancel_for_state-at :
      (s : InstanceState)
      → cancel_for_state s phases id j ≡ (if j == id then cancel_one s (phases j) else phases j)
  unfolding cancel_for_state
  cancel_for_state-at s = ground arith

pub cancel_all-at :
    (s : InstanceState) (phases : ℕ → Option RequestPhase) (rs : List WriteRequest) (j : ℕ)
    → cancel_all s phases rs j ≡ (if in_queue j rs then cancel_one s (phases j) else phases j)
unfolding cancel_all in_queue
cancel_all-at s phases [] j = refl
cancel_all-at s phases (r ∷ rs) j = ground (
  arith,
  cancel_all-at s (cancel_for_state s phases r.id) rs j,
  cancel_for_state-at phases r.id j s,
)

pub in_queue-append :
    (j : ℕ) (rs : List WriteRequest) (r : WriteRequest)
    → in_queue j (rs ++ (r ∷ [])) ≡ (in_queue j rs || r.id == j)
unfolding in_queue
in_queue-append j [] r = ground arith
in_queue-append j (q ∷ rs) r = ground (arith, in_queue-append j rs r)

-- No id stands twice.
abbrev pub IsDistinct : List WriteRequest → Type 0
IsDistinct [] = Unit
IsDistinct (r ∷ rs) = (in_queue r.id rs ≡ false) × IsDistinct rs

pub IsDistinct-append :
    (rs : List WriteRequest) (r : WriteRequest)
    → IsDistinct rs
    → in_queue r.id rs ≡ false
    → IsDistinct (rs ++ (r ∷ []))
unfolding in_queue
IsDistinct-append [] r d new = (refl, tt)
IsDistinct-append (q ∷ rs) r d new =
    (ground (arith, in_queue-append q.id rs r), IsDistinct-append rs r d.1 (ground arith))

pub in_queue-remove_id :
    (id j : ℕ) (rs : List WriteRequest)
    → IsDistinct rs
    → in_queue j (remove_id id rs) ≡ (in_queue j rs && not (j == id))
unfolding in_queue remove_id
in_queue-remove_id id j [] d = refl
in_queue-remove_id id j (r ∷ rs) d = ground (arith, in_queue-remove_id id j rs d.1, d.0)

pub IsDistinct-remove_id :
    (id : ℕ) (rs : List WriteRequest) → IsDistinct rs → IsDistinct (remove_id id rs)
unfolding remove_id
IsDistinct-remove_id id [] d = tt
IsDistinct-remove_id id (r ∷ rs) d = elim (Bool-cases (r.id == id)) [
  | inl found ↦ rw found d.1
  | inr other ↦
      rw other
        (ground (arith, in_queue-remove_id id r.id rs d.1, d.0), IsDistinct-remove_id id rs d.1)
]
