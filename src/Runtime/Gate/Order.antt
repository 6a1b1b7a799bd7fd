-- ===== src/Runtime/Gate/Order.antt =====
-- `finish_write` serves the queue in order, the oldest request first.
use expirkv.Prelude.{Bool, true, none, some, ◌≡◌, refl, List, [], ◌∷◌, arith}
use expirkv.Runtime.Gate.{
  WriteRequest, Control, state, is_healthy, finish_write, hand_over, is_active, mark_completed,
  mark_started,
}

-- The given requests finish one after the other; each result says whether the request was the active
-- one when its turn came.
unfoldable pub finish_each : Control → List WriteRequest → Control × List Bool
finish_each c [] = (c, [])
finish_each c (r ∷ rs) =
    let first = finish_write c r in
    let later = finish_each first.0 rs in (later.0, first.1 ∷ later.1)

abbrev pub AllTrue : List Bool → Type 0
AllTrue [] = Unit
AllTrue (b ∷ bs) = (b ≡ true) × AllTrue bs

module _ (c : Control) (r : WriteRequest) (active : c.active_request ≡ some r.id)
    (up : is_healthy (state c).instance_state ≡ true) (open_gate : c.accepting_writes ≡ true) where
  -- While writes are admitted, finishing the active request completes it and starts the request at
  -- the head of the queue, which leaves the queue.
  pub finish_write-next :
      (next : WriteRequest) (rest : List WriteRequest)
      → c.ordered_queue ≡ next ∷ rest
      → finish_write c r ≡ (
        record c {
          active_request = some next.id;
          ordered_queue = rest;
          phases = mark_started (mark_completed c.phases r.id) next.id;
        },
        true,
      )
  unfolding finish_write is_active hand_over
  finish_write-next next rest e = rw (active, up, open_gate, e) (ground arith)

  finish_write-last :
      c.ordered_queue ≡ []
      → finish_write c r
        ≡ (record c { active_request = none; phases = mark_completed c.phases r.id }, true)
  unfolding finish_write is_active hand_over
  finish_write-last e = rw (active, up, open_gate, e) (ground arith)

-- While the instance is healthy and admits writes, the queue is served first in, first out: the
-- active request and then the queued ones in their order each finish as the active request, and
-- nothing is left active or queued.
pub finish_each-in_order :
    (c : Control) (r : WriteRequest) (queue : List WriteRequest)
    → c.active_request ≡ some r.id
    → is_healthy (state c).instance_state ≡ true
    → c.accepting_writes ≡ true
    → c.ordered_queue ≡ queue
    → let end = finish_each c (r ∷ queue) in
      AllTrue end.1 × (end.0.active_request ≡ none) × (end.0.ordered_queue ≡ [])
unfolding finish_each state
finish_each-in_order c r [] active up open_gate e =
    rw (finish_write-last c r active up open_gate e) ((refl, tt), refl, e)
finish_each-in_order c r (next ∷ rest) active up open_gate e =
    let later =
      finish_each-in_order
        (record c {
          active_request = some next.id;
          ordered_queue = rest;
          phases = mark_started (mark_completed c.phases r.id) next.id;
        })
        next rest refl up open_gate refl in
    rw (finish_write-next c r active up open_gate next rest e) ((refl, later.0), later.1, later.2)
