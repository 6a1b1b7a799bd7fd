-- ===== src/Commit/Plan/Sequential.antt =====
-- A commit's one batch leaves the user index as its operations would, made one after the other.
use expirkv.Prelude.{
  ℕ, zero, suc, ◌≡◌, inl, inr, refl, sym, ◌∙◌, ap, Bool, Option, List, [], ◌∷◌, map, length, Bytes,
  arith,
}
use expirkv.Error.{Operation, ok, bind-eq-ok, Result-cases}
use expirkv.Vlog.Pointer.{ValuePointer}
use expirkv.Commit.TxMeta.{TransactionKind}
use expirkv.Commit.Mutation.{ValueState}
use expirkv.Commit.Preflight.{NormalizedWrite, ValidatedWrite, try_reserve, validate_normalized}
use expirkv.Commit.Preflight.Ordinals.{
  distinct_keys-IsUnique, distinct_keys-Names, validate_normalized-first_occurrences,
}
use expirkv.Commit.Plan.{KeyPlan, start_plans, plan_operations, build_key_plans}
use expirkv.Commit.Plan.Replay.{replay, plan_keys, Shows, ShowsBefore, plan_operations-replay}

-- The plans start with each key's state.
record IsStarted (keys : List Bytes) (before : Bytes → ValueState) (plans : List KeyPlan)
    : Type 0 where
  keys_same : plan_keys plans ≡ keys
  shows : Shows plans before
  shows_before : ShowsBefore plans before

started-Shows :
    (first : KeyPlan) (rest : List KeyPlan) (before : Bytes → ValueState)
    → first.after_state ≡ before first.user_key
    → Shows rest before
    → Shows (first ∷ rest) before
started-Shows first rest before here shows zero plan at =
    let e : first ≡ plan = ground arith in rw (sym e) here
started-Shows first rest before here shows (suc i) plan at = shows i plan at

started_before :
    (first : KeyPlan) (rest : List KeyPlan) (before : Bytes → ValueState)
    → first.before_state ≡ before first.user_key
    → ShowsBefore rest before
    → ShowsBefore (first ∷ rest) before
started_before first rest before here shows zero plan at =
    let e : first ≡ plan = ground arith in rw (sym e) here
started_before first rest before here shows (suc i) plan at = shows i plan at

start_plans-IsStarted :
    (reserves : ℕ → Bool) (op : Operation) (before : Bytes → ValueState) (keys : List Bytes)
    (plans : List KeyPlan)
    → start_plans reserves op keys (map before keys) ≡ ok plans
    → IsStarted keys before plans
unfolding start_plans plan_keys
start_plans-IsStarted reserves op before [] plans h =
    let e : [] ≡ plans = ground arith in
    rw (sym e) (record {
      keys_same = refl;
      shows = λ i plan at. absurd (cc);
      shows_before = λ i plan at. absurd (cc);
    })
start_plans-IsStarted reserves op before (key ∷ keys) plans h =
    let (_, granted, h₁) = bind-eq-ok (try_reserve reserves (length key) op) _ h in
    let (rest, deeper, h₂) = bind-eq-ok (start_plans reserves op keys (map before keys)) _ h₁ in
    let started = start_plans-IsStarted reserves op before keys rest deeper in
    let first : KeyPlan = record {
      user_key = key;
      before_state = before key;
      after_state = before key;
    } in
    let e : first ∷ rest ≡ plans = cc in
    rw (sym e) (record {
      keys_same = ap (λ t. key ∷ t) started.keys_same;
      shows = started-Shows first rest before refl started.shows;
      shows_before = started_before first rest before refl started.shows_before;
    })

module _ (reserves : ℕ → Bool) (n : NormalizedWrite) (op : Operation) (most : ℕ)
    (w : ValidatedWrite) (accepted : validate_normalized reserves n op most ≡ ok w)
    (before : Bytes → ValueState) (kind : TransactionKind)
    (pointers : Option (List (Option ValuePointer))) where
  planned_loops :
      (plans : List KeyPlan)
      → build_key_plans reserves w (map before w.distinct_keys) kind pointers ≡ ok plans
      → (start : List KeyPlan) × (start_plans reserves w.public_operation w.distinct_keys
            (map before w.distinct_keys)
          ≡ ok start)
        × (plan_operations w.public_operation kind pointers 0 start w.normalized.operations
              w.operation_ordinals
            ≡ ok plans)
  unfolding build_key_plans
  planned_loops plans h =
      elim (Result-cases
        (start_plans reserves w.public_operation w.distinct_keys (map before w.distinct_keys))) [
          | inl (start, e) ↦ (start, e, ground arith)
          | inr (failure, e) ↦ absurd (ground arith)
        ]

  -- When a validated write is planned on the states that its keys have, each distinct key gets one
  -- plan, whose state before is the key's and whose state after is the one that the operations leave
  -- when they are made one after the other, each `put` with the pointer that the envelope gave it.
  pub build_key_plans-replay :
      (plans : List KeyPlan)
      → build_key_plans reserves w (map before w.distinct_keys) kind pointers ≡ ok plans
      → (plan_keys plans ≡ w.distinct_keys)
        × Shows plans (replay pointers 0 n.operations before)
        × ShowsBefore plans before
  build_key_plans-replay plans h =
      let (start, starts, runs) = planned_loops plans h in
      let started =
        start_plans-IsStarted reserves w.public_operation before w.distinct_keys start starts in
      let same = (validate_normalized-first_occurrences reserves n op most w accepted).0 in
      let planned =
        plan_operations-replay w.public_operation kind pointers 0 start n.operations
          w.operation_ordinals plans before before
          (rw started.keys_same (distinct_keys-IsUnique reserves n op most w accepted))
          (rw started.keys_same (distinct_keys-Names reserves n op most w accepted)) started.shows
          started.shows_before (rw same at runs) in
      (planned.keys_same ∙ started.keys_same, planned.shows, planned.shows_before)
