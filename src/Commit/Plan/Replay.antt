-- ===== src/Commit/Plan/Replay.antt =====
-- The planned state of each key is the one that the operations, made one after the other, leave.
use expirkv.Prelude.{
  ℕ, zero, suc, ◌+◌, ◌≡◌, ◌≢◌, inl, inr, refl, sym, ◌∙◌, ap, false, not, Option, none, some, List,
  [], ◌∷◌, length, ltb, get_elem?, Option-cases, Bool-cases, if◌then◌else◌, Bytes, bytes_eq,
  bytes_eq_refl, eq_of-bytes_eq, arith,
}
use expirkv.Error.{Operation, ok, reject_if, bind-eq-ok}
use expirkv.Vlog.Pointer.{ValuePointer}
use expirkv.Commit.TxMeta.{TransactionKind, vlog_envelope, index_only_delete}
use expirkv.Commit.Mutation.{ValueState, absent, present}
use expirkv.Commit.Preflight.{
  NormalizedOperation, put, delete, operation_key, invalid_argument_error,
}
use expirkv.Commit.Preflight.Ordinals.{IsUnique, Names, keys_of}
use expirkv.Commit.Plan.{
  KeyPlan, set_after, pointer_at, state_from_pointer, after_state_of, plan_operations,
}

-- A map from keys to states, with one key set.
unfoldable pub update : (Bytes → ValueState) → Bytes → ValueState → Bytes → ValueState
update f key state x = if bytes_eq key x then state else f x

-- The state that an operation gives its key, with the pointer to its value, and the operations one
-- after the other.
unfoldable pub assigned : NormalizedOperation → Option (Option ValuePointer) → ValueState
assigned (put key value) (some (some pointer)) = present pointer
assigned (put key value) (some none) = absent
assigned (put key value) none = absent
assigned (delete key) pointer = absent

unfoldable pub replay :
    Option (List (Option ValuePointer))
    → ℕ
    → List NormalizedOperation
    → (Bytes → ValueState)
    → Bytes
    → ValueState
replay pointers index [] f = f
replay pointers index (o ∷ ops) f =
    replay pointers (index + 1) ops
      (update f (operation_key o) (assigned o (pointer_at pointers index)))

unfoldable pub plan_keys : List KeyPlan → List Bytes
plan_keys [] = []
plan_keys (plan ∷ plans) = plan.user_key ∷ plan_keys plans

abbrev pub Shows : List KeyPlan → (Bytes → ValueState) → Type 0
Shows plans f =
    (i : ℕ) (plan : KeyPlan) → get_elem? plans i ≡ some plan → plan.after_state ≡ f plan.user_key

-- What the states before are, in the plans.
abbrev pub ShowsBefore : List KeyPlan → (Bytes → ValueState) → Type 0
ShowsBefore plans f =
    (i : ℕ) (plan : KeyPlan) → get_elem? plans i ≡ some plan → plan.before_state ≡ f plan.user_key

key_at :
    (plans : List KeyPlan) (i : ℕ) (plan : KeyPlan)
    → get_elem? plans i ≡ some plan
    → get_elem? (plan_keys plans) i ≡ some plan.user_key
unfolding plan_keys
key_at [] i plan h = absurd (cc)
key_at (p ∷ plans) zero plan h = let e : p ≡ plan = ground arith in rw e refl
key_at (p ∷ plans) (suc i) plan h = key_at plans i plan h

-- What `set_after` makes of the plan at each place.
record IsAssigned (plans : List KeyPlan) (o : ℕ) (state : ValueState) (i : ℕ) (plan : KeyPlan)
    : Type 0 where
  old : KeyPlan
  was_there : get_elem? plans i ≡ some old
  key_same : plan.user_key ≡ old.user_key
  before_same : plan.before_state ≡ old.before_state
  here : i ≡ o → plan.after_state ≡ state
  elsewhere : i ≢ o → plan.after_state ≡ old.after_state

set_after_step :
    (p : KeyPlan) (plans : List KeyPlan) (o : ℕ) (state : ValueState) (next : List KeyPlan)
    → set_after (p ∷ plans) (suc o) state ≡ some next
    → (rest : List KeyPlan) × (set_after plans o state ≡ some rest) × (next ≡ p ∷ rest)
unfolding set_after
set_after_step p plans o state next h = elim (Option-cases (set_after plans o state)) [
  | inl e ↦ absurd (ground arith)
  | inr (rest, e) ↦ (rest, e, ground arith)
]

plan_keys-set_after :
    (plans : List KeyPlan) (o : ℕ) (state : ValueState) (next : List KeyPlan)
    → set_after plans o state ≡ some next
    → plan_keys next ≡ plan_keys plans
unfolding plan_keys
plan_keys-set_after [] o state next h = unfold set_after in absurd (cc)
plan_keys-set_after (p ∷ plans) zero state next h =
    let e : record p { after_state = state } ∷ plans ≡ next = unfold set_after in ground arith in
    rw (sym e) refl
plan_keys-set_after (p ∷ plans) (suc o) state next h =
    let (rest, done, e) = set_after_step p plans o state next h in
    rw e (ap (λ t. p.user_key ∷ t) (plan_keys-set_after plans o state rest done))

set_after-IsAssigned :
    (plans : List KeyPlan) (o : ℕ) (state : ValueState) (next : List KeyPlan)
    → set_after plans o state ≡ some next
    → (i : ℕ) (plan : KeyPlan) → get_elem? next i ≡ some plan
    → IsAssigned plans o state i plan
set_after-IsAssigned [] o state next h i plan at = unfold set_after in absurd (cc)
set_after-IsAssigned (p ∷ plans) zero state next h zero plan at =
    let e : record p { after_state = state } ∷ plans ≡ next = unfold set_after in ground arith in
    let found : record p { after_state = state } ≡ plan =
      let here = rw (sym e) at at in ground arith in
    record {
      old = p;
      was_there = refl;
      key_same = rw (sym found) refl;
      before_same = rw (sym found) refl;
      here = λ _. rw (sym found) refl;
      elsewhere = λ other. absurd (other refl);
    }
set_after-IsAssigned (p ∷ plans) zero state next h (suc i) plan at =
    let e : record p { after_state = state } ∷ plans ≡ next = unfold set_after in ground arith in
    record {
      old = plan;
      was_there = rw (sym e) at at;
      key_same = refl;
      before_same = refl;
      here = λ wrong. absurd (omega arith);
      elsewhere = λ _. refl;
    }
set_after-IsAssigned (p ∷ plans) (suc o) state next h zero plan at =
    let (rest, done, e) = set_after_step p plans o state next h in
    record {
      old = plan;
      was_there = rw e at at;
      key_same = refl;
      before_same = refl;
      here = λ wrong. absurd (omega arith);
      elsewhere = λ _. refl;
    }
set_after-IsAssigned (p ∷ plans) (suc o) state next h (suc i) plan at =
    let (rest, done, e) = set_after_step p plans o state next h in
    let deeper = set_after-IsAssigned plans o state rest done i plan (rw e at at) in
    record {
      old = deeper.old;
      was_there = deeper.was_there;
      key_same = deeper.key_same;
      before_same = deeper.before_same;
      here = λ same. deeper.here (omega arith);
      elsewhere = λ other. deeper.elsewhere (λ same. other (ap suc same));
    }

-- Setting the state of one key updates the map that the plans show.
module _ (plans : List KeyPlan) (o : ℕ) (key : Bytes) (state : ValueState) (next : List KeyPlan)
    (unique : IsUnique (plan_keys plans)) (place : get_elem? (plan_keys plans) o ≡ some key)
    (done : set_after plans o state ≡ some next) where
  Shows-set_after : (f : Bytes → ValueState) → Shows plans f → Shows next (update f key state)
  unfolding update
  Shows-set_after f shows i plan at =
      let set = set_after-IsAssigned plans o state next done i plan at in
      let there = key_at plans i set.old set.was_there in
      elim (Bool-cases (bytes_eq key plan.user_key)) [
        | inl same ↦
            let k : key ≡ set.old.user_key = eq_of-bytes_eq key plan.user_key same ∙ set.key_same in
            let here : i ≡ o = unique key i o (rw k there) place in rw (same, set.here here) refl
        | inr other ↦
            let away : i ≢ o = λ here.
              let k : some set.old.user_key ≡ some key =
                sym there ∙ ap (get_elem? (plan_keys plans)) here ∙ place in
              let e : plan.user_key ≡ key = cc in
              let wrong : bytes_eq key key ≡ false = rw e at other in
              let right = bytes_eq_refl key in absurd (cc) in
            rw (other, set.elsewhere away, set.key_same) (shows i set.old set.was_there)
      ]

  ShowsBefore-set_after : (f : Bytes → ValueState) → ShowsBefore plans f → ShowsBefore next f
  ShowsBefore-set_after f shows i plan at =
      let set = set_after-IsAssigned plans o state next done i plan at in
      rw (set.before_same, set.key_same) (shows i set.old set.was_there)

put-assigned :
    (op : Operation) (key value : Bytes) (found : Option ValuePointer) (state : ValueState)
    → state_from_pointer op (put key value) found ≡ ok state
    → state ≡ assigned (put key value) (some found)
unfolding state_from_pointer assigned
put-assigned op key value none state h = absurd (cc)
put-assigned op key value (some pointer) state h = cc

after_state_of-assigned :
    (op : Operation) (kind : TransactionKind) (pointers : Option (List (Option ValuePointer)))
    (index : ℕ) (o : NormalizedOperation) (state : ValueState)
    → after_state_of op kind pointers index o ≡ ok state
    → state ≡ assigned o (pointer_at pointers index)
after_state_of-assigned op vlog_envelope pointers index (put key value) state h =
    elim (Option-cases (pointer_at pointers index)) [
      | inl e ↦ absurd (unfold after_state_of in ground arith)
      | inr (found, e) ↦
          let chosen : state_from_pointer op (put key value) found ≡ ok state =
            unfold after_state_of in ground arith in
          rw e (put-assigned op key value found state chosen)
    ]
after_state_of-assigned op vlog_envelope pointers index (delete key) state h =
    unfold after_state_of state_from_pointer assigned in ground arith
after_state_of-assigned op index_only_delete pointers index (put key value) state h =
    absurd (unfold after_state_of in ground arith)
after_state_of-assigned op index_only_delete pointers index (delete key) state h =
    unfold after_state_of assigned in ground arith

-- What the loop over the operations leaves.
pub record IsPlanned (plans next : List KeyPlan) (f before : Bytes → ValueState) : Type 0 where
  pub keys_same : plan_keys next ≡ plan_keys plans
  pub shows : Shows next f
  pub shows_before : ShowsBefore next before

plan_operations_step :
    (op : Operation) (kind : TransactionKind) (pointers : Option (List (Option ValuePointer)))
    (index : ℕ) (plans : List KeyPlan) (o : NormalizedOperation) (ops : List NormalizedOperation)
    (n : ℕ) (ordinals : List ℕ) (next : List KeyPlan)
    → plan_operations op kind pointers index plans (o ∷ ops) (n ∷ ordinals) ≡ ok next
    → (state : ValueState) × (set : List KeyPlan) × (after_state_of op kind pointers index o
        ≡ ok state)
      × (set_after plans n state ≡ some set)
      × (plan_operations op kind pointers (index + 1) set ops ordinals ≡ ok next)
unfolding plan_operations
plan_operations_step op kind pointers index plans o ops n ordinals next h =
    let (_, _, inside) =
      bind-eq-ok (reject_if (not (ltb n (length plans))) (invalid_argument_error op)) _ h in
    let (state, assigns, later) = bind-eq-ok (after_state_of op kind pointers index o) _ inside in
    elim (Option-cases (set_after plans n state)) [
      | inl e ↦ let failed = rw e at later in absurd (cc)
      | inr (set, e) ↦ (state, set, assigns, e, rw e at later)
    ]

pub plan_operations-replay :
    (op : Operation) (kind : TransactionKind) (pointers : Option (List (Option ValuePointer)))
    (index : ℕ) (plans : List KeyPlan) (ops : List NormalizedOperation) (ordinals : List ℕ)
    (next : List KeyPlan) (f before : Bytes → ValueState)
    → IsUnique (plan_keys plans)
    → Names (plan_keys plans) ordinals (keys_of ops)
    → Shows plans f
    → ShowsBefore plans before
    → plan_operations op kind pointers index plans ops ordinals ≡ ok next
    → IsPlanned plans next (replay pointers index ops f) before
unfolding plan_operations replay keys_of
plan_operations-replay op kind pointers index plans [] ordinals next f before unique names shows
      shows_before h =
    let e : plans ≡ next = ground arith in
    rw (sym e) (record { keys_same = refl; shows = shows; shows_before = shows_before })
plan_operations-replay op kind pointers index plans (o ∷ ops) [] next f before unique names shows
      shows_before h =
    absurd names
plan_operations-replay op kind pointers index plans (o ∷ ops) (n ∷ ordinals) next f before unique
      (place, names) shows shows_before h =
    let (state, set, assigns, done, rest) =
      plan_operations_step op kind pointers index plans o ops n ordinals next h in
    let e = after_state_of-assigned op kind pointers index o state assigns in
    let same = plan_keys-set_after plans n state set done in
    let planned =
      plan_operations-replay op kind pointers (index + 1) set ops ordinals next
        (update f (operation_key o) state) before (rw same unique) (rw same names)
        (Shows-set_after plans n (operation_key o) state set unique place done f shows)
        (ShowsBefore-set_after plans n (operation_key o) state set unique place done before
          shows_before)
        rest in
    record {
      keys_same = planned.keys_same ∙ same;
      shows = rw (sym e) (planned.shows);
      shows_before = planned.shows_before;
    }
