-- ===== src/Tests/Parts.antt =====
-- The planner of the Value Log, the lifecycle, batches and statistics, on samples.
use expirkv.Prelude.{
  ◌+◌, ◌≡◌, ◌⊎◌, refl, ◌^◌, ◌<◌, ◌≤◌, true, false, some, List, [], ◌∷◌, ◌++◌, length, Bytes, arith,
}
use expirkv.Error.{ok}
use expirkv.Stats
use expirkv.Stats.{DbStats}
use expirkv.Stats.Updates.{LagFits, new-LagFits, update_commit_state-LagFits}
use expirkv.Batch
use expirkv.Batch.{WriteBatch, put_op, put, delete}
use expirkv.Batch.Accepts.{
  IsWithinLimits, IsValid, starts, puts, deletes, put-accepts, put-refusals, Built-IsValid,
  PutRefusal,
}
use expirkv.Lifecycle.{
  LifecycleController, new_with_external_lease, acquire_operation, release_external_lease,
  release_operation_guard, is_quiescent, close_runtime, Wake,
}
use expirkv.Lifecycle.Quiescence
use expirkv.Lifecycle.Quiescence.{
  Step, Later, here, then, Reachable, acquires, drops_lease, drops_guard, SawQuiescence,
  IsConsistent, Reachable-IsConsistent, Step-quiescent_stays, Step-quiescence_announced,
  release_external_lease-closes, wait_for_quiescence-saw,
}
use expirkv.Vlog.Geometry
use expirkv.Vlog.Geometry.{VLogPosition, production, page_end_min_size}
use expirkv.Vlog.Planner.{
  LayoutPlanner, RecordPlacement, plan_record, plan_record_inner, plan_placed, ensure_record_area,
  leave_full_file, open_page, choose_page, needs_page_end, close_page, place_record, page_end,
  page_header,
}
use expirkv.Vlog.Planner.Invariant.{IsReady}
use expirkv.Vlog.Planner.Records.{IsPlaced}
use expirkv.Vlog.Planner.Plan.{plan_record-IsPlaced, plan_record-ok}

update_commit_state-LagFits_example :
    let out = Stats.update_commit_state Stats.new 9 7 (some (3, 70_000)) (some 3) 4 280_000 in
    LagFits out.0
    × (out.1 ≡ true → (7 ≤ 9) × (out.0.head_seq ≡ 9) × (out.0.durable_seq ≡ 7))
    × (out.1 ≡ false → (9 < 7) × (out.0 ≡ Stats.new))
update_commit_state-LagFits_example =
    update_commit_state-LagFits Stats.new new-LagFits 9 7 (some (3, 70_000)) (some 3) 4 280_000

-- A batch with one `put` and one `delete`.
abbrev key : Bytes
key = b'k' ∷ []

abbrev value : Bytes
value = b'v' ∷ b'w' ∷ []

abbrev batch : WriteBatch
batch = (delete (λ _. true) (put (λ _. true) Batch.new key value).0 key).0

Built-IsValid_example : IsValid batch
Built-IsValid_example = Built-IsValid (deletes (λ _. true) key (puts (λ _. true) key value starts))

put-accepts_example :
    ((put (λ _. true) Batch.new key value).1 ≡ ok tt
      → IsWithinLimits (put_op key value)
        × (length Batch.new.operations + 1 < 2 ^ 32)
        × ((put (λ _. true) Batch.new key value).0
            ≡ record { operations = Batch.new.operations ++ (put_op key value ∷ []) }))
    × (IsWithinLimits (put_op key value)
        → length Batch.new.operations + 1 < 2 ^ 32
        → (put (λ _. true) Batch.new key value).1 ≡ ok tt)
put-accepts_example = put-accepts (λ _. true) Batch.new key value (λ _. refl)

put-refusals_example :
    PutRefusal [] value (length Batch.new.operations) Batch.invalid_argument_error.kind
unfolding put
put-refusals_example =
    put-refusals (λ _. true) Batch.new [] value Batch.invalid_argument_error (λ _. refl) refl

-- A lease holder starts one operation, gives its lease back, and then ends the operation.
abbrev working : LifecycleController
working = (acquire_operation new_with_external_lease).0

abbrev closing : LifecycleController
closing = (release_external_lease working).0

abbrev done : LifecycleController
done = (release_operation_guard closing).0

working-Reachable : Reachable working
unfolding new_with_external_lease
working-Reachable = Quiescence.steps Quiescence.starts (acquires (omega arith))

working-leases : working.inner.external_leases ≡ 1
unfolding new_with_external_lease acquire_operation
working-leases = refl

closing-Reachable : Reachable closing
closing-Reachable = Quiescence.steps working-Reachable (drops_lease (omega (arith, working-leases)))

closing-guards : closing.inner.operation_guards ≡ 1
unfolding new_with_external_lease acquire_operation release_external_lease
closing-guards = refl

done-Reachable : Reachable done
done-Reachable = Quiescence.steps closing-Reachable (drops_guard (omega (arith, closing-guards)))

closing-busy : is_quiescent closing.inner ≡ false
unfolding new_with_external_lease acquire_operation release_external_lease
closing-busy = refl

done-quiescent : is_quiescent done.inner ≡ true
unfolding new_with_external_lease acquire_operation release_external_lease release_operation_guard
done-quiescent = refl

Reachable-IsConsistent_example : IsConsistent done
Reachable-IsConsistent_example = Reachable-IsConsistent done-Reachable

Step-quiescent_stays_example :
    (is_quiescent (acquire_operation done).0.inner ≡ true)
    × ((acquire_operation (acquire_operation done).0).1 ≡ false)
unfolding new_with_external_lease acquire_operation release_external_lease release_operation_guard
Step-quiescent_stays_example =
    Step-quiescent_stays done-Reachable (acquires (omega arith)) done-quiescent

Step-quiescence_announced_example :
    (release_external_lease closing ≡ (done, true))
    ⊎ (release_operation_guard closing ≡ (done, true))
Step-quiescence_announced_example =
    Step-quiescence_announced closing-Reachable (drops_guard (omega (arith, closing-guards)))
      closing-busy done-quiescent

release_external_lease-closes_example :
    (closing.inner.external_leases + 1 ≡ working.inner.external_leases)
    × (1 < working.inner.external_leases
        → ((acquire_operation closing).1 ≡ true) × (closing.runtime ≡ working.runtime))
    × (working.inner.external_leases ≡ 1
        → ((acquire_operation done).1 ≡ false) × (closing.runtime ≡ close_runtime working.runtime))
release_external_lease-closes_example =
    release_external_lease-closes working-Reachable (omega (arith, working-leases))
      (then here (drops_guard (omega (arith, closing-guards))))

abbrev woken : List Wake
woken = record { remaining = some 5; next_inner = done.inner; timed_out = false } ∷ []

-- A position with too little room left in its page for the record.
abbrev late : VLogPosition
late = record { file_id = 3; offset = 130_000 }

late-IsReady : IsReady late
late-IsReady = record {
  file_bound = omega arith;
  offset_bound = omega arith;
  inside = λ _. (omega arith, omega arith, omega arith);
}

abbrev moved : LayoutPlanner
moved = record { geometry = production; position = record { file_id = 3; offset = 133_088 } }

plan_record-ok_example :
    (r : LayoutPlanner × RecordPlacement) × (plan_record
        (λ _. true)
        (record { geometry = production; position = late })
        2_000
      ≡ ok r)
plan_record-ok_example =
    plan_record-ok 2_000 (omega arith) late late-IsReady (λ _. true) refl (omega arith)
      (omega arith)

abbrev placed : RecordPlacement
placed = record {
  preludes = page_end late 1_072 ∷ page_header (record { file_id = 3; offset = 131_072 }) 2 ∷ [];
  record_start = record { file_id = 3; offset = 131_088 };
  encoded_len = 2_000;
}

plan_record-IsPlaced_example : IsPlaced late 2_000 moved placed
unfolding plan_record plan_record_inner plan_placed ensure_record_area leave_full_file open_page
    Geometry.validate_record_start Geometry.remaining_in_page choose_page needs_page_end close_page
    place_record
plan_record-IsPlaced_example =
    plan_record-IsPlaced 2_000 (omega arith) late late-IsReady (λ _. true) moved placed refl
