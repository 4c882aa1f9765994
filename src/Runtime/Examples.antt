-- ===== src/Runtime/Examples.antt =====
-- A task that goes through the queue, one that is leased twice, and results that are remembered.
use trace_mind.Prelude.{
  ℕ, ◌≡◌, ◌<◌, ◌≤◌, ltb, length, text_HasEq, ◌==◌, refl, true, false, none, some, List, [], ◌∷◌,
  arith, ◌+◌, nat_HasEq, lookup, if◌then◌else◌, String, inr,
}
use trace_mind.Runtime.Queue.{
  Entry, LeasedTask, WorkQueue, new_queue, put_task, lease, ack, reschedule,
}
use trace_mind.Runtime.Queue.Kept.{IsKept}
use trace_mind.Runtime.Queue.Runs.{puts, leases, Reaches, here, then_move, Reaches-IsKept}
use trace_mind.Runtime.Queue.Tasks.{IsGone, is_among, gone_for_good}
use trace_mind.Runtime.Idempotency.{
  IdempotencyStore, new_store, get, remember, ExecutionIdempotencyGuard, lookup_result,
  record_result,
}
use trace_mind.Runtime.Idempotency.Laws.{
  new, remembers, store_bounded, get-remember, lookup_result-record_result,
}
use trace_mind.Runtime.Idempotency.Laws.{then_move as then_call}
use trace_mind.Runtime.Queue.Progress.{IsHanded, leased_until, lease-due}

abbrev filled : WorkQueue String
filled = (put_task 3 "build" new_queue).1

abbrev leased : WorkQueue String
leased = (lease 5 1 30 filled).1

abbrev emptied : WorkQueue String
emptied = ack 0 1 leased

filled_reached : Reaches new_queue filled
filled_reached = then_move here (puts 3 "build")

Reaches-IsKept_example : IsKept leased
Reaches-IsKept_example = Reaches-IsKept leased (then_move filled_reached (leases 5 1 30))

abbrev held : Entry String
held = record { task = "build"; available_at = 3; lease_deadline = 35; token = some 1 }

leased_entry : lookup 0 leased.entries ≡ some held
unfolding lease put_task new_queue
leased_entry = refl

emptied-IsGone : IsGone 0 emptied
unfolding lease put_task new_queue ack
emptied-IsGone = record { given = omega arith; absent = refl }

gone_for_good_example :
    (lookup 0 (put_task 9 "test" emptied).1.entries ≡ none)
    × ((now count duration : ℕ)
        → is_among 0 (lease now count duration (put_task 9 "test" emptied).1).0 ≡ false)
gone_for_good_example =
    gone_for_good 0 emptied (put_task 9 "test" emptied).1 emptied-IsGone
      (then_move here (puts 9 "test"))

-- At 35 the lease of the task is over.
leased_reached : Reaches new_queue leased
leased_reached = then_move filled_reached (leases 5 1 30)

sizes : length leased.ready + length leased.entries ≡ 1
unfolding lease put_task new_queue
sizes = refl

lease-due_example :
    IsHanded 0 "build" (35 + 30) (lease 35 1 30 leased).0
    × (leased_until 0 (35 + 30) (lease 35 1 30 leased).1 ≡ true)
lease-due_example =
    lease-due 35 1 30 0 leased held leased_reached (omega arith) (omega (arith, sizes)) leased_entry
      (inr (omega arith)) (omega arith)

-- A waiting task that is rescheduled stands in the heap twice, and one lease of two returns it twice.
abbrev offsets : List (LeasedTask String) → List ℕ
offsets [] = []
offsets (t ∷ ts) = t.offset ∷ offsets ts

leased_twice : offsets (lease 9 2 30 (reschedule 0 4 filled)).0 ≡ 0 ∷ 0 ∷ []
unfolding lease put_task new_queue reschedule
leased_twice = refl

abbrev empty_store : IdempotencyStore String
empty_store = record { capacity = 2; entries = [] }

abbrev one_stored : IdempotencyStore String
one_stored = remember 10 "job" "done" 5 empty_store

is_new : new_store 2 ≡ some empty_store
unfolding new_store
is_new = refl

store_bounded_example : (length one_stored.entries ≤ 2) × (one_stored.capacity ≡ 2) × (0 < 2)
store_bounded_example =
    store_bounded 2 one_stored (then_call (new empty_store is_new) (remembers 10 "job" "done" 5))

get-remember_example :
    (14 < 10 + 5 → (get 14 "job" one_stored).0 ≡ some "done")
    × ((other : String)
        → length empty_store.entries < empty_store.capacity
        → ("job" == other) ≡ false
        → (get 14 other one_stored).0 ≡ (get 14 other empty_store).0)
get-remember_example = get-remember 10 14 5 "job" "done" empty_store (omega arith) (omega arith)

abbrev job : String
job = "job"

abbrev guard : ExecutionIdempotencyGuard String
guard = record { ttl_seconds = 60; history = [] }

lookup_result-record_result_example :
    ((lookup_result 61 "job" (record_result 2 "job" "done" guard)).0
      ≡ (if ltb 61 (2 + guard.ttl_seconds) then some "done" else none))
    × ((job == "other") ≡ false
        → (lookup_result 61 "other" (record_result 2 "job" "done" guard)).0
          ≡ (lookup_result 61 "other" guard).0)
lookup_result-record_result_example = lookup_result-record_result 2 61 job "other" "done" guard
