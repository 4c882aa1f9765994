-- ===== src/Runtime/Manager/Tests.antt =====
-- A run of the task manager over the queue in memory: one task, enqueued twice, fails and is tried again.
use trace_mind.Prelude.{
  ℕ, suc, ◌<◌, ◌⊎◌, ◌≡◌, refl, false, none, some, String, [], ◌∷◌, lookup, nat_HasEq, text_HasEq,
  put, without, has_key,
}
use trace_mind.Runtime.Idempotency.{IdempotencyStore, get}
use trace_mind.Runtime.Queue.{
  WorkQueue, new_queue, put_task, lease, ack, lease_loop, release_from, release_expired, take_entry,
  heappush, extract_available_at,
}
use trace_mind.Runtime.Queue.Protocol.{
  memory_ops, memory-IsWorkQueue, IsSound, new_queue-IsSound, new_queue-empty,
}
use trace_mind.Runtime.Queue.Held.{held}
use trace_mind.Runtime.Protocol.{WorkQueueOps}
use trace_mind.Runtime.Task.{
  TaskEnvelope, RetryPolicy, idempotency_key, new_envelope, with_retry, decide_retry, settings_for,
  TaskError,
}
use trace_mind.Runtime.Manager.{
  Clock, ManagedLease, TaskQueueManager, new_task_manager, enqueue, enqueue_envelope, enqueue_keyed,
  store_envelope, lease_tasks, handle_failure, record_retry, set_pending, take_off, add_at, set_at,
}
use trace_mind.Runtime.Manager.Runs.{
  IsCurrent, Reaches, here, then_move, enqueues, leases, fails, one_task_per_key,
}
use trace_mind.Runtime.Manager.Failures.{
  attempts_allowed, GivesUp, TakesOff, Retries, attempts_bounded,
}

abbrev Queue : Type 0
Queue = WorkQueue (TaskEnvelope String)

abbrev Manager : Type 0
Manager = TaskQueueManager String String Queue

abbrev ops : WorkQueueOps (TaskEnvelope String) Queue
ops = memory_ops (λ e. e.scheduled_at)

abbrev policy : RetryPolicy
policy = record {
  default = record { max_attempts = 3; dlq_after = none; next_delay = λ n. 100 };
  per_flow = [];
}

abbrev store : IdempotencyStore String
store = record { capacity = 10; entries = [] }

abbrev clock : ℕ → Clock
clock t = record { wall = t; monotonic = t }

abbrev started : Manager
started = new_task_manager ops new_queue store (some policy) 3600

abbrev once : Manager
once = (enqueue ops (clock 10) "t1" "f" "in" (("idempotency_key", some "k") ∷ []) "" started).1

abbrev leased : Manager
leased = (lease_tasks ops (clock 30) 5 1000 once).1

abbrev task : TaskEnvelope String
task = new_envelope "t1" 10 "f" "in" (("idempotency_key", some "k") ∷ []) ""

abbrev held_lease : ManagedLease String
held_lease = record { offset = 0; token = 1; deadline = 1030; envelope = task }

abbrev failed : Manager
failed =
    handle_failure ops (clock 40) held_lease (record { is_final = false; error_code = none }) leased

abbrev again : TaskEnvelope String
again = with_retry 1 140 task

one_queued :
    (enqueue ops (clock 20) "t2" "f" "in" (("idempotency_key", some "k") ∷ []) "" once).0.queued
    ≡ false
unfolding enqueue enqueue_envelope idempotency_key lookup new_envelope without enqueue_keyed get
    new_task_manager store_envelope add_at has_key put handle_failure lease_tasks decide_retry
    settings_for record_retry set_at set_pending take_off with_retry put_task heappush
    extract_available_at lease release_expired release_from lease_loop take_entry ack new_queue
one_queued = refl

second_try : held failed.queue 1 ≡ some again
unfolding enqueue enqueue_envelope idempotency_key lookup new_envelope without enqueue_keyed get
    new_task_manager store_envelope add_at has_key put handle_failure lease_tasks decide_retry
    settings_for record_retry set_at set_pending take_off with_retry put_task heappush
    extract_available_at lease release_expired release_from lease_loop take_entry ack new_queue
second_try = refl

failed_once : Reaches ops IsSound (memory-IsWorkQueue (λ e. e.scheduled_at)) started failed
unfolding enqueue enqueue_envelope idempotency_key lookup new_envelope without enqueue_keyed get
    new_task_manager store_envelope add_at has_key put handle_failure lease_tasks decide_retry
    settings_for record_retry set_at set_pending take_off with_retry put_task heappush
    extract_available_at lease release_expired release_from lease_loop take_entry ack new_queue
failed_once =
    then_move
      (then_move
        (then_move here (
          enqueues (clock 10) "t1" "f" "in" (("idempotency_key", some "k") ∷ []) ""
            (λ j e at. let none_there = new_queue-empty {T = TaskEnvelope String} j in cc)))
        (leases (clock 30) 5 1000))
      (fails (clock 40) held_lease (record { is_final = false; error_code = none }) (refl, refl))

again_key : idempotency_key again ≡ some "k"
unfolding idempotency_key with_retry new_envelope without lookup
again_key = refl

one_task_per_key_example : ◌≡◌ {A = ℕ} 1 1
one_task_per_key_example =
    one_task_per_key ops IsSound (memory-IsWorkQueue (λ e. e.scheduled_at)) new_queue store
      (some policy) 3600 new_queue-IsSound new_queue-empty failed_once 1 1 again again "k"
      second_try second_try again_key again_key

-- The task once it is leased again, and a second failure.
abbrev leased_again : Manager
leased_again = (lease_tasks ops (clock 140) 5 1000 failed).1

abbrev second_lease : ManagedLease String
second_lease = record { offset = 1; token = 2; deadline = 1140; envelope = again }

leased_twice : Reaches ops IsSound (memory-IsWorkQueue (λ e. e.scheduled_at)) started leased_again
leased_twice = then_move failed_once (leases (clock 140) 5 1000)

abbrev fault : TaskError
fault = record { is_final = false; error_code = none }

still_queued : held leased_again.queue 1 ≡ some again
unfolding enqueue enqueue_envelope idempotency_key lookup new_envelope without enqueue_keyed get
    new_task_manager store_envelope add_at has_key put handle_failure lease_tasks decide_retry
    settings_for record_retry set_at set_pending take_off with_retry put_task heappush
    extract_available_at lease release_expired release_from lease_loop take_entry ack new_queue
still_queued = refl

is_current :
    IsCurrent ops IsSound (memory-IsWorkQueue (λ e. e.scheduled_at)) second_lease leased_again
unfolding enqueue enqueue_envelope idempotency_key lookup new_envelope without enqueue_keyed get
    new_task_manager store_envelope add_at has_key put handle_failure lease_tasks decide_retry
    settings_for record_retry set_at set_pending take_off with_retry put_task heappush
    extract_available_at lease release_expired release_from lease_loop take_entry ack new_queue
is_current = (refl, refl)

policy_again : leased_again.retry_policy ≡ some policy
unfolding enqueue enqueue_envelope idempotency_key lookup new_envelope without enqueue_keyed get
    new_task_manager store_envelope add_at has_key put handle_failure lease_tasks decide_retry
    settings_for record_retry set_at set_pending take_off with_retry put_task heappush
    extract_available_at lease release_expired release_from lease_loop take_entry ack new_queue
policy_again = refl

attempts_bounded_example :
    (again.attempt < attempts_allowed policy again.flow_id)
    × ((GivesUp policy again.flow_id (suc again.attempt) fault
          × TakesOff ops second_lease.offset leased_again.queue
              (handle_failure ops (clock 200) second_lease fault leased_again).queue)
        ⊎ ((GivesUp policy again.flow_id (suc again.attempt) fault → ⊥)
            × Retries ops second_lease.offset again leased_again.queue
                (handle_failure ops (clock 200) second_lease fault leased_again).queue))
attempts_bounded_example =
    attempts_bounded ops IsSound (memory-IsWorkQueue (λ e. e.scheduled_at)) new_queue store
      (some policy) 3600 leased_again new_queue-IsSound new_queue-empty leased_twice policy 1 again
      (clock 200) second_lease fault policy_again still_queued is_current
