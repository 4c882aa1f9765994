-- ===== src/Runtime/Manager/Attempts.antt =====
-- The attempts of the tasks of tm/runtime/queue/manager.py.
use trace_mind.Prelude.{
  ℕ, suc, ◌+◌, ◌<◌, ◌≡◌, refl, sym, ◌∙◌, subst, ◌⊎◌, inl, inr, Bool, true, false, Option, none,
  some, String, if◌then◌else◌, ◌==◌, nat_HasEq, text_HasEq, put, lookup, Bool-cases, Option-cases,
  arith, eq_iff_at,
}
use trace_mind.Runtime.Idempotency.{get}
use trace_mind.Runtime.Protocol.{WorkQueueOps, IsWorkQueue}
use trace_mind.Runtime.Task.{
  TaskEnvelope, idempotency_key, composite_key, with_retry, new_envelope, RetryPolicy, retry, dlq,
  TaskError, RetryDecision, decide_retry, max_attempts_of,
}
use trace_mind.Runtime.Manager.{
  Clock, ManagedLease, TaskQueueManager, store_envelope, clear_pending, enqueue_envelope,
  enqueue_keyed, enqueue, lease_tasks, take_off, ack_lease, nack_lease, record_task_result,
  set_pending, record_retry, record_dead_letter, handle_failure, get_cached_result,
}
use trace_mind.Runtime.Manager.Runs.{
  IsDeduped, IsCurrent, Move, enqueues, leases, acks, nacks, records, fails, reads, Reaches, here,
  then_move, Reaches-IsDeduped,
}

pub max_attempts-positive : (p : RetryPolicy) (flow : String) → 0 < max_attempts_of p flow
max_attempts-positive p flow = ground arith

-- A policy that says to try again leaves an attempt.
pub decide_retry-below :
    (p : RetryPolicy) (flow : String) (attempt : ℕ) (error : TaskError) (delay : ℕ)
    → decide_retry p flow attempt error ≡ retry delay
    → attempt < max_attempts_of p flow
unfolding decide_retry
decide_retry-below p flow attempt error delay h = ground arith

pub policy_inj : {p p' : RetryPolicy} → some p ≡ some p' → p ≡ p'
policy_inj h = cc

decision_cases :
    (d : RetryDecision) → ((delay : ℕ) × (d ≡ retry delay)) ⊎ ((reason : String) × (d ≡ dlq reason))
decision_cases (retry delay) = inl (delay, refl)
decision_cases (dlq reason) = inr (reason, refl)

pub retry_or_not :
    (p : RetryPolicy) (flow : String) (attempt : ℕ) (error : TaskError)
    → ((delay : ℕ) × (decide_retry p flow attempt error ≡ retry delay))
      ⊎ ((reason : String) × (decide_retry p flow attempt error ≡ dlq reason))
retry_or_not p flow attempt error = decision_cases (decide_retry p flow attempt error)

now_held :
    {I : Type 0} (i j : ℕ) (e f : TaskEnvelope I) (o : Option (TaskEnvelope I))
    → (if i == j then some e else o) ≡ some f
    → ((i ≡ j) × (e ≡ f)) ⊎ (o ≡ some f)
now_held i j e f o h = elim (Bool-cases (i == j)) [
  | inl same ↦ inl ((eq_iff_at i j).0 same, ground (arith, same))
  | inr other ↦ inr (ground (arith, other))
]

left_held :
    {I : Type 0} (i j : ℕ) (f : TaskEnvelope I) (o : Option (TaskEnvelope I))
    → (if i == j then none else o) ≡ some f
    → o ≡ some f
left_held i j f o h = ground (arith, h)

module _ {I Q : Type 0} (ops : WorkQueueOps (TaskEnvelope I) Q) where
  -- With a policy, every task has an attempt left.
  pub record InBounds (policy : Option RetryPolicy) (q : Q) : Type 0 where
    pub bounded :
        (p : RetryPolicy) (j : ℕ) (e : TaskEnvelope I)
        → policy ≡ some p
        → ops.held q j ≡ some e
        → e.attempt < max_attempts_of p e.flow_id

  -- Every task of the second queue is one of the first, or within the bounds.
  InBounds-from :
      (policy : Option RetryPolicy) (q q' : Q)
      → ((j : ℕ) (e : TaskEnvelope I)
          → ops.held q' j ≡ some e
          → (ops.held q j ≡ some e)
            ⊎ ((p : RetryPolicy) → policy ≡ some p → e.attempt < max_attempts_of p e.flow_id))
      → InBounds policy q
      → InBounds policy q'
  InBounds-from policy q q' from b = record {
    bounded = λ p j e same at. elim (from j e at) [
      | inl was ↦ b.bounded p j e same was
      | inr below ↦ below p same
    ];
  }

  module _ {R : Type 0} (IsOk : Q → Type 0) (laws : IsWorkQueue ops IsOk) where
    abbrev pub HasAttempts : TaskQueueManager I R Q → Type 0
    HasAttempts m = InBounds m.retry_policy m.queue

    store_envelope-HasAttempts :
        (clock : Clock) (e : TaskEnvelope I) (m : TaskQueueManager I R Q)
        → HasAttempts m
        → ((p : RetryPolicy) → m.retry_policy ≡ some p → e.attempt < max_attempts_of p e.flow_id)
        → HasAttempts (store_envelope ops clock e m)
    unfolding store_envelope
    store_envelope-HasAttempts clock e m bounded below =
        let (offset, q) = ops.put_task clock.wall clock.monotonic e m.queue in
        InBounds-from m.retry_policy m.queue (ops.put_task clock.wall clock.monotonic e m.queue).1
          (λ j f at.
            elim (now_held (ops.put_task clock.wall clock.monotonic e m.queue).0 j e f
              (ops.held m.queue j)
              (sym (laws.put_held clock.wall clock.monotonic e m.queue j) ∙ at)) [
                | inl (_, same) ↦ inr (λ p found.
                    subst (λ e. e.attempt < max_attempts_of p e.flow_id) same (below p found))
                | inr was ↦ inl was
              ])
          bounded

    take_off-HasAttempts :
        (l : ManagedLease I) (m : TaskQueueManager I R Q)
        → IsCurrent ops IsOk laws l m
        → HasAttempts m
        → HasAttempts (take_off ops l m)
    unfolding take_off
    take_off-HasAttempts l m (at, current) bounded =
        InBounds-from m.retry_policy m.queue (ops.ack l.offset l.token m.queue)
          (λ j f there. inl (
            left_held l.offset j f (ops.held m.queue j)
              (sym (laws.ack_held l.offset l.token m.queue j current) ∙ there)))
          bounded

    ack_lease-HasAttempts :
        (l : ManagedLease I) (m : TaskQueueManager I R Q)
        → IsCurrent ops IsOk laws l m
        → HasAttempts m
        → HasAttempts (ack_lease ops l m)
    unfolding ack_lease clear_pending take_off
    ack_lease-HasAttempts l m current bounded = take_off-HasAttempts l m current bounded

    nack_lease-HasAttempts :
        (clock : Clock) (l : ManagedLease I) (requeue : Bool) (m : TaskQueueManager I R Q)
        → IsCurrent ops IsOk laws l m
        → HasAttempts m
        → HasAttempts (nack_lease ops clock l requeue m)
    unfolding nack_lease clear_pending
    nack_lease-HasAttempts clock l true m (at, current) bounded =
        InBounds-from m.retry_policy m.queue
          (ops.nack clock.monotonic l.offset l.token true m.queue)
          (λ j f there.
            inl (
              sym (laws.nack_held clock.monotonic l.offset l.token true m.queue j current) ∙ there))
          bounded
    nack_lease-HasAttempts clock l false m (at, current) bounded =
        InBounds-from m.retry_policy m.queue
          (ops.nack clock.monotonic l.offset l.token false m.queue)
          (λ j f there. inl (
            left_held l.offset j f (ops.held m.queue j) (
              sym (laws.nack_held clock.monotonic l.offset l.token false m.queue j current)
              ∙ there)))
          bounded

    enqueue_keyed-HasAttempts :
        (clock : Clock) (e : TaskEnvelope I) (m : TaskQueueManager I R Q)
        → HasAttempts m
        → ((p : RetryPolicy) → m.retry_policy ≡ some p → e.attempt < max_attempts_of p e.flow_id)
        → HasAttempts (enqueue_keyed ops clock e m).1
    unfolding enqueue_keyed
    enqueue_keyed-HasAttempts clock e m bounded below =
        elim (Option-cases (get clock.monotonic (composite_key e) m.idempotency).0) [
          | inr (r, hit) ↦ rw (hit, enqueue_keyed) bounded
          | inl miss ↦
              rw (miss, enqueue_keyed)
                (elim (Option-cases (lookup (composite_key e) m.pending_keys)) [
                  | inr (id, pending) ↦ rw pending bounded
                  | inl free ↦ rw free (
                      store_envelope-HasAttempts clock e
                        (record m {
                          idempotency = (get clock.monotonic (composite_key e) m.idempotency).1;
                          pending_keys = put (composite_key e) e.task_id m.pending_keys;
                        })
                        bounded below)
                ])
        ]

    enqueue_envelope-HasAttempts :
        (clock : Clock) (e : TaskEnvelope I) (m : TaskQueueManager I R Q)
        → e.attempt ≡ 0
        → HasAttempts m
        → HasAttempts (enqueue_envelope ops clock e m).1
    unfolding enqueue_envelope
    enqueue_envelope-HasAttempts clock e m first bounded =
        let below : (p : RetryPolicy)
            → m.retry_policy ≡ some p
            → e.attempt < max_attempts_of p e.flow_id =
          λ p _. let pos = max_attempts-positive p e.flow_id in omega arith in
        elim (Option-cases (idempotency_key e)) [
          | inl no_key ↦
              rw (no_key, enqueue_envelope) (store_envelope-HasAttempts clock e m bounded below)
          | inr (k, has) ↦
              rw (has, enqueue_envelope) (enqueue_keyed-HasAttempts clock e m bounded below)
        ]

    record_dead_letter-HasAttempts :
        (l : ManagedLease I) (reason : String) (m : TaskQueueManager I R Q)
        → IsCurrent ops IsOk laws l m
        → HasAttempts m
        → HasAttempts (record_dead_letter ops l reason m)
    unfolding record_dead_letter
    record_dead_letter-HasAttempts l reason m current bounded =
        ack_lease-HasAttempts l m current bounded

    record_retry-HasAttempts :
        (clock : Clock) (l : ManagedLease I) (delay : ℕ) (m : TaskQueueManager I R Q)
        → IsCurrent ops IsOk laws l m
        → HasAttempts m
        → ((p : RetryPolicy)
            → m.retry_policy ≡ some p
            → suc l.envelope.attempt < max_attempts_of p l.envelope.flow_id)
        → HasAttempts (record_retry ops clock l delay m).1
    unfolding record_retry set_pending store_envelope take_off with_retry
    record_retry-HasAttempts clock l delay m current bounded below =
        store_envelope-HasAttempts clock
          (with_retry (suc l.envelope.attempt) (clock.wall + delay) l.envelope) (take_off ops l m)
          (take_off-HasAttempts l m current bounded) below

    handle_failure-HasAttempts :
        (clock : Clock) (l : ManagedLease I) (error : TaskError) (m : TaskQueueManager I R Q)
        → IsCurrent ops IsOk laws l m
        → HasAttempts m
        → HasAttempts (handle_failure ops clock l error m)
    unfolding handle_failure
    handle_failure-HasAttempts clock l error m current bounded =
        elim (Option-cases m.retry_policy) [
          | inl no_policy ↦
              rw (no_policy, handle_failure)
                (record_dead_letter-HasAttempts l "no_policy" m current bounded)
          | inr (p, found) ↦
              rw (found, handle_failure)
                (elim (retry_or_not p l.envelope.flow_id (suc l.envelope.attempt) error) [
                  | inl (delay, again) ↦ rw again (
                      record_retry-HasAttempts clock l delay m current bounded (λ p' same.
                        subst (λ p. suc l.envelope.attempt < max_attempts_of p l.envelope.flow_id)
                          (policy_inj (sym found ∙ same))
                          (decide_retry-below p l.envelope.flow_id (suc l.envelope.attempt) error
                            delay again)))
                  | inr (reason, final) ↦
                      rw final (record_dead_letter-HasAttempts l reason m current bounded)
                ])
        ]

    Move-HasAttempts :
        {m m' : TaskQueueManager I R Q}
        → Move ops IsOk laws m m'
        → IsDeduped ops IsOk laws m
        → HasAttempts m
        → HasAttempts m'
    unfolding enqueue new_envelope lease_tasks record_task_result clear_pending get_cached_result
    Move-HasAttempts {m = m} (enqueues clock task_id flow_id input headers trace absent) d bounded =
        enqueue_envelope-HasAttempts clock
          (new_envelope task_id clock.wall flow_id input headers trace) m refl bounded
    Move-HasAttempts {m = m} (leases clock count lease_ms) d bounded =
        InBounds-from m.retry_policy m.queue (ops.lease clock.monotonic count lease_ms m.queue).1
          (λ j f there.
            inl (sym (laws.lease_held clock.monotonic count lease_ms m.queue j d.ok) ∙ there))
          bounded
    Move-HasAttempts {m = m} (acks l current) d bounded = ack_lease-HasAttempts l m current bounded
    Move-HasAttempts {m = m} (nacks clock l requeue current) d bounded =
        nack_lease-HasAttempts clock l requeue m current bounded
    Move-HasAttempts {m = m} (records clock e result ttl absent) d bounded = bounded
    Move-HasAttempts {m = m} (reads clock e) d bounded = bounded
    Move-HasAttempts {m = m} (fails clock l error current) d bounded =
        handle_failure-HasAttempts clock l error m current bounded

    pub reaches-HasAttempts :
        {m m' : TaskQueueManager I R Q}
        → Reaches ops IsOk laws m m'
        → IsDeduped ops IsOk laws m
        → HasAttempts m
        → HasAttempts m'
    reaches-HasAttempts here d bounded = bounded
    reaches-HasAttempts (then_move r v) d bounded =
        Move-HasAttempts v (Reaches-IsDeduped ops IsOk laws r d) (reaches-HasAttempts r d bounded)
