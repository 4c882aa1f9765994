-- ===== src/Runtime/Manager/Runs.antt =====
-- The tasks and the pending keys of tm/runtime/queue/manager.py over its operations.
use trace_mind.Prelude.{
  ℕ, suc, ◌+◌, ◌≡◌, refl, sym, ◌∙◌, ap, inl, inr, Bool, true, false, Option, none, some, String,
  ◌==◌, nat_HasEq, text_HasEq, Dict, lookup, put, lookup-put, eq_iff_at, Option-cases,
}
use trace_mind.Runtime.Idempotency.{IdempotencyStore, get}
use trace_mind.Runtime.Protocol.{WorkQueueOps, IsWorkQueue}
use trace_mind.Runtime.Task.{
  TaskEnvelope, idempotency_key, composite_key, with_retry, new_envelope, RetryPolicy, retry, dlq,
  TaskError, decide_retry,
}
use trace_mind.Runtime.Manager.{
  Clock, ManagedLease, TaskQueueManager, add_at, set_at, new_task_manager, store_envelope,
  clear_pending, enqueue_envelope, enqueue_keyed, enqueue, lease_tasks, take_off, ack_lease,
  nack_lease, record_task_result, set_pending, record_retry, record_dead_letter, handle_failure,
  get_cached_result,
}
use trace_mind.Runtime.Manager.Dedupe.{
  Deduped, IsAbsent, same_tasks, removed-Deduped, composite-key, cleared-Deduped, put-Deduped,
  named-Deduped, same_keys, lookup-add_at, lookup-set_at,
}

some_text_inj : {u v : String} → some u ≡ some v → u ≡ v
some_text_inj h = cc

module _ {I Q : Type 0} (ops : WorkQueueOps (TaskEnvelope I) Q) (IsOk : Q → Type 0) where
  module _ {R : Type 0} (laws : IsWorkQueue ops IsOk) where
    abbrev pub IsDeduped : TaskQueueManager I R Q → Type 0
    IsDeduped m = Deduped ops IsOk m.queue m.pending_keys

    -- The lease is the current one of its task.
    abbrev pub IsCurrent : ManagedLease I → TaskQueueManager I R Q → Type 0
    IsCurrent l m =
        (ops.held m.queue l.offset ≡ some l.envelope)
        × (ops.accepts m.queue l.offset l.token ≡ true)

    store_envelope-IsDeduped :
        (clock : Clock) (e : TaskEnvelope I) (m : TaskQueueManager I R Q)
        → IsDeduped m
        → IsAbsent ops IsOk e.task_id m.queue
        → ((k : String)
            → idempotency_key e ≡ some k
            → lookup k (add_at (idempotency_key e) (composite_key e) e.task_id m.pending_keys)
              ≡ some e.task_id)
        → IsDeduped (store_envelope ops clock e m)
    unfolding store_envelope
    store_envelope-IsDeduped clock e m d absent own =
        put-Deduped ops IsOk m.queue (ops.put_task clock.wall clock.monotonic e m.queue).1
          (ops.put_task clock.wall clock.monotonic e m.queue).0 e m.pending_keys
          (add_at (idempotency_key e) (composite_key e) e.task_id m.pending_keys) d absent
          (laws.put_ok clock.wall clock.monotonic e m.queue d.ok)
          (laws.put_held clock.wall clock.monotonic e m.queue) own
          (λ j f k there has.
            lookup-add_at (idempotency_key e) (composite_key e) e.task_id m.pending_keys k f.task_id
              (d.keyed j f k there has))

    take_off-IsDeduped :
        (l : ManagedLease I) (m : TaskQueueManager I R Q)
        → IsDeduped m
        → IsCurrent l m
        → IsDeduped (take_off ops l m)
          × IsAbsent ops IsOk l.envelope.task_id (take_off ops l m).queue
    unfolding take_off
    take_off-IsDeduped l m d (at, current) =
        removed-Deduped ops IsOk m.queue (ops.ack l.offset l.token m.queue) l.offset l.envelope
          m.pending_keys d at (laws.ack_ok l.offset l.token m.queue d.ok)
          (λ j. laws.ack_held l.offset l.token m.queue j current)

    ack_lease-IsDeduped :
        (l : ManagedLease I) (m : TaskQueueManager I R Q)
        → IsDeduped m
        → IsCurrent l m
        → IsDeduped (ack_lease ops l m)
    unfolding ack_lease clear_pending take_off
    ack_lease-IsDeduped l m d current =
        let (left, absent) = take_off-IsDeduped l m d current in
        cleared-Deduped ops IsOk (idempotency_key l.envelope) (composite_key l.envelope)
          l.envelope.task_id (take_off ops l m).queue m.pending_keys left absent

    enqueue_keyed-IsDeduped :
        (clock : Clock) (e : TaskEnvelope I) (k : String) (m : TaskQueueManager I R Q)
        → idempotency_key e ≡ some k
        → IsDeduped m
        → IsAbsent ops IsOk e.task_id m.queue
        → IsDeduped (enqueue_keyed ops clock e m).1
    unfolding enqueue_keyed
    enqueue_keyed-IsDeduped clock e k m has d absent =
        elim (Option-cases (get clock.monotonic (composite_key e) m.idempotency).0) [
          | inr (r, hit) ↦ rw (hit, enqueue_keyed) d
          | inl miss ↦
              rw (miss, enqueue_keyed)
                (elim (Option-cases (lookup (composite_key e) m.pending_keys)) [
                  | inr (id, pending) ↦ rw pending d
                  | inl free ↦
                      let keys = put (composite_key e) e.task_id m.pending_keys in
                      rw free (
                        store_envelope-IsDeduped clock e
                          (record m {
                            idempotency = (get clock.monotonic (composite_key e) m.idempotency).1;
                            pending_keys = keys;
                          })
                          (named-Deduped ops IsOk (composite_key e) e.task_id m.queue m.pending_keys
                            d free)
                          absent
                          (λ j same.
                            let at : (composite_key e == j) ≡ true =
                              (eq_iff_at (composite_key e) j).1 (composite-key ops IsOk e j same) in
                            lookup-add_at (idempotency_key e) (composite_key e) e.task_id keys j
                              e.task_id
                              (lookup-put (composite_key e) j e.task_id m.pending_keys
                                ∙ rw at refl)))
                ])
        ]

    enqueue_envelope-IsDeduped :
        (clock : Clock) (e : TaskEnvelope I) (m : TaskQueueManager I R Q)
        → IsDeduped m
        → IsAbsent ops IsOk e.task_id m.queue
        → IsDeduped (enqueue_envelope ops clock e m).1
    unfolding enqueue_envelope
    enqueue_envelope-IsDeduped clock e m d absent = elim (Option-cases (idempotency_key e)) [
      | inl no_key ↦
          rw (no_key, enqueue_envelope) (store_envelope-IsDeduped clock e m d absent (λ k has. cc))
      | inr (k, has) ↦ rw (has, enqueue_envelope) (enqueue_keyed-IsDeduped clock e k m has d absent)
    ]

    record_retry-IsDeduped :
        (clock : Clock) (l : ManagedLease I) (delay : ℕ) (m : TaskQueueManager I R Q)
        → IsDeduped m
        → IsCurrent l m
        → IsDeduped (record_retry ops clock l delay m).1
    unfolding record_retry set_pending store_envelope take_off with_retry idempotency_key
    record_retry-IsDeduped clock l delay m d current =
        let e = with_retry (suc l.envelope.attempt) (clock.wall + delay) l.envelope in
        let off = take_off ops l m in
        let (left, absent) = take_off-IsDeduped l m d current in
        let key = composite_key l.envelope in
        let id = l.envelope.task_id in
        let o = idempotency_key l.envelope in
        let named : (k : String) → o ≡ some k → lookup k m.pending_keys ≡ some id =
          λ k has. d.keyed l.offset l.envelope k current.0 has in
        let stored =
          store_envelope-IsDeduped clock e off left absent
            (λ k has. lookup-add_at o key id m.pending_keys k id (named k has)) in
        same_keys ops IsOk (store_envelope ops clock e off).queue
          (store_envelope ops clock e off).pending_keys
          (set_at o key id (add_at o key id m.pending_keys))
          (lookup-set_at o key id (add_at o key id m.pending_keys) (λ k has.
            lookup-add_at o key id m.pending_keys key id (
              ap (λ x. lookup x m.pending_keys) (composite-key ops IsOk l.envelope k has)
              ∙ named k has)))
          stored

    nack_lease-IsDeduped :
        (clock : Clock) (l : ManagedLease I) (requeue : Bool) (m : TaskQueueManager I R Q)
        → IsDeduped m
        → IsCurrent l m
        → IsDeduped (nack_lease ops clock l requeue m)
    unfolding nack_lease clear_pending
    nack_lease-IsDeduped clock l true m d (at, current) =
        let q = ops.nack clock.monotonic l.offset l.token true m.queue in
        same_tasks ops IsOk m.queue q m.pending_keys
          (laws.nack_ok clock.monotonic l.offset l.token true m.queue d.ok)
          (λ j. laws.nack_held clock.monotonic l.offset l.token true m.queue j current) d
    nack_lease-IsDeduped clock l false m d (at, current) =
        let q = ops.nack clock.monotonic l.offset l.token false m.queue in
        let (left, absent) =
          removed-Deduped ops IsOk m.queue q l.offset l.envelope m.pending_keys d at
            (laws.nack_ok clock.monotonic l.offset l.token false m.queue d.ok)
            (λ j. laws.nack_held clock.monotonic l.offset l.token false m.queue j current) in
        cleared-Deduped ops IsOk (idempotency_key l.envelope) (composite_key l.envelope)
          l.envelope.task_id q m.pending_keys left absent

    record_dead_letter-IsDeduped :
        (l : ManagedLease I) (reason : String) (m : TaskQueueManager I R Q)
        → IsDeduped m
        → IsCurrent l m
        → IsDeduped (record_dead_letter ops l reason m)
    unfolding record_dead_letter
    record_dead_letter-IsDeduped l reason m d current = ack_lease-IsDeduped l m d current

    handle_failure-IsDeduped :
        (clock : Clock) (l : ManagedLease I) (error : TaskError) (m : TaskQueueManager I R Q)
        → IsDeduped m
        → IsCurrent l m
        → IsDeduped (handle_failure ops clock l error m)
    unfolding handle_failure
    handle_failure-IsDeduped clock l error m d current = elim (Option-cases m.retry_policy) [
      | inl no_policy ↦
          rw (no_policy, handle_failure) (record_dead_letter-IsDeduped l "no_policy" m d current)
      | inr (p, found) ↦
          rw (found, handle_failure)
            (elim (decide_retry p l.envelope.flow_id (suc l.envelope.attempt) error)
              as (λ x. IsDeduped (elim x [
                | retry delay ↦ (record_retry ops clock l delay m).1
                | dlq reason ↦ record_dead_letter ops l reason m
              ])) [
                | retry delay ↦ record_retry-IsDeduped clock l delay m d current
                | dlq reason ↦ record_dead_letter-IsDeduped l reason m d current
              ])
    ]

    lease_tasks-IsDeduped :
        (clock : Clock) (count lease_ms : ℕ) (m : TaskQueueManager I R Q)
        → IsDeduped m
        → IsDeduped (lease_tasks ops clock count lease_ms m).1
    unfolding lease_tasks
    lease_tasks-IsDeduped clock count lease_ms m d =
        same_tasks ops IsOk m.queue (ops.lease clock.monotonic count lease_ms m.queue).1
          m.pending_keys (laws.lease_ok clock.monotonic count lease_ms m.queue d.ok)
          (λ j. laws.lease_held clock.monotonic count lease_ms m.queue j d.ok) d

    record_task_result-IsDeduped :
        (clock : Clock) (e : TaskEnvelope I) (result : R) (ttl : Option ℕ)
        (m : TaskQueueManager I R Q)
        → IsDeduped m
        → IsAbsent ops IsOk e.task_id m.queue
        → IsDeduped (record_task_result ops clock e result ttl m)
    unfolding record_task_result clear_pending
    record_task_result-IsDeduped clock e result ttl m d absent =
        cleared-Deduped ops IsOk (idempotency_key e) (composite_key e) e.task_id m.queue
          m.pending_keys d absent

    -- The operations, as the workers use them: the id of a new task is new, a lease is the current one,
    -- and a result is recorded when the task has left the queue.
    pub data Move (m : TaskQueueManager I R Q) : TaskQueueManager I R Q → Type 0 where
      enqueues :
          (clock : Clock) (task_id flow_id : String) (input : I)
          (headers : Dict String (Option String)) (trace : I)
          → IsAbsent ops IsOk task_id m.queue
          → Move m (enqueue ops clock task_id flow_id input headers trace m).1
      leases :
          (clock : Clock) (count lease_ms : ℕ) → Move m (lease_tasks ops clock count lease_ms m).1
      acks : (l : ManagedLease I) → IsCurrent l m → Move m (ack_lease ops l m)
      nacks :
          (clock : Clock) (l : ManagedLease I) (requeue : Bool)
          → IsCurrent l m
          → Move m (nack_lease ops clock l requeue m)
      records :
          (clock : Clock) (e : TaskEnvelope I) (result : R) (ttl : Option ℕ)
          → IsAbsent ops IsOk e.task_id m.queue
          → Move m (record_task_result ops clock e result ttl m)
      reads : (clock : Clock) (e : TaskEnvelope I) → Move m (get_cached_result ops clock e m).1
      fails :
          (clock : Clock) (l : ManagedLease I) (error : TaskError)
          → IsCurrent l m
          → Move m (handle_failure ops clock l error m)

    pub data Reaches (m : TaskQueueManager I R Q) : TaskQueueManager I R Q → Type 0 where
      here : Reaches m m
      then_move : {m' m'' : TaskQueueManager I R Q} → Reaches m m' → Move m' m'' → Reaches m m''

    Move-IsDeduped : {m m' : TaskQueueManager I R Q} → Move m m' → IsDeduped m → IsDeduped m'
    unfolding enqueue new_envelope get_cached_result
    Move-IsDeduped {m = m} (enqueues clock task_id flow_id input headers trace absent) d =
        enqueue_envelope-IsDeduped clock
          (new_envelope task_id clock.wall flow_id input headers trace) m d absent
    Move-IsDeduped {m = m} (leases clock count lease_ms) d =
        lease_tasks-IsDeduped clock count lease_ms m d
    Move-IsDeduped {m = m} (acks l current) d = ack_lease-IsDeduped l m d current
    Move-IsDeduped {m = m} (nacks clock l requeue current) d =
        nack_lease-IsDeduped clock l requeue m d current
    Move-IsDeduped {m = m} (records clock e result ttl absent) d =
        record_task_result-IsDeduped clock e result ttl m d absent
    Move-IsDeduped {m = m} (reads clock e) d = d
    Move-IsDeduped {m = m} (fails clock l error current) d =
        handle_failure-IsDeduped clock l error m d current

    pub Reaches-IsDeduped :
        {m m' : TaskQueueManager I R Q} → Reaches m m' → IsDeduped m → IsDeduped m'
    Reaches-IsDeduped here d = d
    Reaches-IsDeduped (then_move r v) d = Move-IsDeduped v (Reaches-IsDeduped r d)

    pub started-IsDeduped :
        (q : Q) (store : IdempotencyStore R) (policy : Option RetryPolicy) (ttl : ℕ)
        → IsOk q
        → ((j : ℕ) → ops.held q j ≡ none)
        → IsDeduped (new_task_manager ops q store policy ttl)
    unfolding new_task_manager
    started-IsDeduped q store policy ttl ok empty = record {
      ok = ok;
      keyed = λ j e k at has. let no = empty j in cc;
      alone = λ i j e f at there same. let no = empty i in cc;
    }

    -- A queue never holds two tasks with one idempotency key, whatever is enqueued, leased,
    -- acknowledged, given back, tried again or moved to the dead letters; a manager starts on an empty
    -- queue, and only current leases are settled.
    pub one_task_per_key :
        (q : Q) (store : IdempotencyStore R) (policy : Option RetryPolicy) (ttl : ℕ)
        {m : TaskQueueManager I R Q}
        → IsOk q
        → ((j : ℕ) → ops.held q j ≡ none)
        → Reaches (new_task_manager ops q store policy ttl) m
        → (i j : ℕ) (e f : TaskEnvelope I) (k : String) → ops.held m.queue i ≡ some e
        → ops.held m.queue j ≡ some f
        → idempotency_key e ≡ some k
        → idempotency_key f ≡ some k
        → i ≡ j
    one_task_per_key q store policy ttl {m} ok empty r i j e f k at there has has' =
        let d = Reaches-IsDeduped r (started-IsDeduped q store policy ttl ok empty) in
        let named = d.keyed i e k at has in
        let named' = d.keyed j f k there has' in
        d.alone i j e f at there (some_text_inj (sym named ∙ named'))
