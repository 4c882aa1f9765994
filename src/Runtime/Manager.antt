-- ===== src/Runtime/Manager.antt =====
-- `TaskQueueManager` of tm/runtime/queue/manager.py, over any work queue. Metrics are left out, and
-- an envelope is put into the queue as it is, where the code writes it as a dictionary. The locks make
-- each step one; an operation reads each clock once.
pub mod Dedupe
pub mod Runs
pub mod Attempts
pub mod Failures
mod Tests
use trace_mind.Prelude.{
  ℕ, zero, suc, ◌+◌, ◌-◌, Bool, true, false, not, ◌&&◌, ◌||◌, Option, none, some, String, List, [],
  ◌∷◌, ◌++◌, map, if◌then◌else◌, ◌==◌, nat_HasEq, text_HasEq, leb, ltb, Dict, lookup, put, without,
  has_key, length,
}
use trace_mind.Runtime.Idempotency.{IdempotencyStore, get, remember}
use trace_mind.Runtime.Queue.{LeasedTask}
use trace_mind.Runtime.Protocol.{WorkQueueOps}
use trace_mind.Runtime.Task.{
  TaskEnvelope, idempotency_key, composite_key, with_retry, new_envelope, RetryPolicy, retry, dlq,
  TaskError, decide_retry,
}

-- The wall clock and the monotonic one.
pub record Clock : Type 0 where
  pub wall : ℕ
  pub monotonic : ℕ

pub record ManagedLease (I : Type 0) : Type 0 where
  pub offset : ℕ
  pub token : ℕ
  pub deadline : ℕ
  pub envelope : TaskEnvelope I

pub record EnqueueOutcome (I R : Type 0) : Type 0 where
  pub queued : Bool
  pub envelope : Option (TaskEnvelope I)
  pub cached_result : Option R

-- A line of the dead letters: the task, its attempt and the reason.
pub record DeadLetter (I : Type 0) : Type 0 where
  pub task : TaskEnvelope I
  pub attempt : ℕ
  pub reason : String

pub record TaskQueueManager (I R Q : Type 0) : Type 0 where
  pub queue : Q
  pub idempotency : IdempotencyStore R
  pub dead_letters : List (DeadLetter I)
  pub retry_policy : Option RetryPolicy
  pub default_ttl : ℕ
  pub pending_keys : Dict String String
  pub task_offsets : Dict String ℕ
  pub inflight : ℕ

-- dict.setdefault
abbrev pub setdefault : String → String → Dict String String → Dict String String
setdefault k v d = if has_key k d then d else put k v d

abbrev pub is_that : Option String → String → Bool
is_that none id = false
is_that (some other) id = other == id

-- The keys that `_clear_pending` leaves, that `_store_envelope` adds, and that a retry sets; each only
-- for a task with an idempotency key.
unfoldable pub clear_at : Option String → String → String → Dict String String → Dict String String
clear_at none key id keys = keys
clear_at (some _) key id keys = if is_that (lookup key keys) id then without key keys else keys

unfoldable pub add_at : Option String → String → String → Dict String String → Dict String String
add_at none key id keys = keys
add_at (some _) key id keys = setdefault key id keys

unfoldable pub set_at : Option String → String → String → Dict String String → Dict String String
set_at none key id keys = keys
set_at (some _) key id keys = put key id keys

module _ {I : Type 0} where
  abbrev pub clear_key : TaskEnvelope I → Dict String String → Dict String String
  clear_key e keys = clear_at (idempotency_key e) (composite_key e) e.task_id keys

  abbrev pub add_key : TaskEnvelope I → Dict String String → Dict String String
  add_key e keys = add_at (idempotency_key e) (composite_key e) e.task_id keys

  abbrev pub set_key : TaskEnvelope I → Dict String String → Dict String String
  set_key e keys = set_at (idempotency_key e) (composite_key e) e.task_id keys

  abbrev pub managed : LeasedTask (TaskEnvelope I) → ManagedLease I
  managed t = record {
    offset = t.offset;
    token = t.token;
    deadline = t.lease_deadline;
    envelope = t.task;
  }

module _ {I R Q : Type 0} (ops : WorkQueueOps (TaskEnvelope I) Q) where
  -- The default is at least a minute.
  unfoldable pub new_task_manager :
      Q → IdempotencyStore R → Option RetryPolicy → ℕ → TaskQueueManager I R Q
  new_task_manager q store policy default_ttl = record {
    queue = q;
    idempotency = store;
    dead_letters = [];
    retry_policy = policy;
    default_ttl = if ltb default_ttl 60 then 60 else default_ttl;
    pending_keys = [];
    task_offsets = [];
    inflight = 0;
  }

  unfoldable pub store_envelope :
      Clock → TaskEnvelope I → TaskQueueManager I R Q → TaskQueueManager I R Q
  store_envelope clock e m =
      let (offset, q) = ops.put_task clock.wall clock.monotonic e m.queue in
      record m {
        queue = q;
        task_offsets = put e.task_id offset m.task_offsets;
        pending_keys = add_key e m.pending_keys;
      }

  unfoldable pub clear_pending : TaskEnvelope I → TaskQueueManager I R Q → TaskQueueManager I R Q
  clear_pending e m = record m { pending_keys = clear_key e m.pending_keys }

  -- `enqueue` of a task with an idempotency key.
  unfoldable pub enqueue_keyed :
      Clock → TaskEnvelope I → TaskQueueManager I R Q → EnqueueOutcome I R × TaskQueueManager I R Q
  enqueue_keyed clock e m =
      let (cached, store) = get clock.monotonic (composite_key e) m.idempotency in
      let m' = record m { idempotency = store } in
      elim cached [
        | some r ↦ (record { queued = false; envelope = none; cached_result = some r }, m')
        | none ↦ elim (lookup (composite_key e) m.pending_keys) [
          | some _ ↦ (record { queued = false; envelope = none; cached_result = none }, m')
          | none ↦ (
            record { queued = true; envelope = some e; cached_result = none },
            store_envelope clock e
                (record m' { pending_keys = put (composite_key e) e.task_id m.pending_keys }),
          )
        ]
      ]

  unfoldable pub enqueue_envelope :
      Clock → TaskEnvelope I → TaskQueueManager I R Q → EnqueueOutcome I R × TaskQueueManager I R Q
  enqueue_envelope clock e m = elim (idempotency_key e) [
    | none ↦ (
      record { queued = true; envelope = some e; cached_result = none },
      store_envelope clock e m,
    )
    | some _ ↦ enqueue_keyed clock e m
  ]

  -- `task_id` is the uuid drawn.
  unfoldable pub enqueue :
      Clock
      → String
      → String
      → I
      → Dict String (Option String)
      → I
      → TaskQueueManager I R Q
      → EnqueueOutcome I R × TaskQueueManager I R Q
  enqueue clock task_id flow_id input headers trace m =
      enqueue_envelope clock (new_envelope task_id clock.wall flow_id input headers trace) m

  unfoldable pub lease_tasks :
      Clock → ℕ → ℕ → TaskQueueManager I R Q → List (ManagedLease I) × TaskQueueManager I R Q
  lease_tasks clock count lease_ms m =
      let (leased, q) = ops.lease clock.monotonic count lease_ms m.queue in
      (map managed leased, record m { queue = q; inflight = m.inflight + length leased })

  -- `ack` with clear_pending off
  unfoldable pub take_off : ManagedLease I → TaskQueueManager I R Q → TaskQueueManager I R Q
  take_off l m = record m {
    queue = ops.ack l.offset l.token m.queue;
    inflight = m.inflight - 1;
    task_offsets = without l.envelope.task_id m.task_offsets;
  }

  unfoldable pub ack_lease : ManagedLease I → TaskQueueManager I R Q → TaskQueueManager I R Q
  ack_lease l m = clear_pending l.envelope (take_off l m)

  unfoldable pub nack_lease :
      Clock → ManagedLease I → Bool → TaskQueueManager I R Q → TaskQueueManager I R Q
  nack_lease clock l requeue m =
      let m' = record m {
        queue = ops.nack clock.monotonic l.offset l.token requeue m.queue;
        inflight = m.inflight - 1;
        task_offsets = without l.envelope.task_id m.task_offsets;
      } in
      if requeue then m' else clear_pending l.envelope m'

  unfoldable pub record_task_result :
      Clock → TaskEnvelope I → R → Option ℕ → TaskQueueManager I R Q → TaskQueueManager I R Q
  record_task_result clock e result ttl m =
      let ttl_value : ℕ = elim ttl [ none ↦ m.default_ttl | some t ↦ t ] in
      clear_pending e (record m {
        idempotency = remember clock.monotonic (composite_key e) result ttl_value m.idempotency;
      })

  unfoldable pub get_cached_result :
      Clock → TaskEnvelope I → TaskQueueManager I R Q → Option R × TaskQueueManager I R Q
  get_cached_result clock e m =
      let (cached, store) = get clock.monotonic (composite_key e) m.idempotency in
      (cached, record m { idempotency = store })

  unfoldable pub set_pending : TaskEnvelope I → TaskQueueManager I R Q → TaskQueueManager I R Q
  set_pending e m = record m { pending_keys = set_key e m.pending_keys }

  unfoldable pub record_retry :
      Clock → ManagedLease I → ℕ → TaskQueueManager I R Q → TaskEnvelope I × TaskQueueManager I R Q
  record_retry clock l delay m =
      let e = with_retry (suc l.envelope.attempt) (clock.wall + delay) l.envelope in
      (e, set_pending e (store_envelope clock e (take_off l m)))

  unfoldable pub record_dead_letter :
      ManagedLease I → String → TaskQueueManager I R Q → TaskQueueManager I R Q
  record_dead_letter l reason m =
      let m' = ack_lease l m in
      record m' {
        dead_letters =
            m'.dead_letters
            ++ (record { task = l.envelope; attempt = suc l.envelope.attempt; reason = reason }
                ∷ []);
      }

  unfoldable pub handle_failure :
      Clock → ManagedLease I → TaskError → TaskQueueManager I R Q → TaskQueueManager I R Q
  handle_failure clock l error m = elim m.retry_policy [
    | none ↦ record_dead_letter l "no_policy" m
    | some policy ↦ elim (decide_retry policy l.envelope.flow_id (suc l.envelope.attempt) error) [
      | retry delay ↦ (record_retry clock l delay m).1
      | dlq reason ↦ record_dead_letter l reason m
    ]
  ]
