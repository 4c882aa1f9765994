-- ===== src/Runtime/Protocol.antt =====
-- `WorkQueue` of tm/runtime/queue/base.py: what the task manager asks of a work queue.
use trace_mind.Prelude.{
  ℕ, Bool, true, false, ◌≡◌, Option, none, some, List, if◌then◌else◌, ◌==◌, nat_HasEq,
}
use trace_mind.Runtime.Queue.{LeasedTask}

-- The operations on a queue `Q` of tasks `T`: `put` is given the two clocks, the others the monotonic
-- one. `held` and `accepts` are the view of a queue: its tasks by offset, and the tokens it takes.
pub record WorkQueueOps (T Q : Type 0) : Type 0 where
  pub put_task : ℕ → ℕ → T → Q → ℕ × Q
  pub lease : ℕ → ℕ → ℕ → Q → List (LeasedTask T) × Q
  pub ack : ℕ → ℕ → Q → Q
  pub nack : ℕ → ℕ → ℕ → Bool → Q → Q
  pub held : Q → ℕ → Option T
  pub accepts : Q → ℕ → ℕ → Bool

-- What a queue promises, while it is well-formed.
pub record IsWorkQueue {T Q : Type 0} (ops : WorkQueueOps T Q) (IsOk : Q → Type 0) : Type 0 where
  pub put_ok : (wall now : ℕ) (t : T) (q : Q) → IsOk q → IsOk (ops.put_task wall now t q).1
  pub lease_ok : (now count duration : ℕ) (q : Q) → IsOk q → IsOk (ops.lease now count duration q).1
  pub ack_ok : (i k : ℕ) (q : Q) → IsOk q → IsOk (ops.ack i k q)
  pub nack_ok : (now i k : ℕ) (requeue : Bool) (q : Q) → IsOk q → IsOk (ops.nack now i k requeue q)
  pub put_fresh :
      (wall now : ℕ) (t : T) (q : Q) → IsOk q → ops.held q (ops.put_task wall now t q).0 ≡ none
  pub put_held :
      (wall now : ℕ) (t : T) (q : Q) (j : ℕ)
      → ops.held (ops.put_task wall now t q).1 j
        ≡ (if (ops.put_task wall now t q).0 == j then some t else ops.held q j)
  pub lease_held :
      (now count duration : ℕ) (q : Q) (j : ℕ)
      → IsOk q
      → ops.held (ops.lease now count duration q).1 j ≡ ops.held q j
  pub ack_held :
      (i k : ℕ) (q : Q) (j : ℕ)
      → ops.accepts q i k ≡ true
      → ops.held (ops.ack i k q) j ≡ (if i == j then none else ops.held q j)
  pub ack_refused : (i k : ℕ) (q : Q) → ops.accepts q i k ≡ false → ops.ack i k q ≡ q
  pub nack_held :
      (now i k : ℕ) (requeue : Bool) (q : Q) (j : ℕ)
      → ops.accepts q i k ≡ true
      → ops.held (ops.nack now i k requeue q) j
        ≡ (if requeue then ops.held q j else if i == j then none else ops.held q j)
  pub nack_refused :
      (now i k : ℕ) (requeue : Bool) (q : Q)
      → ops.accepts q i k ≡ false
      → ops.nack now i k requeue q ≡ q
