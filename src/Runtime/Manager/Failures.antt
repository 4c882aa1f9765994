-- ===== src/Runtime/Manager/Failures.antt =====
-- What a failure does to a task of tm/runtime/queue/manager.py.
use trace_mind.Prelude.{
  ℕ, zero, suc, ◌+◌, ◌<◌, ◌≤◌, ◌≡◌, refl, sym, ◌∙◌, ◌⊎◌, inl, inr, true, Option, none, some, String,
  if◌then◌else◌, ◌==◌, nat_HasEq, text_HasEq, lookup, arith, Bool-cases, Option-cases, leb,
  eq_iff_at, ap,
}
use trace_mind.Runtime.Idempotency.{IdempotencyStore}
use trace_mind.Runtime.Protocol.{WorkQueueOps, IsWorkQueue}
use trace_mind.Runtime.Task.{
  TaskEnvelope, with_retry, RetrySettings, RetryPolicy, retry, dlq, TaskError, decide_retry,
  max_attempts_of, is_beyond,
}
use trace_mind.Runtime.Manager.{
  Clock, ManagedLease, TaskQueueManager, new_task_manager, store_envelope, clear_pending, take_off,
  ack_lease, set_pending, record_retry, record_dead_letter, handle_failure,
}
use trace_mind.Runtime.Manager.Runs.{IsCurrent, Reaches, Reaches-IsDeduped, started-IsDeduped}
use trace_mind.Runtime.Task.{settings_for}
use trace_mind.Runtime.Manager.Attempts.{retry_or_not, HasAttempts, reaches-HasAttempts}

abbrev at_least_one : ℕ → ℕ
at_least_one zero = 1
at_least_one (suc n) = suc n

-- The settings of a flow, or else the default.
abbrev pub policy_of : RetryPolicy → String → RetrySettings
policy_of p flow = elim (lookup flow p.per_flow) [ none ↦ p.default | some settings ↦ settings ]

-- They allow so many attempts, and always one.
abbrev pub attempts_allowed : RetryPolicy → String → ℕ
attempts_allowed p flow = at_least_one (policy_of p flow).max_attempts

-- Why a task is given up after so many attempts: the error says that it is final or has one of two
-- codes, the attempts are used up, or the limit for dead letters is reached.
pub data GivesUp (p : RetryPolicy) (flow : String) (attempt : ℕ) (error : TaskError) : Type 0 where
  final : error.is_final ≡ true → GivesUp p flow attempt error
  forbidden : error.error_code ≡ some "POLICY_FORBIDDEN" → GivesUp p flow attempt error
  invalid : error.error_code ≡ some "VALIDATION_FAILED" → GivesUp p flow attempt error
  used_up : attempts_allowed p flow ≤ attempt → GivesUp p flow attempt error
  beyond :
      (n : ℕ) → (policy_of p flow).dlq_after ≡ some n → n ≤ attempt → GivesUp p flow attempt error

max_attempts_of-allowed :
    (p : RetryPolicy) (flow : String) → max_attempts_of p flow ≡ attempts_allowed p flow
unfolding settings_for
max_attempts_of-allowed p flow = ground arith

settings_for-policy_of : (p : RetryPolicy) (flow : String) → settings_for p flow ≡ policy_of p flow
unfolding settings_for
settings_for-policy_of p flow = refl

decide_retry-GivesUp :
    (p : RetryPolicy) (flow : String) (attempt : ℕ) (error : TaskError) (reason : String)
    → decide_retry p flow attempt error ≡ dlq reason
    → GivesUp p flow attempt error
unfolding decide_retry
decide_retry-GivesUp p flow attempt error reason h = elim (Bool-cases error.is_final) [
  | inl yes_final ↦ final yes_final
  | inr open_error ↦ elim (Bool-cases (leb (max_attempts_of p flow) attempt)) [
    | inl used ↦ used_up (rw (← max_attempts_of-allowed p flow) (ground (arith, used)))
    | inr left ↦ elim (Bool-cases (is_beyond (settings_for p flow).dlq_after attempt)) [
      | inl over ↦ elim (Option-cases (settings_for p flow).dlq_after) [
        | inl unlimited ↦ absurd (ground arith)
        | inr (n, limit) ↦
            beyond n
              (ap (λ (st : RetrySettings). st.dlq_after) (sym (settings_for-policy_of p flow))
                ∙ limit)
              (ground arith)
      ]
      | inr within ↦ elim (Option-cases error.error_code) [
        | inl no_code ↦ absurd (ground arith)
        | inr (code, has) ↦ elim (Bool-cases (code == "POLICY_FORBIDDEN")) [
          | inl same ↦ forbidden (has ∙ ap some ((eq_iff_at code "POLICY_FORBIDDEN").0 same))
          | inr other ↦ elim (Bool-cases (code == "VALIDATION_FAILED")) [
            | inl same ↦ invalid (has ∙ ap some ((eq_iff_at code "VALIDATION_FAILED").0 same))
            | inr another ↦ absurd (ground arith)
          ]
        ]
      ]
    ]
  ]
]

decide_retry-goes_on :
    (p : RetryPolicy) (flow : String) (attempt : ℕ) (error : TaskError) (delay : ℕ)
    → decide_retry p flow attempt error ≡ retry delay
    → GivesUp p flow attempt error
    → ⊥
unfolding decide_retry
decide_retry-goes_on p flow attempt error delay h (final f) = ground arith
decide_retry-goes_on p flow attempt error delay h (forbidden f) = absurd (ground arith)
decide_retry-goes_on p flow attempt error delay h (invalid f) = absurd (ground arith)
decide_retry-goes_on p flow attempt error delay h (used_up f) =
    let same = max_attempts_of-allowed p flow in ground arith
decide_retry-goes_on p flow attempt error delay h (beyond n at f) =
    let reached : is_beyond (settings_for p flow).dlq_after attempt ≡ true =
      ap (λ (st : RetrySettings). is_beyond st.dlq_after attempt) (settings_for-policy_of p flow)
      ∙ rw at (ground (arith, f)) in
    ground arith

module _ {I Q : Type 0} (ops : WorkQueueOps (TaskEnvelope I) Q) where
  -- Two queues are alike, but that the second has nothing at an offset.
  pub TakesOff : ℕ → Q → Q → Type 0
  TakesOff i q q' = (j : ℕ) → ops.held q' j ≡ (if i == j then none else ops.held q j)

  -- The task at an offset gives way to the same task at a free offset, with a time at which it is due
  -- and an attempt higher by one.
  pub Retries : ℕ → TaskEnvelope I → Q → Q → Type 0
  Retries i e q q' =
      (again : ℕ) × ((due : ℕ) × ((if i == again then none else ops.held q again) ≡ none)
        × ((j : ℕ)
            → ops.held q' j ≡ (
                if again == j
                then some (record e { attempt = suc e.attempt; scheduled_at = due })
                else if i == j
                then none
                else ops.held q j)))

  module _ {R : Type 0} (IsOk : Q → Type 0) (laws : IsWorkQueue ops IsOk) where
    ack_lease-TakesOff :
        (l : ManagedLease I) (m : TaskQueueManager I R Q)
        → IsCurrent ops IsOk laws l m
        → TakesOff l.offset m.queue (ack_lease ops l m).queue
    unfolding ack_lease clear_pending take_off TakesOff
    ack_lease-TakesOff l m (at, current) j = laws.ack_held l.offset l.token m.queue j current

    record_retry-Retries :
        (clock : Clock) (l : ManagedLease I) (delay : ℕ) (m : TaskQueueManager I R Q)
        → IsOk m.queue
        → IsCurrent ops IsOk laws l m
        → Retries l.offset l.envelope m.queue (record_retry ops clock l delay m).1.queue
    unfolding record_retry set_pending store_envelope take_off with_retry Retries
    record_retry-Retries clock l delay m ok (at, current) =
        let e : TaskEnvelope I = record l.envelope {
          attempt = suc l.envelope.attempt;
          scheduled_at = clock.wall + delay;
        } in
        let q = ops.ack l.offset l.token m.queue in
        let again = (ops.put_task clock.wall clock.monotonic e q).0 in
        let ok' = laws.ack_ok l.offset l.token m.queue ok in
        (
          again,
          (
            clock.wall + delay,
            sym (laws.ack_held l.offset l.token m.queue again current)
                ∙ laws.put_fresh clock.wall clock.monotonic e q ok',
            λ j.
                laws.put_held clock.wall clock.monotonic e q j
                ∙ rw (laws.ack_held l.offset l.token m.queue j current) refl,
          ),
        )

    handle_failure-cases :
        (clock : Clock) (l : ManagedLease I) (error : TaskError) (m : TaskQueueManager I R Q)
        (p : RetryPolicy)
        → IsOk m.queue
        → IsCurrent ops IsOk laws l m
        → m.retry_policy ≡ some p
        → (GivesUp p l.envelope.flow_id (suc l.envelope.attempt) error
            × TakesOff l.offset m.queue (handle_failure ops clock l error m).queue)
          ⊎ ((GivesUp p l.envelope.flow_id (suc l.envelope.attempt) error → ⊥)
              × Retries l.offset l.envelope m.queue (handle_failure ops clock l error m).queue)
    unfolding handle_failure record_dead_letter
    handle_failure-cases clock l error m p ok current found =
        rw (found, handle_failure)
          (elim (retry_or_not p l.envelope.flow_id (suc l.envelope.attempt) error) [
            | inl (delay, again) ↦ rw again (
                inr (
                  decide_retry-goes_on p l.envelope.flow_id (suc l.envelope.attempt) error delay
                      again,
                  record_retry-Retries clock l delay m ok current,
                ))
            | inr (reason, dropped) ↦ rw dropped (
                inl (
                  decide_retry-GivesUp p l.envelope.flow_id (suc l.envelope.attempt) error reason
                      dropped,
                  ack_lease-TakesOff l m current,
                ))
          ])

    -- With a retry policy, the attempt of a task of the queue is below what the policy allows its
    -- flow. A failure of a leased task takes it off the queue if there is a reason to give it up after
    -- that attempt: a final error, one of two codes, the attempts used up, or the limit for dead
    -- letters reached. Without such a reason it puts back the same task with an attempt higher by
    -- one. All other tasks stay. A manager starts on an empty queue, and only current leases are
    -- settled.
    pub attempts_bounded :
        (q : Q) (store : IdempotencyStore R) (policy : Option RetryPolicy) (ttl : ℕ)
        (m : TaskQueueManager I R Q)
        → IsOk q
        → ((j : ℕ) → ops.held q j ≡ none)
        → Reaches ops IsOk laws (new_task_manager ops q store policy ttl) m
        → (p : RetryPolicy) (j : ℕ) (e : TaskEnvelope I) (clock : Clock) (l : ManagedLease I)
          (error : TaskError)
        → m.retry_policy ≡ some p
        → ops.held m.queue j ≡ some e
        → IsCurrent ops IsOk laws l m
        → (e.attempt < attempts_allowed p e.flow_id)
          × ((GivesUp p l.envelope.flow_id (suc l.envelope.attempt) error
                × TakesOff l.offset m.queue (handle_failure ops clock l error m).queue)
              ⊎ ((GivesUp p l.envelope.flow_id (suc l.envelope.attempt) error → ⊥)
                  × Retries l.offset l.envelope m.queue (handle_failure ops clock l error m).queue))
    unfolding new_task_manager
    attempts_bounded q store policy ttl m ok empty r p j e clock l error found at current =
        let start : HasAttempts ops IsOk laws (new_task_manager ops q store policy ttl) = record {
          bounded = λ p j e same at. let nothing = empty j in cc;
        } in
        let deduped = started-IsDeduped ops IsOk laws q store policy ttl ok empty in
        let kept = reaches-HasAttempts ops IsOk laws r deduped start in
        let ok' = (Reaches-IsDeduped ops IsOk laws r deduped).ok in
        (
          rw (← max_attempts_of-allowed p e.flow_id) (kept.bounded p j e found at),
          handle_failure-cases clock l error m p ok' current found,
        )
