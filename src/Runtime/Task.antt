-- ===== src/Runtime/Task.antt =====
-- tm/runtime/task.py and tm/runtime/retry.py: the tasks of the queue, and whether a task that failed
-- is tried again. Times are milliseconds. `I` is the input of a task; of a header that is no text
-- only its presence is kept.
use trace_mind.Prelude.{
  ℕ, Bool, false, ◌||◌, Option, none, some, String, if◌then◌else◌, ◌==◌, nat_HasEq, text_HasEq, leb,
  Dict, lookup, without,
}

pub record TaskEnvelope (I : Type 0) : Type 0 where
  pub task_id : String
  pub flow_id : String
  pub input : I
  pub headers : Dict String (Option String)
  pub attempt : ℕ
  pub scheduled_at : ℕ
  pub trace : I

abbrev non_empty : String → Option String
non_empty String.[] = none
non_empty (String.◌∷◌ c s) = some (String.◌∷◌ c s)

module _ {I : Type 0} where
  unfoldable pub idempotency_key : TaskEnvelope I → Option String
  idempotency_key e = elim (lookup "idempotency_key" e.headers) [
    | none ↦ none
    | some none ↦ none
    | some (some value) ↦ non_empty value
  ]

  abbrev pub composite_key : TaskEnvelope I → String
  composite_key e = elim (idempotency_key e) [ none ↦ e.task_id | some key ↦ key ]

  unfoldable pub with_retry : ℕ → ℕ → TaskEnvelope I → TaskEnvelope I
  with_retry attempt scheduled_at e = record e { attempt = attempt; scheduled_at = scheduled_at }

  -- TaskEnvelope.new, with the uuid drawn and the time
  unfoldable pub new_envelope :
      String → ℕ → String → I → Dict String (Option String) → I → TaskEnvelope I
  new_envelope task_id now flow_id input headers trace = record {
    task_id = task_id;
    flow_id = flow_id;
    input = input;
    headers = without "task_id" headers;
    attempt = 0;
    scheduled_at = now;
    trace = trace;
  }

-- The delays, with their random part, are a parameter: `next_delay` of the attempt. A negative
-- dlq_after counts as none.
pub record RetrySettings : Type 0 where
  pub max_attempts : ℕ
  pub dlq_after : Option ℕ
  pub next_delay : ℕ → ℕ

pub record RetryPolicy : Type 0 where
  pub default : RetrySettings
  pub per_flow : Dict String RetrySettings

pub data RetryDecision : Type 0 where
  retry : ℕ → RetryDecision
  dlq : String → RetryDecision

-- What a policy reads of an error: whether "retryable" is False, and the code.
pub record TaskError : Type 0 where
  pub is_final : Bool
  pub error_code : Option String

unfoldable pub settings_for : RetryPolicy → String → RetrySettings
settings_for p flow_id = elim (lookup flow_id p.per_flow) [ none ↦ p.default | some s ↦ s ]

abbrev pub max_attempts_of : RetryPolicy → String → ℕ
max_attempts_of p flow_id = let n = (settings_for p flow_id).max_attempts in if n == 0 then 1 else n

abbrev is_fatal : Option String → Bool
is_fatal none = false
is_fatal (some code) = code == "POLICY_FORBIDDEN" || code == "VALIDATION_FAILED"

abbrev text_of_code : Option String → String
text_of_code none = ""
text_of_code (some code) = code

abbrev pub is_beyond : Option ℕ → ℕ → Bool
is_beyond none attempt = false
is_beyond (some n) attempt = leb n attempt

unfoldable pub decide_retry : RetryPolicy → String → ℕ → TaskError → RetryDecision
decide_retry p flow_id attempt error =
    if error.is_final
    then dlq "non_retryable"
    else if is_fatal error.error_code
    then dlq (text_of_code error.error_code)
    else if leb (max_attempts_of p flow_id) attempt
    then dlq "max_attempts"
    else if is_beyond (settings_for p flow_id).dlq_after attempt
    then dlq "dlq_after"
    else retry ((settings_for p flow_id).next_delay attempt)
