-- ===== src/Governance/Breaker/Cycle.antt =====
-- The cycle of a circuit breaker (tm/governance/breaker.py): what its states promise.
use trace_mind.Prelude.{
  ℕ, ◌+◌, ◌≤◌, ◌<◌, ◌≡◌, ◌≢◌, ◌↔◌, ◌⊎◌, refl, Bool, true, false, Option, none, some, arith,
  nat_HasEq,
}
use trace_mind.Governance.Window.{RollingWindow, total, reset, prune}
use trace_mind.Governance.Breaker.{
  BreakerState, circuit_closed, circuit_open, half_open, BreakerSettings, CircuitBreaker,
  at_least_one, new_breaker, trip, transition_to_half_open, close, timeouts_trip, should_trip,
  probe, can_execute, record_success, note_failure, record_failure, release_half_open_slot,
}

abbrev pub is_open : BreakerState → Bool
is_open circuit_open = true
is_open _ = false

abbrev pub is_half_open : BreakerState → Bool
is_half_open half_open = true
is_half_open _ = false

abbrev pub is_some : Option ℕ → Bool
is_some none = false
is_some (some t) = true

-- Calls are in flight only in a half-open breaker, and then within the limit; an open one has its time.
pub record IsValid (settings : BreakerSettings) (b : CircuitBreaker) : Type 0 where
  pub idle : is_half_open b.state ≡ false → b.half_open_inflight ≡ 0
  pub bounded : b.half_open_inflight ≤ at_least_one settings.half_open_max_calls
  pub timed : is_open b.state ≡ true → is_some b.opened_at ≡ true

-- One call of an operation, at some time.
pub data Move (settings : BreakerSettings) (b b' : CircuitBreaker) : Type 0 where
  asks : (now : ℕ) → b' ≡ (can_execute settings now b).1 → Move settings b b'
  succeeds : (now : ℕ) → b' ≡ record_success settings now b → Move settings b b'
  fails :
      (now : ℕ) (timeout : Bool) → b' ≡ record_failure settings now timeout b → Move settings b b'
  releases : b' ≡ release_half_open_slot settings b → Move settings b b'

pub data Runs (settings : BreakerSettings) : CircuitBreaker → Type 0 where
  new : Runs settings (new_breaker settings)
  move : {b b' : CircuitBreaker} → Runs settings b → Move settings b b' → Runs settings b'

module _ (settings : BreakerSettings) where
  -- A test of the thresholds changes only the windows.
  should_trip-same :
      (now : ℕ) (b : CircuitBreaker)
      → ((should_trip settings now b).1.state ≡ b.state)
        × ((should_trip settings now b).1.opened_at ≡ b.opened_at)
        × ((should_trip settings now b).1.half_open_inflight ≡ b.half_open_inflight)
  unfolding should_trip timeouts_trip
  should_trip-same now b = (ground arith, ground arith, ground arith)

  can_execute-IsValid :
      (now : ℕ) (b : CircuitBreaker)
      → IsValid settings b
      → IsValid settings (can_execute settings now b).1
  unfolding can_execute trip transition_to_half_open probe
  can_execute-IsValid now b v =
      let same = should_trip-same now b in
      record {
        idle = λ h. ground (arith, v.idle, same.0, same.2);
        bounded = ground (arith, v.bounded, v.idle, same.0, same.2);
        timed = λ h. ground (arith, v.timed, same.0, same.1);
      }

  success-IsValid :
      (now : ℕ) (b : CircuitBreaker)
      → IsValid settings b
      → IsValid settings (record_success settings now b)
  unfolding record_success close
  success-IsValid now b v = record {
    idle = λ h. ground (arith, v.idle);
    bounded = ground (arith, v.bounded);
    timed = λ h. ground (arith, v.timed);
  }

  failure-IsValid :
      (now : ℕ) (timeout : Bool) (b : CircuitBreaker)
      → IsValid settings b
      → IsValid settings (record_failure settings now timeout b)
  unfolding record_failure trip note_failure
  failure-IsValid now timeout b v =
      let same = should_trip-same now (note_failure settings now timeout b) in
      record {
        idle = λ h. ground (arith, v.idle, same.0, same.2);
        bounded = ground (arith, v.bounded, same.0, same.2);
        timed = λ h. ground (arith, v.timed, same.0, same.1);
      }

  release-IsValid :
      (b : CircuitBreaker)
      → IsValid settings b
      → IsValid settings (release_half_open_slot settings b)
  unfolding release_half_open_slot
  release-IsValid b v = record {
    idle = λ h. ground (arith, v.idle);
    bounded = ground (arith, v.bounded);
    timed = λ h. ground (arith, v.timed);
  }

  Move-IsValid :
      (b b' : CircuitBreaker) → IsValid settings b → Move settings b b' → IsValid settings b'
  Move-IsValid b b' v (asks now e) = rw e (can_execute-IsValid now b v)
  Move-IsValid b b' v (succeeds now e) = rw e (success-IsValid now b v)
  Move-IsValid b b' v (fails now timeout e) = rw e (failure-IsValid now timeout b v)
  Move-IsValid b b' v (releases e) = rw e (release-IsValid b v)

new_breaker-IsValid : (settings : BreakerSettings) → IsValid settings (new_breaker settings)
unfolding new_breaker
new_breaker-IsValid settings = record {
  idle = λ h. refl;
  bounded = omega arith;
  timed = λ h. absurd (ground arith);
}

-- Whatever calls were made since it was new, a breaker has calls in flight only when it is half open, never
-- more than the limit (at least one), and an open breaker has the time at which it opened.
pub Runs-IsValid :
    (settings : BreakerSettings) (b : CircuitBreaker) → Runs settings b → IsValid settings b
Runs-IsValid settings b new = new_breaker-IsValid settings
Runs-IsValid settings b' (move {b = b} r m) =
    Move-IsValid settings b b' (Runs-IsValid settings b r) m

-- An enabled breaker that opened at t allows a call exactly from the end of the cooldown on.
pub open_allows_iff :
    (settings : BreakerSettings) (b : CircuitBreaker) (t now : ℕ)
    → settings.enabled ≡ true
    → b.state ≡ circuit_open
    → b.opened_at ≡ some t
    → ((can_execute settings now b).0.allowed ≡ true) ↔ (t + settings.cooldown_sec ≤ now)
unfolding can_execute probe transition_to_half_open
open_allows_iff settings b t now on is_open at = (λ h. ground arith, λ h. ground arith)

-- After a failure of either kind while it is half open, an enabled breaker refuses all calls until the
-- cooldown has passed since the failure.
pub failure_then_refused :
    (settings : BreakerSettings) (b : CircuitBreaker) (now later : ℕ) (timeout : Bool)
    → settings.enabled ≡ true
    → b.state ≡ half_open
    → later < now + settings.cooldown_sec
    → (can_execute settings later (record_failure settings now timeout b)).0.allowed ≡ false
unfolding can_execute record_failure note_failure trip
failure_then_refused settings b now later timeout on half soon = ground arith

total-reset : (now : ℕ) (w : RollingWindow) → (total now (reset w)).0 ≡ 0
unfolding total reset prune
total-reset now w = ground arith

-- After a success while it is open or half open, an enabled breaker is closed and allows the next
-- call at any time: the failures before are forgotten.
pub success_then_allowed :
    (settings : BreakerSettings) (b : CircuitBreaker) (now later : ℕ)
    → settings.enabled ≡ true
    → b.state ≢ circuit_closed
    → ((record_success settings now b).state ≡ circuit_closed)
      × ((can_execute settings later (record_success settings now b)).0.allowed ≡ true)
unfolding can_execute record_success close should_trip timeouts_trip
success_then_allowed settings b now later on not_closed =
    let f = total-reset later b.failures in
    let t = total-reset later b.timeouts in (ground arith, ground arith)

-- A closed breaker that is enabled refuses a call exactly if the failures or the timeouts of the
-- window have reached their threshold, where a threshold of zero does not count; it opens then.
pub closed_refuses_iff :
    (settings : BreakerSettings) (b : CircuitBreaker) (now : ℕ)
    → settings.enabled ≡ true
    → b.state ≡ circuit_closed
    → (((can_execute settings now b).0.allowed ≡ false) ↔ (
        ((0 < settings.failure_threshold) × (settings.failure_threshold ≤ (total now b.failures).0))
        ⊎ ((0 < settings.timeout_threshold)
            × (settings.timeout_threshold ≤ (total now b.timeouts).0))))
      × ((can_execute settings now b).0.allowed ≡ false
          → ((can_execute settings now b).1.state ≡ circuit_open)
            × ((can_execute settings now b).1.opened_at ≡ some now))
unfolding can_execute should_trip timeouts_trip trip
closed_refuses_iff settings b now on shut =
    ((λ h. ground arith, λ h. ground arith), λ h. (ground arith, ground arith))
