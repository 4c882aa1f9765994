-- ===== src/Governance/Breaker.antt =====
-- CircuitBreaker of tm/governance/breaker.py. A negative threshold or limit is 0, times are ticks.
pub mod Cycle
use trace_mind.Prelude.{
  ℕ, zero, suc, ◌+◌, ◌-◌, ◌≤◌, ◌<◌, ◌≡◌, refl, Bool, true, false, not, ◌&&◌, ◌||◌, Option, none,
  some, arith, if◌then◌else◌, ◌==◌, nat_HasEq, leb, ltb,
}
use trace_mind.Governance.Window.{RollingWindow, new_window, observe, total, reset}

pub data BreakerState : Type 0 where
  circuit_closed circuit_open half_open : BreakerState

pub record BreakerSettings : Type 0 where
  pub enabled : Bool
  pub window_sec : ℕ
  pub failure_threshold : ℕ
  pub timeout_threshold : ℕ
  pub cooldown_sec : ℕ
  pub half_open_max_calls : ℕ

-- The reason of a refusal is always CIRCUIT_OPEN.
pub record BreakerDecision : Type 0 where
  pub allowed : Bool
  pub state : BreakerState

pub record CircuitBreaker : Type 0 where
  pub failures : RollingWindow
  pub timeouts : RollingWindow
  pub state : BreakerState
  pub opened_at : Option ℕ
  pub half_open_inflight : ℕ

abbrev pub at_least_one : ℕ → ℕ
at_least_one zero = 1
at_least_one (suc n) = suc n

module _ (settings : BreakerSettings) where
  unfoldable pub new_breaker : CircuitBreaker
  unfolding new_window
  new_breaker = record {
    failures = new_window settings.window_sec;
    timeouts = new_window settings.window_sec;
    state = circuit_closed;
    opened_at = none;
    half_open_inflight = 0;
  }

  unfoldable pub trip : ℕ → CircuitBreaker → CircuitBreaker
  trip now b = record b { state = circuit_open; opened_at = some now; half_open_inflight = 0 }

  unfoldable pub transition_to_half_open : CircuitBreaker → CircuitBreaker
  transition_to_half_open b = record b { state = half_open; half_open_inflight = 0 }

  -- _reset
  unfoldable pub close : CircuitBreaker → CircuitBreaker
  unfolding reset
  close b = record b {
    state = circuit_closed;
    opened_at = none;
    half_open_inflight = 0;
    failures = reset b.failures;
    timeouts = reset b.timeouts;
  }

  -- The second test of `_should_trip`, which the first one may leave out.
  unfoldable pub timeouts_trip : ℕ → CircuitBreaker → Bool × CircuitBreaker
  unfolding total
  timeouts_trip now b =
      let t = total now b.timeouts in
      if settings.timeout_threshold == 0
      then (false, b)
      else (leb settings.timeout_threshold t.0, record b { timeouts = t.1 })

  unfoldable pub should_trip : ℕ → CircuitBreaker → Bool × CircuitBreaker
  unfolding total timeouts_trip
  should_trip now b =
      let f = total now b.failures in
      let seen = record b { failures = f.1 } in
      if settings.failure_threshold == 0
      then timeouts_trip now b
      else if leb settings.failure_threshold f.0
      then (true, seen)
      else timeouts_trip now seen

  unfoldable pub probe : CircuitBreaker → BreakerDecision × CircuitBreaker
  probe b =
      if leb (at_least_one settings.half_open_max_calls) b.half_open_inflight
      then (record { allowed = false; state = b.state }, b)
      else (
        record { allowed = true; state = b.state },
        record b { half_open_inflight = b.half_open_inflight + 1 },
      )

  -- `now - opened_at >= cooldown` is written with a sum.
  unfoldable pub can_execute : ℕ → CircuitBreaker → BreakerDecision × CircuitBreaker
  unfolding trip transition_to_half_open should_trip probe
  can_execute now b =
      let tripped = should_trip now b in
      let refused : BreakerDecision = record { allowed = false; state = circuit_open } in
      if not settings.enabled
      then (record { allowed = true; state = circuit_closed }, b)
      else elim b.state [
        | circuit_open ↦ elim b.opened_at [
          | none ↦ (refused, record b { opened_at = some now })
          | some t ↦
              if leb (t + settings.cooldown_sec) now
              then probe (transition_to_half_open b)
              else (refused, b)
        ]
        | half_open ↦ probe b
        | circuit_closed ↦
            if tripped.0
            then (refused, trip now tripped.1)
            else (record { allowed = true; state = circuit_closed }, tripped.1)
      ]

  unfoldable pub record_success : ℕ → CircuitBreaker → CircuitBreaker
  unfolding close total
  record_success now b = if not settings.enabled then b else elim b.state [
    | half_open ↦ close b
    | circuit_closed ↦ record b {
      failures = (total now b.failures).1;
      timeouts = (total now b.timeouts).1;
    }
    | circuit_open ↦ close b
  ]

  -- The failure, in the window of its kind.
  unfoldable pub note_failure : ℕ → Bool → CircuitBreaker → CircuitBreaker
  unfolding observe
  note_failure now timeout b =
      if timeout
      then record b { timeouts = observe 1 now b.timeouts }
      else record b { failures = observe 1 now b.failures }

  unfoldable pub record_failure : ℕ → Bool → CircuitBreaker → CircuitBreaker
  unfolding note_failure should_trip trip
  record_failure now timeout b =
      let noted = note_failure now timeout b in
      let tripped = should_trip now noted in
      if not settings.enabled then b else elim noted.state [
        | half_open ↦ trip now noted
        | circuit_closed ↦ if tripped.0 then trip now tripped.1 else tripped.1
        | circuit_open ↦ noted
      ]

  unfoldable pub release_half_open_slot : CircuitBreaker → CircuitBreaker
  release_half_open_slot b =
      if ltb 0 b.half_open_inflight
      then record b { half_open_inflight = b.half_open_inflight - 1 }
      else b
