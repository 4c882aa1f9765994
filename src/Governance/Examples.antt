-- ===== src/Governance/Examples.antt =====
-- Runs of the limits: a window of ten ticks, a breaker that trips at two failures, one call at a time.
use trace_mind.Prelude.{
  ℕ, ◌+◌, ◌≤◌, ◌<◌, ◌≡◌, refl, true, false, none, some, List, [], ◌∷◌, arith, ◌↔◌, ◌⊎◌, nat_HasEq,
}
use trace_mind.Governance.Window.{RollingEntry, new_window, total, recent}
use trace_mind.Governance.Window.Sums.{observe_all, total-observe_all}
use trace_mind.Governance.Breaker.{
  circuit_closed, circuit_open, BreakerSettings, CircuitBreaker, new_breaker, can_execute,
  record_success, record_failure,
}
use trace_mind.Governance.Breaker.Cycle.{
  IsValid, fails, new, move, Runs-IsValid, open_allows_iff, failure_then_refused,
  success_then_allowed, closed_refuses_iff,
}
use trace_mind.Governance.Rate.{
  LimitSettings, RateTracker, new_tracker, check_and_reserve, reserves, concurrency_bounded,
}
use trace_mind.Governance.Rate.{new as fresh_tracker, use_again}
use trace_mind.Governance.Budget.{BudgetTracker, new_budget}

abbrev entry : ℕ → ℕ → RollingEntry
entry t v = record { timestamp = t; value = v }

abbrev events : List RollingEntry
events = entry 1 5 ∷ entry 4 2 ∷ entry 9 3 ∷ []

total-observe_all_example : (total 12 (observe_all events (new_window 10))).0 ≡ recent 10 12 events
total-observe_all_example =
    total-observe_all 10 12 events (omega arith)
      (omega arith, (omega arith, (omega arith, omega arith)))

five : recent 10 12 events ≡ 5
five = refl

abbrev settings : BreakerSettings
settings = record {
  enabled = true;
  window_sec = 30;
  failure_threshold = 2;
  timeout_threshold = 0;
  cooldown_sec = 30;
  half_open_max_calls = 1;
}

abbrev once_failed : CircuitBreaker
once_failed = record_failure settings 1 false (new_breaker settings)

abbrev tripped : CircuitBreaker
tripped = record_failure settings 2 false once_failed

abbrev probing : CircuitBreaker
probing = (can_execute settings 40 tripped).1

Runs-IsValid_example : IsValid settings tripped
Runs-IsValid_example =
    Runs-IsValid settings tripped (move (move new (fails 1 false refl)) (fails 2 false refl))

open_allows_iff_example :
    ((can_execute settings 20 tripped).0.allowed ≡ true) ↔ (2 + settings.cooldown_sec ≤ 20)
unfolding record_failure new_breaker
open_allows_iff_example = open_allows_iff settings tripped 2 20 refl refl refl

failure_then_refused_example :
    (can_execute settings 50 (record_failure settings 41 true probing)).0.allowed ≡ false
unfolding record_failure new_breaker can_execute
failure_then_refused_example =
    failure_then_refused settings probing 41 50 true refl refl (omega arith)

success_then_allowed_example :
    ((record_success settings 41 probing).state ≡ circuit_closed)
    × ((can_execute settings 42 (record_success settings 41 probing)).0.allowed ≡ true)
unfolding record_failure new_breaker can_execute
success_then_allowed_example =
    success_then_allowed settings probing 41 42 refl (λ same. absurd (ground (arith, same)))

closed_refuses_iff_example :
    (((can_execute settings 3 once_failed).0.allowed ≡ false) ↔ (
      ((0 < settings.failure_threshold)
        × (settings.failure_threshold ≤ (total 3 once_failed.failures).0))
      ⊎ ((0 < settings.timeout_threshold)
          × (settings.timeout_threshold ≤ (total 3 once_failed.timeouts).0))))
    × ((can_execute settings 3 once_failed).0.allowed ≡ false
        → ((can_execute settings 3 once_failed).1.state ≡ circuit_open)
          × ((can_execute settings 3 once_failed).1.opened_at ≡ some 3))
unfolding record_failure new_breaker
closed_refuses_iff_example = closed_refuses_iff settings once_failed 3 refl refl

abbrev limits : LimitSettings
limits = record {
  enabled = true;
  qps = some 5;
  concurrency = some 1;
  tokens_per_min = some 100;
  cost_per_hour = none;
}

abbrev tracker : RateTracker
tracker = (check_and_reserve limits 3 (new_tracker limits 1)).1

concurrency_bounded_example : tracker.active + tracker.pending ≤ 1
concurrency_bounded_example =
    concurrency_bounded limits 1 1 refl refl tracker (use_again fresh_tracker (reserves 3 refl))

abbrev budget : BudgetTracker
budget = new_budget limits 60 3600
