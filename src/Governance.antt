-- ===== src/Governance.antt =====
-- The limits of tm/governance: sums over a sliding time window (Window), the circuit breaker
-- (Breaker), the rate and concurrency limit (Rate), the budgets (Budget), and the approvals of people
-- (Approvals).
pub mod Window
pub mod Approvals
pub mod Breaker
pub mod Rate
pub mod Budget
mod Examples
