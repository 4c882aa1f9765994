-- ===== src/Verify.antt =====
-- The model checker of tm/verify: states and plans (State, Selectors, Adapter), the bounded search
-- for the reachable states (Explorer), the formulas evaluated over them (Ctl), and the product of
-- components (Joint).
pub mod State
pub mod Selectors
pub mod Adapter
pub mod Explorer
pub mod Ctl
pub mod Checker
pub mod Joint
mod Examples
