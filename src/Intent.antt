-- ===== src/Intent.antt =====
-- The design sessions of tm/intent: the contract of the loop (DesignLoop), the hash-chained journal
-- (Journal), the consistency gate (Gate) and the transitions of a session (Session).
pub mod DesignLoop
pub mod Journal
pub mod Gate
pub mod Session
mod Examples
