-- ===== src/Intent/Session.antt =====
-- tm/intent/session.py: what a session is (State, Text), its transitions (Moves, Seal), the audit of its
-- clarifications (Audit), and what they do and keep (Effects, Valid,
-- Reach, Closed).
pub mod State
pub mod Text
pub mod Moves
pub mod Audit
pub mod Seal
pub mod Effects
pub mod Valid
pub mod Reach
pub mod Closed
