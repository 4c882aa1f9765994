-- ===== src/Verify/Ctl.antt =====
-- tm/verify/ctl.py: the formulas (Syntax), the least fixpoints (Fixpoint), the sets of states
-- (Sat), what a formula means (Meaning), that the sets are what the formulas mean (Correct), and the
-- tokens and the parser of formulas (Tokens, Parser).
pub mod Syntax
pub mod Fixpoint
pub mod Sat
pub mod Meaning
pub mod Until
pub mod Operators
pub mod Temporal
pub mod Correct
pub mod Tokens
pub mod Parser
mod Tests
