-- ===== src/Runtime.antt =====
-- The task runtime of tm/runtime: the work queue in memory (Queue), the caches of earlier results
-- (Idempotency), tasks and retries (Task), and the manager of tasks (Manager) over any work queue
-- (Protocol).
pub mod Queue
pub mod Idempotency
pub mod Task
pub mod Protocol
pub mod Manager
mod Examples
