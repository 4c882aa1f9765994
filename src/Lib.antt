-- ===== src/Lib.antt =====
-- TraceMind: the parts of the system that decide, modelled from its Python sources.
--
-- Verify models the model checker of a plan (tm/verify). A state (State, tm/verify/state.py) is the
-- store of known keys with the steps pending and done. The adapter of a plan (Adapter,
-- tm/verify/adapter.py) runs one enabled step; what a step writes triggers rules by selectors
-- (Selectors, tm/pipeline/selectors.py). The explorer (Explorer, tm/verify/explorer.py) searches the
-- reachable states breadth first and numbers them; formulas (Ctl, tm/verify/ctl.py) and invariants
-- (Checker, tm/verify/invariants.py) are evaluated over the numbered states. The explorer takes the
-- adapter as the record `System`, which `system_of` fills for a plan. A set of states is the list of
-- their numbers. A formula is a text that is split into tokens and parsed (Ctl/Tokens, Ctl/Parser).
-- Several components that move one at a time are one adapter (Joint, tm/verify/joint.py), which finds
-- the components' states behind a projected state by its hash, in a memo.
--
-- Intent models the design sessions (tm/intent): the steps of the loop and their gates (DesignLoop,
-- tm/intent/design_loop.py), the hash-chained journal (Journal) and the transitions of a session
-- (Session), both of tm/intent/session.py, and the consistency gate (Gate,
-- tm/intent/consistency_gate.py). A transition that raises SessionTransitionError returns the guard
-- that refused it. The hash functions are parameters.
--
-- Governance models the limits of tm/governance: the sliding window (Window, utils.py), on which the
-- circuit breaker (Breaker, breaker.py), the rate limit (Rate, ratelimit.py) and the budgets (Budget,
-- budget.py) stand. Times and amounts are natural numbers of a fixed unit where the code has floats.
-- An operation that also changes the state returns its result with the new state. Approvals models
-- the requests that wait for a person (hitl.py): each operation reads what is new in the store, a list
-- of entries, and answers or refuses; the identifiers drawn are arguments.
--
-- Runtime models the work queue in memory (Queue, tm/runtime/queue/memory.py): tasks are put, leased
-- for a time, acknowledged, given back or rescheduled. The lock makes each operation one step, and
-- the clock is an argument. The caches of results (Idempotency, tm/runtime/idempotency.py) are lists
-- of items in the order of the dictionary; their snapshot files are left out. The task manager
-- (Manager, tm/runtime/queue/manager.py) is written over the operations of a work queue (Protocol,
-- tm/runtime/queue/base.py) with the laws that it relies on; the queue in memory is an instance
-- (Queue/Protocol). A task that fails is tried again as the policy says (Task, tm/runtime/retry.py).
--
-- Pipeline models the engine that runs a plan (tm/pipeline/engine.py): the rules that the changed
-- paths trigger, their steps over a context of any type, and the spans and records that a run tells.
-- The clock, the copy of the context and the matcher are parameters.
--
-- Loops: the search takes fuel, one unit for each state that leaves the queue; `Explorer.Ends.rounds`
-- bounds what it needs. The least fixed points of the formulas run one pass more than there are
-- states, after which nothing changes. The parser has three units for each token and three more; each
-- nested call of it takes one. `path_to` has one unit of fuel for each predecessor and one more.
--
-- Not modelled: the texts of errors and reports, files, clocks and locks; metrics and the audit trail;
-- the delays between retries, which are a parameter; the hash functions and the
-- completeness check of a session, which are parameters.
pub mod Prelude
pub mod Verify
pub mod Intent
pub mod Governance
pub mod Runtime
pub mod Pipeline
