-- ===== src/Runner.antt =====
-- agent-runner/src/index.js: the worker that runs the agents, from their policy to a batch of calls.
pub mod Values
pub mod Policy
pub mod RiskGuard
pub mod HealthActions
pub mod Batch
pub mod Conditions
pub mod Build
pub mod Ledger
pub mod Concurrency
pub mod Receipts
pub mod Permissions
