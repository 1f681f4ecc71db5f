-- ===== src/AgentDb.antt =====
-- agent-db/src/index.js: the worker that keeps the agents' tables.
pub mod Args
pub mod Tasks
pub mod Claims
pub mod Locks
pub mod Nonces
pub mod Keys
