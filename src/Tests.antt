-- ===== src/Tests.antt =====
-- The theorems at concrete inputs.
pub mod Data
pub mod Rewards
pub mod Manifest
pub mod Publish
pub mod Agents
pub mod Runner
pub mod Workers
pub mod Guards
pub mod RiskGuard
