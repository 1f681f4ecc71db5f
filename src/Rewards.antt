-- ===== src/Rewards.antt =====
-- The reward pipeline of scripts/: what an epoch may pay, who gets how much, and the manifest.
pub mod Types
pub mod Scan
pub mod Budget
pub mod Allocate
pub mod Generate
pub mod Merkle
pub mod Manifest
pub mod Validate
pub mod Queue
pub mod Activate
