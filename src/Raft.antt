-- ===== src/Raft.antt =====
-- src/raft: the core, its hard-state storage and its runtime.
pub mod Types
pub mod Peers
pub mod Core
pub mod Terms
pub mod Votes
pub mod Elections
pub mod Commit
pub mod Majorities
pub mod Appends
pub mod Bounds
pub mod Conflicts
pub mod Failures
pub mod Replicated
pub mod Storage
pub mod Runtime
pub mod Cluster
pub mod Examples
pub mod Scenarios
pub mod Tests
