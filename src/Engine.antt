-- ===== src/Engine.antt =====
-- The configuration transaction engine (internal/config).
pub mod Types
pub mod Db
pub mod HighRisk
pub mod Checks
pub mod State
pub mod Lifecycle
pub mod Candidate
pub mod Commit
pub mod History
pub mod Keeps
pub mod Frame
pub mod Guards
pub mod Requests
pub mod Numbered
pub mod Owned
pub mod OwnedRuns
pub mod Healthy
pub mod Swept
pub mod Reads
pub mod Outcome
pub mod Commits
pub mod Confirmed
pub mod Exclusion
pub mod Locks
pub mod Revisions
pub mod Tests
