-- ===== src/Engine/Tests.antt =====
-- Runs of the engine on small data, and the theorems applied to them.
pub mod Setup
mod Commits
mod Sessions
mod Revisions
