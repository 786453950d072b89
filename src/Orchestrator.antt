-- ===== src/Orchestrator.antt =====
-- The application of a configuration to the data plane (internal/orchestrator).
pub mod Executor
pub mod Ports
pub mod Actions
pub mod Steps
pub mod Plan
pub mod Planned
pub mod Reversal
pub mod Report
pub mod Atomic
mod Tests
