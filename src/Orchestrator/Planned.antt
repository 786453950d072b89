-- ===== src/Orchestrator/Planned.antt =====
-- What a plan leaves in the data plane.
pub mod Blocks
pub mod Views
pub mod Names
pub mod Named
pub mod Objects
pub mod Reached
pub mod Switches
pub mod Sockets
mod Tests
