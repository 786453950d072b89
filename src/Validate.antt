-- ===== src/Validate.antt =====
-- The checks of a whole configuration: internal/model/validate.go.
pub mod Tables
pub mod Network
pub mod Services
pub mod Duplicates
pub mod References
pub mod Accepted
pub mod Ports
pub mod Roles
pub mod Exclusive
mod Tests
