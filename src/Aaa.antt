-- ===== src/Aaa.antt =====
-- Accounts: internal/aaa/service.go.
pub mod Service
pub mod Lockout
pub mod Guessing
pub mod Classes
pub mod Prefixes
pub mod Policy
pub mod Policies
pub mod Grants
pub mod Tokens
pub mod Authentic
mod Tests
