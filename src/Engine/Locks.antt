-- ===== src/Engine/Locks.antt =====
-- What becomes of a lock that nobody uses.
pub mod Idle
pub mod Stale
