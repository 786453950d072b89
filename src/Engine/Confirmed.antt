-- ===== src/Engine/Confirmed.antt =====
-- Confirmed commits: the timeout, the confirmation, and who may confirm.
pub mod Timeout
pub mod Confirmation
pub mod Undo
