-- ===== src/Engine/Revisions.antt =====
-- Revisions as their users see them.
pub mod Rollbacks
pub mod Listing
pub mod Inherited
