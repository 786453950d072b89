-- ===== src/Engine/Commits.antt =====
-- What a commit does as a whole: it is all or nothing, and it is recorded as the newest revision.
pub mod Before
pub mod Failure
pub mod Unrecorded
pub mod Success
