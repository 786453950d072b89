-- ===== src/Engine/Numbered.antt =====
-- The numbers of the revisions, over every call and every run.
pub mod Rows
pub mod Calls
pub mod Runs
