-- ===== src/Json.antt =====
-- JSON documents: internal/model/merge.go, redact.go and the keys of diff.go.
pub mod Value
pub mod Redact
pub mod Merge
pub mod Clean
pub mod Merged
pub mod Pruned
pub mod Paths
mod Tests
