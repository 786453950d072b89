-- ===== src/Resources.antt =====
-- The ledger of huge pages and isolated cores (internal/model/resources.go).
pub mod Hugepages
pub mod Cores
pub mod Ledger
pub mod Exclusive
pub mod Pages
mod Tests
