-- ===== src/Images.antt =====
-- The image repository: internal/images/images.go.
pub mod Store
pub mod Import
pub mod Settled
pub mod Available
pub mod Listed
pub mod Served
mod Tests
