-- ===== src/Model.antt =====
-- The configuration model (internal/model): the data types, and the checks and ledgers over them.
mod System
mod Network
mod Compute
mod Tree
mod Equality
mod Login
pub use System.*
pub use Network.*
pub use Compute.*
pub use Tree.*
unfoldable pub use Equality.*
unfoldable pub use Login.*
