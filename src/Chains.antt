-- ===== src/Chains.antt =====
-- nfchains.go: the chains of a table.
mod Attributes
mod Store
mod Retry
mod Sync
pub mod Rounds
pub mod Locked
pub mod Finishes
pub mod Complete
pub mod Idempotent
unfoldable pub use Attributes.*
unfoldable pub use Store.*
unfoldable pub use Retry.*
unfoldable pub use Sync.*
