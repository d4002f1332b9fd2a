-- ===== src/Lifecycle.antt =====
-- `nfRules` of nfrules.go: creating, inserting, updating and deleting the rules of a chain.
mod UserData
mod Operations
pub mod Stamp
pub mod Simulation
pub mod Delete
pub mod Create
pub mod CreateImm
pub mod Update
pub mod Sync
pub mod SyncReturns
pub mod Methods
unfoldable pub use UserData.*
unfoldable pub use Operations.*
