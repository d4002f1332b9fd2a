-- ===== src/Sets.antt =====
-- nfsets.go: a table's sets, and the elements and key types that callers make for them.
mod Store
mod Parse
mod Element
mod KeyType
pub mod KeySize
pub mod Interval
pub mod Contents
pub mod Finishes
unfoldable pub use Store.*
unfoldable pub use Parse.*
unfoldable pub use Element.*
unfoldable pub use KeyType.*
