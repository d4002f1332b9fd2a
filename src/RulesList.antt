-- ===== src/RulesList.antt =====
-- nfruleslist.go: the rules of a chain as a doubly linked list of nodes on a heap.
mod Node
mod Operations
pub mod Chain
pub mod Walks
pub mod Changes
pub mod Store
pub mod Refines
pub mod Removal
pub mod Queries
pub mod InPlace
pub mod Numbering
pub use Node.*
unfoldable pub use Operations.*
