-- ===== src/Tables.antt =====
-- nftables.go: the tables of each family.
mod Store
mod Sync
pub mod Entries
unfoldable pub use Store.*
unfoldable pub use Sync.*
