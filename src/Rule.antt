-- ===== src/Rule.antt =====
-- The types of nfrules.go and nfconcatrule.go by which a caller describes a rule. A pointer is an
-- option; a slice that the code compares with nil is an option of a list.
mod Types
mod Address
pub mod Validate
pub mod Setters
pub mod Accepted
pub mod Actions
pub use Types.*
unfoldable pub use Address.*
