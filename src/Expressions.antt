-- ===== src/Expressions.antt =====
-- nfexpressions.go: each function builds the expressions of one part of a rule.
pub mod Mask
pub mod Address
pub mod Port
pub mod Meta
pub mod Target
pub mod Nat
pub mod Header
pub mod Concat
pub mod Dynamic
pub mod Anonymous
