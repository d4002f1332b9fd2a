-- ===== src/Semantics.antt =====
-- What the expressions that nfexpressions.go builds mean for a packet.
pub mod Bitwise
pub mod Kernel
mod Steps
pub mod Prefix
pub mod Address
pub mod Single
pub mod Port
pub mod Header
