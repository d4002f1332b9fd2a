-- ===== src/Tests.antt =====
-- The theorems at concrete inputs.
mod Fixtures
mod Ranges
mod Registers
mod Lifecycle
mod Stores
mod Descriptions
mod Json
mod Machine
mod Semantics
