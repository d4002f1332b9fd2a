-- ===== src/Registers.antt =====
-- A discipline for the expressions that the package builds: which registers an expression reads,
-- which it loads, and that nothing is read before it is loaded.
pub mod Append
pub mod Ensures
pub mod Pure
pub mod Concat
pub mod Keys
pub mod Packing
pub mod Selectors
pub mod Rule
