-- ===== src/Rules.antt =====
-- nfrules.go, nfrule_l3.go and nfrule_l4.go: from a described rule to a programmed one.
pub mod Sets
pub mod L3
pub mod L4
pub mod Build
pub mod NatAction
