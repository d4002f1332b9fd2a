-- ===== src/Ranges.antt =====
-- nfranges.go: from a list of networks to the intervals of a set. `sort.Sort` is a parameter: it
-- may order equal elements as it likes.
pub mod Order
pub mod Networks
pub mod Collapse
pub mod Gap
pub mod Build
pub mod Value
pub mod GapValue
pub mod Mask
pub mod Coverage
pub mod Single
