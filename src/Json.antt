-- ===== src/Json.antt =====
-- nfrules_marshal.go, and the Dump methods: rules, chains and tables as JSON text.
pub mod Format
pub mod Tree
pub mod Reader
pub mod RoundTrip
pub mod Names
pub mod Expression
pub mod ExpressionTree
pub mod Plain
pub mod Marshals
pub mod Address
pub mod Elements
pub mod Rule
pub mod Pieces
pub mod AddressPlain
pub mod Joined
pub mod ElementsReads
pub mod RuleReads
pub mod Dump
pub mod DumpRefines
