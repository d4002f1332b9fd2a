-- ===== src/Lib.antt =====
-- nftableslib turns a description of nftables objects (structs of addresses, ports, actions and so
-- on) into the expressions and set elements that github.com/google/nftables sends to the kernel.
-- This library models how rules are built, how tables, chains, sets and rules are kept, and states
-- what the results mean.
--
-- The program's parts, from the outside in:
--   * `nfRules` (nfrules.go) keeps a chain's rules. `Create`, `CreateImm`, `Insert` and `Update`
--     call `buildRule`, which asks one function for each part of a rule description for
--     expressions and anonymous sets, and joins them in a fixed order.
--   * `createL3` (nfrule_l3.go) and `createL4` (nfrule_l4.go) build the selectors of the network
--     and the transport header; they use getExprFor... of nfexpressions.go, and nfranges.go where
--     an address list becomes an interval set.
--   * nfconcatrule.go, nfrule_dynamic.go and nfrule_matchact.go build concatenated keys, dynamic
--     set updates and verdict maps.
--   * nfranges.go makes interval sets: it sorts a list of networks, groups it, drops networks that
--     lie in another, and computes for each the first address behind it.
--   * nfsets.go, nfchains.go, nftables.go, nfruleslist.go, nfrules_marshal.go and nfconn.go keep
--     the stores of tables, chains, sets and rules.
--
-- Which file models which part:
--   * Base: native numbers with Boolean tests, Go slices as lists, the outcomes of a function that
--     returns an error or panics (`Outcome`), Go's maps, its `int` and the conversions.
--   * Nft: the struct fields and constants of github.com/google/nftables that the package names.
--     `Nft.Expr` has a constructor for each expression that the package builds. Nothing of that
--     library's behaviour is defined.
--   * Rule: the structs of nfrules.go and nfconcatrule.go, and net.IP's `To4` and `To16`;
--     Rule/Validate holds the `Validate` methods, Rule/Setters the helpers that make actions and
--     ports (`SetVerdict`, `SetRedirect` and so on). Rule/Accepted and Actions hold proofs.
--   * Host: the parameters. `BinaryUtil` stands for the package binaryutil, `Host` for the netlink
--     connection (interface `NetNS` of nftables_conn_api.go), random numbers and UUIDs; `Action` is
--     a state transformer over the connection's state that ends in an outcome. Host/Steps puts a
--     store beside the connection, Host/Mutex the mutex that guards it; Host/Finishes is about
--     methods that return and leave the mutex free.
--   * Expressions: nfexpressions.go, nfconcatrule.go, nfrule_dynamic.go and nfrule_matchact.go.
--     `expr_for_x` is `getExprForX`; the anonymous sets that loadbalance and match actions add to
--     the connection are in Expressions/Anonymous.
--   * Ranges: nfranges.go. Ranges/Order holds the two `Less` methods and `Sorter`, which stands
--     for `sort.Sort`. Ranges/Networks, Collapse, Gap and Build are `getNetworks`, `tryCollapse`,
--     `computeGapRange` and `buildElementRanges`. Ranges/Mask, Value, GapValue, Coverage and
--     Single hold proofs.
--   * Rules: nfrule_l3.go, nfrule_l4.go and `buildRule` of nfrules.go.
--   * Registers: what a list of expressions loads and reads; proofs about the built rules. Keys and
--     Packing are about the registers of a concatenated key.
--   * RulesList: nfruleslist.go, a doubly linked list of nodes on a heap. RulesList/Store says
--     which plain list of rules (`Ledger`) a heap implements; Refines, Removal and Queries compare
--     the operations of both, and Numbering is about the ids.
--   * Lifecycle: the methods of `nfRules` over the list of nodes and the connection. `create_imm`
--     is `CreateImm` and `InsertImm`, `delete` is `delete` and `Delete`; Lifecycle/UserData holds
--     the rule id in a rule's user data and `MakeRuleComment`; Lifecycle/Simulation relates a
--     method on the heap to the same method on a plain list.
--     Lifecycle/Methods puts the mutex around the methods that take it, and Lifecycle/Sync is
--     `nfRules.Sync`. Lifecycle/Create, CreateImm, Update, Delete and Stamp hold proofs,
--     and RulesList/InPlace is about a node that is changed where it stands.
--   * Sets: nfsets.go, a map from names to sets. Sets/Parse is `NewIPAddr` of nfrules.go, Sets/Element
--     `MakeElement` and `MakeConcatElement`, Sets/KeyType `GenSetKeyType`; the parsers of net and the
--     table of the data types are parameters (`NetParser`, `Datatypes`). Sets/Finishes, Contents,
--     KeySize and Interval hold proofs.
--   * Chains: nfchains.go, a map from names to chains, each with the list of its rules.
--     Chains/Attributes is `isEqualChain` and the attributes, Chains/Retry `DeleteImm`, Chains/Sync
--     `Sync`, `Exist` and `Get`. Chains/Complete, Locked, Finishes, Rounds and Idempotent hold
--     proofs.
--   * Tables: nftables.go, a map from families to maps of tables, each with its chains and its sets.
--     Tables/Entries holds proofs.
--   * Json: nfrules_marshal.go and the `Dump` methods of the stores of tables, chains and rules.
--     Json/Expression is `marshalExpression`, Json/Elements `marshalSetElements`, Json/Address
--     `buildIPv6String`, Json/Rule `MarshalJSON`, Json/Dump the dumps; Json/Format is what they use of
--     Go's fmt. `Encoding` stands for encoding/json at the types of github.com/google/nftables.
--     Json/Tree, Reader and ExpressionTree describe JSON values and the value of an expression
--     without the code; RoundTrip, Plain, Marshals, Joined, Pieces, AddressPlain, ElementsReads,
--     RuleReads and DumpRefines hold proofs.
--   * Semantics: what the expressions of nfexpressions.go mean for a packet. The machine that runs
--     them is a parameter (`Kernel`), with the documented behaviour of each instruction as a hypothesis
--     of its own (`RunsPayload`, `RunsMeta`, `RunsCmp`, `RunsRange`, `RunsBitwise`). Semantics/Single,
--     Address, Port and Header are about one address, a range of addresses, ports, and the IP version
--     and protocol; Prefix and Bitwise about masks.
--   * Tests: concrete parameters, runs and instances.
--
-- How Go is read. A byte, a uint16, a uint32 is a natural number; where the code converts to a
-- narrower type, the model takes the remainder (`% 2 ^ w`). A pointer is an `Option`; reading
-- through a nil pointer and an index out of range are the outcome `panic`, which is kept apart
-- from a returned error. Strings and byte slices are lists of numbers. The map `ActElement` is the
-- list in the order in which `range` meets its keys, so that a theorem about all lists holds for
-- every order. The embedded *net.IPAddr of an `IPAddr` is not nil, as each constructor of the
-- package makes it. The rule that a caller hands to the methods of the rules, and the receiver of a
-- `Validate`, are not nil either: the model takes the description itself. Loops are structural
-- recursion. The walks over the nodes of a list run on fuel,
-- as much as nodes have been allocated: a list has no more nodes than that (`Runs` of
-- RulesList/Store), so that a walk along it does not run out. `DeleteImm` of a chain takes the number
-- of ticks that its timer gives before the timeout, and its loop is recursion on that number.
--
-- A mutex is a flag beside what it guards. One goroutine runs: a lock that is held is waited for
-- without end, which is the outcome `blocked`. The methods of a store are over the store and the
-- connection; where the code holds a pointer to a chain or a table of a map, the model writes the
-- changed entry back.
--
-- Not modelled: `printTable`, which nothing calls; what encoding/json does with the text of a
-- `MarshalJSON`; sockets and network namespaces (nfconn.go); several goroutines at once; and the
-- commands and test helpers under cmd/, pkg/ and mock/.
pub mod Base
pub mod Nft
pub mod Rule
pub mod Host
pub mod Expressions
pub mod Ranges
pub mod Rules
pub mod Registers
pub mod RulesList
pub mod Lifecycle
pub mod Json
pub mod Semantics
pub mod Sets
pub mod Chains
pub mod Tables
mod Tests
