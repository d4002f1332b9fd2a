-- ===== src/Rules/L3.antt =====
-- nfrule_l3.go
use nftableslib.Base.{
  ℕ, Bool, true, false, Option, none, some, List, [], ◌∷◌, ◌++◌, Outcome, ok, err, panic, blocked,
  unknown_family, length, ◌==◌, if◌then◌else◌,
}
use nftableslib.Nft.{Family, family_ipv4, family_ipv6, Expr, SetDatatype}
use nftableslib.Host.{BinaryUtil, Host, Action, ◌>>=◌, pure, lift}
use nftableslib.Rule.{IpAddr, IpAddrSpec, L3Rule, Operator}
use nftableslib.Expressions.Address.{
  expr_for_single_ip, expr_for_list_ip, expr_for_range_ip, expr_for_addr_set, expr_for_ip_version,
  expr_for_protocol,
}
use nftableslib.Expressions.Meta.{expr_for_counter}
use nftableslib.Ranges.Order.{Sorter}
use nftableslib.Ranges.Build.{build_element_ranges}
use nftableslib.Rules.Sets.{RuleSet, new_set}

-- Expressions and the sets that they look up.
abbrev pub Built : Type 0
Built = List Expr × List RuleSet

-- The addresses behind the pointers. A nil pointer in a list of two or more panics in the sort.
unfoldable pub deref_all : List (Option IpAddr) → Outcome (List IpAddr)
deref_all [] = ok []
deref_all (none ∷ list) = panic
deref_all (some a ∷ list) = elim (deref_all list) [
  | ok rest ↦ ok (a ∷ rest)
  | err e ↦ err e
  | panic ↦ panic
  | blocked ↦ blocked
]

-- addrOffset and keyType: the zero values for any other family.
abbrev addr_offset : Family → Bool → ℕ
addr_offset family src =
    if family == family_ipv4
    then (if src then 12 else 16)
    else if family == family_ipv6
    then (if src then 8 else 24)
    else 0

abbrev addr_type : Family → SetDatatype
addr_type family =
    if family == family_ipv4
    then SetDatatype.ip_addr_type
    else if family == family_ipv6
    then SetDatatype.ip6_addr_type
    else SetDatatype.no_type

module _ ⦃bin : BinaryUtil⦄ ⦃sorter : Sorter⦄ (host : Host) where
  -- A list of no or of several addresses becomes a set of intervals.
  unfoldable pub addr_set : Family → ℕ → List (Option IpAddr) → Operator → Action host.S Built
  addr_set family offset list op = do
    set ← new_set host true (addr_type family)
    addrs ← lift (deref_all list)
    se ← lift (build_element_ranges addrs)
    if length se == 0 then lift (err unknown_family) else (do
      re ← lift (expr_for_list_ip family (some set) offset op)
      pure (re, record { set = set; elements = se } ∷ []))

  unfoldable pub process_addr_list :
      Family → ℕ → List (Option IpAddr) → Operator → Action host.S Built
  process_addr_list family offset (addr ∷ []) op = do
    re ← lift (expr_for_single_ip family offset addr op)
    pure (re, [])
  process_addr_list family offset list op = addr_set family offset list op

  -- Without a list, a full range comes before a set reference; a spec with neither adds nothing.
  unfoldable pub process_addr_ref :
      Family → ℕ → Option IpAddr → Option IpAddr → IpAddrSpec → Operator → Action host.S Built
  process_addr_ref family offset (some from) (some to) spec op = do
    re ← lift (expr_for_range_ip family offset (some from) (some to) op)
    pure (re, [])
  process_addr_ref family offset _ _ spec op = elim spec.set_ref [
    | none ↦ pure ([], [])
    | some ref ↦ (do re ← lift (expr_for_addr_set family offset (some ref) op); pure (re, []))
  ]

  unfoldable pub process_ip_addr : Family → IpAddrSpec → Bool → Operator → Action host.S Built
  process_ip_addr family spec src op = elim spec.list [
    | none ↦ process_addr_ref family (addr_offset family src) spec.range_from spec.range_to spec op
    | some list ↦ process_addr_list family (addr_offset family src) list op
  ]

  -- An optional part of the L3 selector.
  unfoldable pub optional_addr : Family → Option IpAddrSpec → Bool → Action host.S Built
  optional_addr family none src = pure ([], [])
  optional_addr family (some spec) src = process_ip_addr family spec src spec.rel_op

  unfoldable pub optional_version : Option ℕ → Operator → Action host.S (List Expr)
  optional_version none op = pure []
  optional_version (some version) op = lift (expr_for_ip_version version op)

  unfoldable pub optional_protocol : Family → Option ℕ → Operator → Action host.S (List Expr)
  optional_protocol family none op = pure []
  optional_protocol family (some proto) op = lift (expr_for_protocol family proto op)

  unfoldable pub create_l3 : Family → L3Rule → Action host.S Built
  create_l3 family l3 = do
    version ← optional_version l3.version l3.rel_op
    protocol ← optional_protocol family l3.protocol l3.rel_op
    (src, src_sets) ← optional_addr family l3.src true
    (dst, dst_sets) ← optional_addr family l3.dst false
    pure (
      version ++ (protocol ++ (src ++ (dst ++ (if l3.counter then expr_for_counter else [])))),
      src_sets ++ dst_sets,
    )
