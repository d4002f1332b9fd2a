-- ===== src/Registers/Selectors.antt =====
-- nfrule_l3.go and nfrule_l4.go: the selectors of a rule load their registers before they read them.
use nftableslib.Base.{
  ℕ, refl, Bool, true, false, Option, none, some, List, [], ◌∷◌, slice_items, if◌then◌else◌, arith,
}
use nftableslib.Host.{BinaryUtil, Host}
use nftableslib.Rule.{IpAddr, IpAddrSpec, Operator, Port, L3Rule, L4Rule}
use nftableslib.Expressions.Meta.{expr_for_counter}
use nftableslib.Ranges.Order.{Sorter}
use nftableslib.Rules.L3.{
  Built, addr_set, process_addr_list, process_addr_ref, process_ip_addr, optional_addr,
  optional_version, optional_protocol, create_l3,
}
use nftableslib.Rules.L4.{
  port_set, process_port_list, process_port_ref, process_port_sources, process_port, optional_port,
  create_l4,
}
use nftableslib.Registers.Append.{loads_before_use, IsSafe, IsSafe-append}
use nftableslib.Registers.Ensures.{Ensures}
use nftableslib.Registers.Pure.{
  single_ip-IsSafe, list_ip-IsSafe, range_ip-IsSafe, addr_set-IsSafe, ip_version-IsSafe,
  protocol-IsSafe, list_port-IsSafe, range_port-IsSafe, port_set-IsSafe,
}

abbrev pub BuiltSafe : Built → Type 0
BuiltSafe b = IsSafe b.0

module _ ⦃bin : BinaryUtil⦄ (host : Host) where
  port_set-IsSafe' :
      (l4_proto offset : ℕ) (ports : List (Option ℕ)) (op : Operator)
      → Ensures BuiltSafe (port_set host l4_proto offset ports op)
  unfolding port_set
  port_set-IsSafe' l4_proto offset ports op s = grind (arith, list_port-IsSafe)

  process_port_list-IsSafe :
      (l4_proto offset : ℕ) (ports : List (Option ℕ)) (op : Operator)
      → Ensures BuiltSafe (process_port_list host l4_proto offset ports op)
  unfolding process_port_list
  process_port_list-IsSafe l4_proto offset (p ∷ q ∷ ports) op s =
      port_set-IsSafe' l4_proto offset (p ∷ q ∷ ports) op s
  process_port_list-IsSafe l4_proto offset [] op s = grind (arith, list_port-IsSafe)
  process_port_list-IsSafe l4_proto offset (p ∷ []) op s = grind (arith, list_port-IsSafe)

  process_port_ref-IsSafe :
      (l4_proto offset : ℕ) (from to : Option ℕ) (port : Port)
      → Ensures BuiltSafe (process_port_ref host l4_proto offset from to port)
  unfolding process_port_ref loads_before_use
  process_port_ref-IsSafe l4_proto offset (some from) (some to) port s =
      grind (arith, range_port-IsSafe)
  process_port_ref-IsSafe l4_proto offset (some from) none port s = grind (arith, port_set-IsSafe)
  process_port_ref-IsSafe l4_proto offset none to port s = grind (arith, port_set-IsSafe)

  process_port_sources-IsSafe :
      (l4_proto offset : ℕ) (ports : List (Option ℕ)) (port : Port)
      → Ensures BuiltSafe (process_port_sources host l4_proto offset ports port)
  unfolding process_port_sources
  process_port_sources-IsSafe l4_proto offset [] port =
      process_port_ref-IsSafe l4_proto offset port.range_from port.range_to port
  process_port_sources-IsSafe l4_proto offset (p ∷ ports) port =
      process_port_list-IsSafe l4_proto offset (p ∷ ports) port.rel_op

  optional_port-IsSafe :
      (l4_proto offset : ℕ) (port : Option Port)
      → Ensures BuiltSafe (optional_port host l4_proto offset port)
  unfolding optional_port loads_before_use process_port
  optional_port-IsSafe l4_proto offset none s = refl
  optional_port-IsSafe l4_proto offset (some port) s =
      process_port_sources-IsSafe l4_proto offset (slice_items port.list) port s

  pub counter-IsSafe : (c : Bool) → IsSafe (if c then expr_for_counter else [])
  unfolding expr_for_counter loads_before_use
  counter-IsSafe true = refl
  counter-IsSafe false = refl

  pub create_l4-IsSafe : (l4 : L4Rule) → Ensures BuiltSafe (create_l4 host l4)
  unfolding create_l4
  create_l4-IsSafe l4 s =
      grind (arith, optional_port-IsSafe, IsSafe-append, counter-IsSafe l4.counter)

  addr_set-IsSafe' :
      ⦃sorter : Sorter⦄ (family offset : ℕ) (list : List (Option IpAddr)) (op : Operator)
      → Ensures BuiltSafe (addr_set host family offset list op)
  unfolding addr_set
  addr_set-IsSafe' family offset list op s = grind (arith, list_ip-IsSafe)

  module _ ⦃sorter : Sorter⦄ where
    process_addr_list-IsSafe :
        (family offset : ℕ) (list : List (Option IpAddr)) (op : Operator)
        → Ensures BuiltSafe (process_addr_list host family offset list op)
    unfolding process_addr_list
    process_addr_list-IsSafe family offset [] op s = addr_set-IsSafe' family offset [] op s
    process_addr_list-IsSafe family offset (a ∷ []) op s = grind (arith, single_ip-IsSafe)
    process_addr_list-IsSafe family offset (a ∷ b ∷ list) op s =
        addr_set-IsSafe' family offset (a ∷ b ∷ list) op s

    process_addr_ref-IsSafe :
        (family offset : ℕ) (from to : Option IpAddr) (spec : IpAddrSpec) (op : Operator)
        → Ensures BuiltSafe (process_addr_ref host family offset from to spec op)
    unfolding process_addr_ref loads_before_use
    process_addr_ref-IsSafe family offset (some from) (some to) spec op s =
        grind (arith, range_ip-IsSafe)
    process_addr_ref-IsSafe family offset (some from) none spec op s =
        grind (arith, addr_set-IsSafe)
    process_addr_ref-IsSafe family offset none to spec op s = grind (arith, addr_set-IsSafe)

    process_ip_addr-IsSafe :
        (family : ℕ) (spec : IpAddrSpec) (src : Bool) (op : Operator)
        → Ensures BuiltSafe (process_ip_addr host family spec src op)
    unfolding process_ip_addr
    process_ip_addr-IsSafe family spec src op s =
        grind (arith, process_addr_list-IsSafe, process_addr_ref-IsSafe)

    optional_addr-IsSafe :
        (family : ℕ) (spec : Option IpAddrSpec) (src : Bool)
        → Ensures BuiltSafe (optional_addr host family spec src)
    unfolding optional_addr loads_before_use
    optional_addr-IsSafe family none src s = refl
    optional_addr-IsSafe family (some spec) src s =
        process_ip_addr-IsSafe family spec src spec.rel_op s

    optional_version-IsSafe :
        (version : Option ℕ) (op : Operator) → Ensures IsSafe (optional_version host version op)
    unfolding optional_version loads_before_use
    optional_version-IsSafe none op s = refl
    optional_version-IsSafe (some version) op s = ip_version-IsSafe version op

    optional_protocol-IsSafe :
        (family : ℕ) (proto : Option ℕ) (op : Operator)
        → Ensures IsSafe (optional_protocol host family proto op)
    unfolding optional_protocol loads_before_use
    optional_protocol-IsSafe family none op s = refl
    optional_protocol-IsSafe family (some proto) op s = protocol-IsSafe family proto op

    pub create_l3-IsSafe : (family : ℕ) (l3 : L3Rule) → Ensures BuiltSafe (create_l3 host family l3)
    unfolding create_l3
    create_l3-IsSafe family l3 s = grind (
      arith,
      optional_version-IsSafe,
      optional_protocol-IsSafe,
      optional_addr-IsSafe,
      IsSafe-append,
      counter-IsSafe l3.counter,
    )
