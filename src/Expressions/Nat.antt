-- ===== src/Expressions/Nat.antt =====
-- `getExprForNAT` of nfexpressions.go. The local `register` counts up from 1 as registers are taken.
use nftableslib.Base.{
  ℕ, ◌+◌, Option, none, some, List, [], ◌∷◌, ◌++◌, Bytes, Outcome, ok, err, panic, nil_nat,
  nat_without_target, ◌>>=◌, ◌>>◌, fail_if, is_some, ◌==◌, ◌||◌, not, if◌then◌else◌,
}
use nftableslib.Nft.{Family, family_ipv4, Expr}
use nftableslib.Host.{BinaryUtil}
use nftableslib.Rule.{IpAddr, to4, to16, IpAddrSpec, Port, Nat}
use nftableslib.Expressions.Target.{flag}

-- The expressions of the address or the port part, the registers that hold its bounds (0 for none)
-- and the next free register.
pub record Loaded : Type 0 where
  pub exprs : List Expr
  pub reg_min : ℕ
  pub reg_max : ℕ
  pub next : ℕ

abbrev load_none : ℕ → Loaded
load_none register = record { exprs = []; reg_min = 0; reg_max = 0; next = register }

abbrev load_one : ℕ → Bytes → Loaded
load_one register first = record {
  exprs = Expr.immediate register first ∷ [];
  reg_min = register;
  reg_max = 0;
  next = register + 1;
}

abbrev load_two : ℕ → Bytes → Bytes → Loaded
load_two register first second = record {
  exprs = Expr.immediate register first ∷ Expr.immediate (register + 1) second ∷ [];
  reg_min = register;
  reg_max = register + 1;
  next = register + 2;
}

-- `To4` for IPv4, `To16` for every other family; no check of a nil result.
abbrev pub nat_bytes : Family → Bytes → Bytes
nat_bytes family ip = if family == family_ipv4 then to4 ip else to16 ip

-- A range counts if both of its pointers are set.
range_addresses : Family → ℕ → Option IpAddr → Option IpAddr → Loaded
range_addresses family register none to = load_none register
range_addresses family register (some from) none = load_none register
range_addresses family register (some from) (some to) =
    load_two register (nat_bytes family from.ip) (nat_bytes family to.ip)

-- `List[0]` panics on an empty slice, and on a nil pointer when its IP is read.
list_address : Family → ℕ → List (Option IpAddr) → Outcome Loaded
list_address family register [] = panic
list_address family register (none ∷ list) = panic
list_address family register (some addr ∷ list) = ok (load_one register (nat_bytes family addr.ip))

nat_address : Family → ℕ → Option IpAddrSpec → Outcome Loaded
unfolding range_addresses list_address
nat_address family register none = ok (load_none register)
nat_address family register (some a) = elim a.list [
  | none ↦ ok (range_addresses family register a.range_from a.range_to)
  | some list ↦ list_address family register list
]

module _ ⦃bin : BinaryUtil⦄ where
  range_ports : ℕ → Option ℕ → Option ℕ → Loaded
  range_ports register none to = load_none register
  range_ports register (some from) none = load_none register
  range_ports register (some from) (some to) =
      load_two register (bin.be_put_uint16 from) (bin.be_put_uint16 to)

  list_port : ℕ → List (Option ℕ) → Outcome Loaded
  list_port register [] = panic
  list_port register (none ∷ list) = panic
  list_port register (some port ∷ list) = ok (load_one register (bin.be_put_uint16 port))

  nat_port : ℕ → Option Port → Outcome Loaded
  unfolding range_ports list_port
  nat_port register none = ok (load_none register)
  nat_port register (some p) = elim p.list [
    | none ↦ ok (range_ports register p.range_from p.range_to)
    | some list ↦ list_port register list
  ]

  nat_exprs : Family → Nat → Outcome (List Expr)
  unfolding nat_address nat_port
  nat_exprs family n = do
    fail_if (not (is_some n.address || is_some n.port)) nat_without_target
    addr ← nat_address family 1 n.address
    port ← nat_port addr.next n.port
    ok (
        addr.exprs
        ++ (port.exprs
            ++ Expr.nat (record {
              nat_type = n.nat_type;
              family = family;
              reg_addr_min = addr.reg_min;
              reg_addr_max = addr.reg_max;
              reg_proto_min = port.reg_min;
              reg_proto_max = port.reg_max;
              random = flag n.random;
              fully_random = flag n.fully_random;
              persistent = flag n.persistent;
            })
              ∷ []))

  unfoldable pub expr_for_nat : Family → Option Nat → Outcome (List Expr)
  unfolding nat_exprs
  expr_for_nat family none = err nil_nat
  expr_for_nat family (some n) = nat_exprs family n
