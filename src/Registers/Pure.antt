-- ===== src/Registers/Pure.antt =====
-- The functions of nfexpressions.go, nfconcatrule.go and nfrule_dynamic.go load before they read.
use nftableslib.Base.{ℕ, refl, false, Option, none, some, List, [], ◌∷◌, arith}
use nftableslib.Nft.{Expr, NfSet}
use nftableslib.Host.{BinaryUtil}
use nftableslib.Rule.{
  IpAddr, Operator, eq_op, neq_op, SetRef, MetaMark, MetaExpr, Fib, Conntrack, Masquerade, Nat,
  Dynamic,
}
use nftableslib.Expressions.Address.{
  cmp_op, expr_for_single_ip, expr_for_list_ip, expr_for_range_ip, expr_for_addr_set,
  expr_for_ip_version, expr_for_protocol,
}
use nftableslib.Expressions.Port.{expr_for_list_port, expr_for_range_port, expr_for_port_set}
use nftableslib.Expressions.Meta.{
  conntrack_exprs, expr_for_fib, expr_for_meta_mark, expr_for_meta_expr, expr_for_conntracks,
}
use nftableslib.Expressions.Target.{expr_for_masq}
use nftableslib.Expressions.Nat.{expr_for_nat}
use nftableslib.Expressions.Dynamic.{expr_for_dynamic}
use nftableslib.Registers.Append.{loads_before_use, IsSafe, IsSafe-append}
use nftableslib.Registers.Ensures.{OnOk}

pub single_ip-IsSafe :
    (family offset : ℕ) (addr : Option IpAddr) (op : Operator)
    → OnOk IsSafe (expr_for_single_ip family offset addr op)
unfolding expr_for_single_ip loads_before_use
single_ip-IsSafe family offset none op = tt
single_ip-IsSafe family offset (some addr) op = ground arith

pub list_ip-IsSafe :
    (family : ℕ) (set : Option NfSet) (offset : ℕ) (op : Operator)
    → OnOk IsSafe (expr_for_list_ip family set offset op)
unfolding expr_for_list_ip loads_before_use
list_ip-IsSafe family none offset op = tt
list_ip-IsSafe family (some set) offset op = refl

pub range_ip-IsSafe :
    (family offset : ℕ) (from to : Option IpAddr) (op : Operator)
    → OnOk IsSafe (expr_for_range_ip family offset from to op)
unfolding expr_for_range_ip loads_before_use
range_ip-IsSafe family offset none to op = tt
range_ip-IsSafe family offset (some from) none op = tt
range_ip-IsSafe family offset (some from) (some to) eq_op = ground arith
range_ip-IsSafe family offset (some from) (some to) neq_op = ground arith

pub addr_set-IsSafe :
    (family offset : ℕ) (ref : Option SetRef) (op : Operator)
    → OnOk IsSafe (expr_for_addr_set family offset ref op)
unfolding expr_for_addr_set loads_before_use
addr_set-IsSafe family offset none op = tt
addr_set-IsSafe family offset (some ref) op = ground arith

pub ip_version-IsSafe : (version : ℕ) (op : Operator) → OnOk IsSafe (expr_for_ip_version version op)
unfolding expr_for_ip_version loads_before_use
ip_version-IsSafe version eq_op = refl
ip_version-IsSafe version neq_op = refl

pub port_set-IsSafe :
    (l4_proto offset : ℕ) (ref : Option SetRef) (op : Operator)
    → OnOk IsSafe (expr_for_port_set l4_proto offset ref op)
unfolding expr_for_port_set loads_before_use
port_set-IsSafe l4_proto offset none op = tt
port_set-IsSafe l4_proto offset (some ref) op = ground arith

module _ ⦃bin : BinaryUtil⦄ where
  pub protocol-IsSafe :
      (family proto : ℕ) (op : Operator) → OnOk IsSafe (expr_for_protocol family proto op)
  unfolding expr_for_protocol loads_before_use
  protocol-IsSafe family proto eq_op = refl
  protocol-IsSafe family proto neq_op = refl

  pub list_port-IsSafe :
      (l4_proto offset : ℕ) (ports : List (Option ℕ)) (op : Operator) (set : Option NfSet)
      → OnOk IsSafe (expr_for_list_port l4_proto offset ports op set)
  unfolding expr_for_list_port loads_before_use
  list_port-IsSafe l4_proto offset ports op set = ground arith

  pub range_port-IsSafe :
      (l4_proto offset : ℕ) (from to : Option ℕ) (op : Operator)
      → OnOk IsSafe (expr_for_range_port l4_proto offset from to op)
  unfolding expr_for_range_port loads_before_use
  range_port-IsSafe l4_proto offset none to op = tt
  range_port-IsSafe l4_proto offset (some from) none op = tt
  range_port-IsSafe l4_proto offset (some from) (some to) eq_op = ground arith
  range_port-IsSafe l4_proto offset (some from) (some to) neq_op = ground arith

  pub meta_mark-IsSafe : (mark : Option MetaMark) → IsSafe (expr_for_meta_mark mark)
  unfolding expr_for_meta_mark loads_before_use
  meta_mark-IsSafe none = refl
  meta_mark-IsSafe (some m) = ground arith

  pub masq-IsSafe : (m : Option Masquerade) → IsSafe (expr_for_masq m)
  unfolding expr_for_masq loads_before_use
  masq-IsSafe none = refl
  masq-IsSafe (some m) = ground arith

  pub nat-IsSafe : (family : ℕ) (n : Option Nat) → OnOk IsSafe (expr_for_nat family n)
  unfolding expr_for_nat loads_before_use
  nat-IsSafe family none = tt
  nat-IsSafe family (some n) = ground arith

  pub dynamic-IsSafe : (family : ℕ) (d : Dynamic) → OnOk IsSafe (expr_for_dynamic family d)
  unfolding expr_for_dynamic loads_before_use
  dynamic-IsSafe family d = ground arith

pub meta_expr-IsSafe : (ms : List MetaExpr) → IsSafe (expr_for_meta_expr ms)
unfolding expr_for_meta_expr loads_before_use
meta_expr-IsSafe [] = refl
meta_expr-IsSafe (m ∷ ms) =
    IsSafe-append (Expr.meta m.key 1 false ∷ Expr.cmp (cmp_op m.rel_op) 1 m.value ∷ [])
      (expr_for_meta_expr ms) refl (meta_expr-IsSafe ms)

pub fib-IsSafe : (f : Option Fib) → IsSafe (expr_for_fib f)
unfolding expr_for_fib loads_before_use
fib-IsSafe none = refl
fib-IsSafe (some f) = refl

conntrack-IsSafe : (c : Option Conntrack) → IsSafe (conntrack_exprs c)
unfolding conntrack_exprs loads_before_use
conntrack-IsSafe none = refl
conntrack-IsSafe (some c) = ground arith

pub conntracks-IsSafe : (cts : List (Option Conntrack)) → IsSafe (expr_for_conntracks cts)
unfolding expr_for_conntracks loads_before_use
conntracks-IsSafe [] = refl
conntracks-IsSafe (c ∷ cts) =
    IsSafe-append (conntrack_exprs c) _ (conntrack-IsSafe c) (conntracks-IsSafe cts)
