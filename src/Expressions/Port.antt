-- ===== src/Expressions/Port.antt =====
-- nfexpressions.go: matching a port in the transport header, behind a test of the protocol.
use nftableslib.Base.{
  ℕ, Option, none, some, false, List, [], ◌∷◌, ◌++◌, Outcome, ok, err, panic, l4_proto_zero,
  nil_port, nil_set, nil_set_ref, ◌>>=◌, ◌>>◌, fail_if, ◌==◌, if◌then◌else◌,
}
use nftableslib.Nft.{CmpOp, Expr, PayloadBase, NfSet, meta_key_l4proto}
use nftableslib.Host.{BinaryUtil}
use nftableslib.Rule.{Operator, SetRef}
use nftableslib.Expressions.Address.{is_neq, cmp_op, lookup_set, lookup_ref}

-- The check `for i, p := range port { if p == nil { return error } }`, with the ports read.
unfoldable pub check_ports : List (Option ℕ) → Outcome (List ℕ)
check_ports [] = ok []
check_ports (none ∷ ports) = err nil_port
check_ports (some p ∷ ports) = do rest ← check_ports ports; ok (p ∷ rest)

-- `Meta L4PROTO => reg 1`, `Cmp eq reg 1 proto`, `Payload 2 bytes @ transport + offset => reg 1`
abbrev pub load_port : ℕ → ℕ → List Expr
load_port l4_proto offset =
    Expr.meta meta_key_l4proto 1 false
    ∷ Expr.cmp CmpOp.eq 1 (l4_proto ∷ [])
    ∷ Expr.payload 1 PayloadBase.transport offset 2
    ∷ []

module _ ⦃bin : BinaryUtil⦄ where
  -- What follows `load_port` for a list of ports that are not nil.
  unfoldable pub list_port_test : List ℕ → Operator → Option NfSet → Outcome (List Expr)
  list_port_test [] op set = panic
  list_port_test (p ∷ []) op set = ok (Expr.cmp (cmp_op op) 1 (bin.be_put_uint16 p) ∷ [])
  list_port_test (p ∷ q ∷ ports) op none = err nil_set
  list_port_test (p ∷ q ∷ ports) op (some set) =
      ok (Expr.lookup (lookup_set set.id set.name op) ∷ [])

  unfoldable pub expr_for_list_port :
      ℕ → ℕ → List (Option ℕ) → Operator → Option NfSet → Outcome (List Expr)
  unfolding check_ports list_port_test
  expr_for_list_port l4_proto offset port op set = do
    ports ← check_ports port
    fail_if (l4_proto == 0) l4_proto_zero
    test ← list_port_test ports op set
    ok (load_port l4_proto offset ++ test)

  -- For NEQ the bounds are written in the host's byte order, for EQ in the network's.
  unfoldable pub range_port_test : ℕ → ℕ → Operator → List Expr
  range_port_test from to op =
      if is_neq op
      then Expr.range CmpOp.neq 1 (bin.ne_put_uint16 from) (bin.ne_put_uint16 to) ∷ []
      else Expr.cmp CmpOp.gte 1 (bin.be_put_uint16 from)
        ∷ Expr.cmp CmpOp.lte 1 (bin.be_put_uint16 to)
        ∷ []

  unfoldable pub expr_for_range_port : ℕ → ℕ → Option ℕ → Option ℕ → Operator → Outcome (List Expr)
  unfolding range_port_test
  expr_for_range_port l4_proto offset none to op = err nil_port
  expr_for_range_port l4_proto offset (some from) none op = err nil_port
  expr_for_range_port l4_proto offset (some from) (some to) op = do
    fail_if (l4_proto == 0) l4_proto_zero
    ok (load_port l4_proto offset ++ range_port_test from to op)

unfoldable pub expr_for_port_set : ℕ → ℕ → Option SetRef → Operator → Outcome (List Expr)
expr_for_port_set l4_proto offset none op = err nil_set_ref
expr_for_port_set l4_proto offset (some ref) op = do
  fail_if (l4_proto == 0) l4_proto_zero
  ok (load_port l4_proto offset ++ Expr.lookup (lookup_ref ref op) ∷ [])
