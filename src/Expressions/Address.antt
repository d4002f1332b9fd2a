-- ===== src/Expressions/Address.antt =====
-- nfexpressions.go: matching an address, the IP version and the protocol in the network header.
use nftableslib.Base.{
  ℕ, ◌*◌, ◌%◌, Bool, true, false, Option, none, some, List, [], ◌∷◌, Bytes, Outcome, ok, err,
  nil_address, invalid_ip, nil_set, nil_set_ref, ◌>>=◌, ◌>>◌, fail_if, deref, length, take,
  replicate, ◌==◌, if◌then◌else◌,
}
use nftableslib.Nft.{Family, family_ipv4, family_ipv6, CmpOp, Expr, PayloadBase, LookupExpr, NfSet}
use nftableslib.Host.{BinaryUtil}
use nftableslib.Rule.{IpAddr, to4, to16, Operator, eq_op, neq_op, SetRef}
use nftableslib.Expressions.Mask.{build_mask}

-- `op == NEQ`
abbrev pub is_neq : Operator → Bool
is_neq eq_op = false
is_neq neq_op = true

-- The comparison for EQ and for NEQ.
abbrev pub cmp_op : Operator → CmpOp
cmp_op eq_op = CmpOp.eq
cmp_op neq_op = CmpOp.neq

abbrev pub addr_len : Family → ℕ
addr_len family = if family == family_ipv6 then 16 else 4

-- The address as the family's bytes; for any other family it stays nil.
unfoldable pub addr_bytes : Family → Bytes → Bytes
addr_bytes family ip =
    if family == family_ipv6 then to16 ip else if family == family_ipv4 then to4 ip else []

abbrev pub load_network : (register offset len : ℕ) → Expr
load_network register offset len = Expr.payload register PayloadBase.network offset len

unfoldable pub expr_for_single_ip : Family → ℕ → Option IpAddr → Operator → Outcome (List Expr)
unfolding addr_bytes
expr_for_single_ip family offset none op = err nil_address
expr_for_single_ip family offset (some addr) op = do
  fail_if (length (addr_bytes family addr.ip) == 0) invalid_ip
  mask_length ← deref addr.mask
  mask ← build_mask (addr_len family) mask_length
  ok (
      load_network 1 offset (addr_len family)
      ∷ Expr.bitwise 1 1 (addr_len family) mask (replicate (addr_len family) 0)
      ∷ Expr.cmp (cmp_op op) 1 (addr_bytes family addr.ip)
      ∷ [])

-- `&expr.Lookup{SourceRegister: 1, Invert: op == NEQ, SetID: id, SetName: name}`
abbrev pub lookup_set : (id : ℕ) (name : Bytes) → Operator → LookupExpr
lookup_set id name op = record {
  source_register = 1;
  dest_register = 0;
  is_dest_reg_set = false;
  invert = is_neq op;
  set_id = id;
  set_name = name;
}

unfoldable pub expr_for_list_ip : Family → Option NfSet → ℕ → Operator → Outcome (List Expr)
expr_for_list_ip family none offset op = err nil_set
expr_for_list_ip family (some set) offset op =
    ok (load_network 1 offset (addr_len family) ∷ Expr.lookup (lookup_set set.id set.name op) ∷ [])

unfoldable pub expr_for_range_ip :
    Family → ℕ → Option IpAddr → Option IpAddr → Operator → Outcome (List Expr)
unfolding addr_bytes
expr_for_range_ip family offset none to op = err nil_address
expr_for_range_ip family offset (some from) none op = err nil_address
expr_for_range_ip family offset (some from) (some to) op = do
  fail_if (length (addr_bytes family from.ip) == 0) invalid_ip
  fail_if (length (addr_bytes family to.ip) == 0) invalid_ip
  let from_addr = addr_bytes family from.ip
  let to_addr = addr_bytes family to.ip
  ok (
      load_network 1 offset (addr_len family)
      ∷ (if is_neq op
          then Expr.range CmpOp.neq 1 from_addr to_addr ∷ []
          else Expr.cmp CmpOp.gte 1 from_addr ∷ Expr.cmp CmpOp.lte 1 to_addr ∷ []))

-- `e.IsDestRegSet = set.IsMap`, `e.DestRegister = 0`
abbrev pub lookup_ref : SetRef → Operator → LookupExpr
lookup_ref ref op = record {
  source_register = 1;
  dest_register = 0;
  is_dest_reg_set = ref.is_map;
  invert = is_neq op;
  set_id = ref.id;
  set_name = ref.name;
}

unfoldable pub expr_for_addr_set : Family → ℕ → Option SetRef → Operator → Outcome (List Expr)
expr_for_addr_set family offset none op = err nil_set_ref
expr_for_addr_set family offset (some ref) op =
    ok (load_network 1 offset (addr_len family) ∷ Expr.lookup (lookup_ref ref op) ∷ [])

-- For NEQ the payload is loaded and nothing is compared.
unfoldable pub expr_for_ip_version : ℕ → Operator → Outcome (List Expr)
expr_for_ip_version version neq_op = ok (load_network 1 0 1 ∷ [])
expr_for_ip_version version eq_op = ok (
    load_network 1 0 1
    ∷ Expr.bitwise 1 1 1 (0xf0 ∷ []) (0 ∷ [])
    ∷ Expr.cmp CmpOp.eq 1 ((version * 16) % 256 ∷ [])
    ∷ [])

abbrev pub protocol_offset : Family → ℕ
protocol_offset family = if family == family_ipv4 then 9 else 6

unfoldable pub expr_for_protocol : ⦃bin : BinaryUtil⦄ → Family → ℕ → Operator → Outcome (List Expr)
expr_for_protocol ⦃bin⦄ family proto neq_op = ok (load_network 1 (protocol_offset family) 1 ∷ [])
expr_for_protocol ⦃bin⦄ family proto eq_op = ok (
    load_network 1 (protocol_offset family) 1
    ∷ Expr.cmp CmpOp.eq 1 (take 1 (bin.ne_put_uint32 proto))
    ∷ [])
