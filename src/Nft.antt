-- ===== src/Nft.antt =====
-- The vocabulary of github.com/google/nftables that the package writes and reads: the fields that
-- its struct literals set, and nothing of that library's behaviour.
use nftableslib.Base.{ℕ, ℤ, Bool, Option, List, Bytes}
mod Constants
pub use Constants.*

-- `nftables.TableFamily`, a byte.
abbrev pub Family : Type 0
Family = ℕ

pub data CmpOp : Type 0 where
  eq neq lt lte gt gte : CmpOp

pub data PayloadBase : Type 0 where
  link_layer network transport : PayloadBase

-- `expr.Verdict`
pub record Verdict : Type 0 where
  pub kind : ℤ
  pub chain : Bytes

-- `expr.Lookup`
pub record LookupExpr : Type 0 where
  pub source_register : ℕ
  pub dest_register : ℕ
  pub is_dest_reg_set : Bool
  pub invert : Bool
  pub set_id : ℕ
  pub set_name : Bytes

-- `expr.Fib`
pub record FibExpr : Type 0 where
  pub register : ℕ
  pub result_oif : Bool
  pub result_oifname : Bool
  pub result_addrtype : Bool
  pub flag_saddr : Bool
  pub flag_daddr : Bool
  pub flag_mark : Bool
  pub flag_iif : Bool
  pub flag_oif : Bool
  pub flag_present : Bool

-- `expr.Masq`
pub record MasqExpr : Type 0 where
  pub random : Bool
  pub fully_random : Bool
  pub persistent : Bool
  pub to_ports : Bool
  pub reg_proto_min : ℕ
  pub reg_proto_max : ℕ

-- `expr.NAT`
pub record NatExpr : Type 0 where
  pub nat_type : ℕ
  pub family : ℕ
  pub reg_addr_min : ℕ
  pub reg_addr_max : ℕ
  pub reg_proto_min : ℕ
  pub reg_proto_max : ℕ
  pub random : Bool
  pub fully_random : Bool
  pub persistent : Bool

-- `expr.Dynset`
pub record DynsetExpr : Type 0 where
  pub src_reg_key : ℕ
  pub src_reg_data : ℕ
  pub operation : ℕ
  pub set_id : ℕ
  pub set_name : Bytes
  pub invert : Bool
  pub timeout : ℕ

-- `expr.Any`: the expressions that the package builds. The arguments stand in the order of the
-- fields in the package's literals.
pub data Expr : Type 0 where
  meta : (key register : ℕ) → (source_register : Bool) → Expr
  cmp : CmpOp → (register : ℕ) → (content : Bytes) → Expr
  payload : (dest_register : ℕ) → PayloadBase → (offset len : ℕ) → Expr
  bitwise : (source_register dest_register len : ℕ) → (mask xor : Bytes) → Expr
  range : CmpOp → (register : ℕ) → (from_data to_data : Bytes) → Expr
  lookup : LookupExpr → Expr
  immediate : (register : ℕ) → (content : Bytes) → Expr
  redir : (register_proto_min register_proto_max : ℕ) → Expr
  tproxy : (family table_family reg_port : ℕ) → Expr
  masq : MasqExpr → Expr
  log : (key : ℕ) → (content : Bytes) → Expr
  reject : (reject_type code : ℕ) → Expr
  fib : FibExpr → Expr
  ct : (key register : ℕ) → Expr
  nat : NatExpr → Expr
  numgen : (register modulus ng_type offset : ℕ) → Expr
  dynset : DynsetExpr → Expr
  counter : Expr
  verdict : Verdict → Expr

-- `nftables.SetDatatype`: the values that the package names, and any other. What they hold (a name,
-- a size, a number) is a parameter, `DatatypeFields` of Sets/KeyType.
pub data SetDatatype : Type 0 where
  no_type invalid_type verdict_type integer_type mark_type ip_addr_type ip6_addr_type : SetDatatype
  ether_addr_type inet_proto_type inet_service_type : SetDatatype
  other_type : (name : Bytes) → (bytes magic : ℕ) → SetDatatype

-- `nftables.SetElement`
pub record SetElement : Type 0 where
  pub key : Bytes
  pub value : Bytes
  pub interval_end : Bool
  pub verdict_data : Option Verdict

-- `nftables.Table`
pub record Table : Type 0 where
  pub family : Family
  pub name : Bytes

-- `nftables.Set`. A nil table is `none`.
pub record NfSet : Type 0 where
  pub table : Option Table
  pub id : ℕ
  pub name : Bytes
  pub anonymous : Bool
  pub constant : Bool
  pub interval : Bool
  pub is_map : Bool
  pub has_timeout : Bool
  pub timeout : ℕ
  pub key_type : SetDatatype
  pub data_type : SetDatatype

-- `nftables.Chain`. A base chain has a type and a hook; the policy is a pointer.
pub record Chain : Type 0 where
  pub name : Bytes
  pub table : Table
  pub chain_type : Bytes
  pub hook : ℕ
  pub priority : ℤ
  pub policy : Option ℕ

-- `nftables.Rule`. Nil user data are `none`.
pub record NfRule : Type 0 where
  pub table : Table
  pub chain : Bytes
  pub position : ℕ
  pub handle : ℕ
  pub exprs : List Expr
  pub user_data : Option Bytes
