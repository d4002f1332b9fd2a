-- ===== src/Rule/Types.antt =====
-- The structs themselves, in the order of nfrules.go and nfconcatrule.go.
use nftableslib.Base.{ℕ, ℤ, Bool, Option, List, Bytes}
use nftableslib.Nft.{SetDatatype, Verdict}
use nftableslib.Rule.Address.{IpAddr}

-- `Operator`: EQ or NEQ.
pub data Operator : Type 0 where
  eq_op neq_op : Operator

pub record SetRef : Type 0 where
  pub name : Bytes
  pub id : ℕ
  pub is_map : Bool

-- `Range` is an array of two pointers.
pub record IpAddrSpec : Type 0 where
  pub list : Option (List (Option IpAddr))
  pub range_from : Option IpAddr
  pub range_to : Option IpAddr
  pub set_ref : Option SetRef
  pub rel_op : Operator

-- `Counter` has no field: a pointer to it is nil or not.
pub record L3Rule : Type 0 where
  pub src : Option IpAddrSpec
  pub dst : Option IpAddrSpec
  pub version : Option ℕ
  pub protocol : Option ℕ
  pub rel_op : Operator
  pub counter : Bool

pub record Port : Type 0 where
  pub list : Option (List (Option ℕ))
  pub range_from : Option ℕ
  pub range_to : Option ℕ
  pub rel_op : Operator
  pub set_ref : Option SetRef

pub record L4Rule : Type 0 where
  pub l4_proto : ℕ
  pub src : Option Port
  pub dst : Option Port
  pub rel_op : Operator
  pub counter : Bool

pub record Redirect : Type 0 where
  pub port : ℕ
  pub tproxy : Bool

pub record Masquerade : Type 0 where
  pub random : Option Bool
  pub fully_random : Option Bool
  pub persistent : Option Bool
  pub port_from : Option ℕ
  pub port_to : Option ℕ

pub record Nat : Type 0 where
  pub nat_type : ℕ
  pub random : Option Bool
  pub fully_random : Option Bool
  pub persistent : Option Bool
  pub address : Option IpAddrSpec
  pub port : Option Port

pub record Reject : Type 0 where
  pub reject_type : ℕ
  pub reject_code : ℕ

pub record Loadbalance : Type 0 where
  pub chains : List Bytes
  pub action : ℤ
  pub mode : ℤ

pub record MetaMark : Type 0 where
  pub set_mark : Bool
  pub value : ℕ
  pub mask : ℕ

pub record MetaExpr : Type 0 where
  pub key : ℕ
  pub value : Bytes
  pub rel_op : Operator

pub record Meta : Type 0 where
  pub mark : Option MetaMark
  pub exprs : List MetaExpr

pub record RuleAction : Type 0 where
  pub verdict : Option Verdict
  pub redirect : Option Redirect
  pub masq : Option Masquerade
  pub nat : Option Nat
  pub reject : Option Reject
  pub loadbalance : Option Loadbalance

pub record Log : Type 0 where
  pub key : ℕ
  pub value : Bytes

pub record Fib : Type 0 where
  pub result_oif : Bool
  pub result_oifname : Bool
  pub result_addrtype : Bool
  pub flag_saddr : Bool
  pub flag_daddr : Bool
  pub flag_mark : Bool
  pub flag_iif : Bool
  pub flag_oif : Bool
  pub flag_present : Bool
  pub rel_op : Operator
  pub content : Bytes

pub record Conntrack : Type 0 where
  pub key : ℕ
  pub value : Bytes

-- `MatchType` is a uint32 of which 0 to 3 are named.
pub record Dynamic : Type 0 where
  pub match_type : ℕ
  pub op : ℕ
  pub key : ℕ
  pub set_ref : Option SetRef
  pub timeout : ℕ
  pub invert : Bool

-- The map `ActElement` is a list in the order in which Go's `range` meets its keys.
pub record MatchAct : Type 0 where
  pub match_type : ℕ
  pub match_ref : Option SetRef
  pub act_element : List (ℤ × Option RuleAction)

pub record ConcatElement : Type 0 where
  pub e_type : SetDatatype
  pub e_proto : ℕ
  pub e_source : Bool
  pub e_mask : Bytes

pub record Concat : Type 0 where
  pub elements : List (Option ConcatElement)
  pub vmap : Bool
  pub set_ref : Option SetRef

-- `Rule`. A Go slice that is only ranged over is a list.
pub record Rule : Type 0 where
  pub concat : Option Concat
  pub dynamic : Option Dynamic
  pub match_act : Option MatchAct
  pub fib : Option Fib
  pub l3 : Option L3Rule
  pub l4 : Option L4Rule
  pub conntracks : List (Option Conntrack)
  pub meta : Option Meta
  pub log : Option Log
  pub rel_op : Operator
  pub counter : Bool
  pub action : Option RuleAction
  pub user_data : Bytes
  pub position : ℤ
