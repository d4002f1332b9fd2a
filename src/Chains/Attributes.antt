-- ===== src/Chains/Attributes.antt =====
-- The attributes of a base chain, and when a chain that exists already is the chain asked for.
use nftableslib.Base.{
  ℕ, ℤ, pos, Bool, true, false, not, ◌&&◌, Option, none, some, Bytes, List, [], Outcome, fail_if,
  no_chain_type, length, eq_bytes, ◌==◌, is_some, if◌then◌else◌, bytes_eq,
}
use nftableslib.Nft.{Table, Chain}
use nftableslib.RulesList.{RuleStore}
use nftableslib.Rule.Setters.{eq_int}

pub record ChainAttributes : Type 0 where
  pub chain_type : Bytes
  pub hook : ℕ
  pub priority : ℤ
  pub device : Bytes
  pub policy : Option ℕ

-- `nfChain`. The rules' list stands for its Rules Interface, which holds no other state.
pub record NfChain : Type 0 where
  pub base_chain : Bool
  pub chain : Option Chain
  pub rules : Option RuleStore

abbrev pub ChainMap : Type 0
ChainMap = List (Bytes × NfChain)

-- `ChainPolicyAccept`
abbrev pub policy_accept : ℕ
policy_accept = 1

-- `Validate`
unfoldable pub validate_attributes : ChainAttributes → Outcome (Unit {0})
validate_attributes attrs = fail_if (length attrs.chain_type == 0) no_chain_type

-- A policy that is asked for is the one that the chain has.
abbrev pub equal_policy : (asked has : Option ℕ) → Bool
equal_policy none has = true
equal_policy (some p) none = false
equal_policy (some p) (some q) = p == q

-- The match of the attributes, for a chain that is of the kind that they ask for.
abbrev pub equal_attributes : Chain → ChainAttributes → Bool
equal_attributes c attrs =
    (attrs.hook == c.hook)
    && eq_bytes attrs.chain_type c.chain_type
    && eq_int attrs.priority c.priority
    && equal_policy attrs.policy c.policy

-- `isEqualChain`
unfoldable pub is_equal_chain : NfChain → Option ChainAttributes → Bool
is_equal_chain ch attrs = elim ch.chain [
  | none ↦ false
  | some c ↦
      if not (is_some ch.rules)
      then false
      else elim attrs [ none ↦ not ch.base_chain | some a ↦ ch.base_chain && equal_attributes c a ]
]

-- The chain that `create` hands to the connection.
abbrev pub described_chain : Table → Bytes → Option ChainAttributes → Chain
described_chain table name none = record {
  name = name;
  table = table;
  chain_type = [];
  hook = 0;
  priority = pos 0;
  policy = none;
}
described_chain table name (some a) = record {
  name = name;
  table = table;
  chain_type = a.chain_type;
  hook = a.hook;
  priority = a.priority;
  policy = some (elim a.policy [ some p ↦ p | none ↦ policy_accept ]);
}

-- The chain is one of the table: the comparison of names and families.
abbrev pub is_of : Table → Chain → Bool
is_of table c = eq_bytes c.table.name table.name && (c.table.family == table.family)
