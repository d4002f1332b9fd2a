-- ===== src/Host.antt =====
-- What the package does not implement: github.com/google/nftables/binaryutil, the netlink
-- connection (the interface NetNS of nftables_conn_api.go), random numbers and UUIDs. They are
-- parameters. A call that talks to the connection is a state transformer over its state.
mod Monad
mod Steps
mod Mutex
pub mod Finishes
pub use Monad.*
pub use Steps.*
pub use Mutex.*
use nftableslib.Base.{ℕ, List, Option, Bytes}
use nftableslib.Nft.{Table, Chain, NfSet, SetElement, NfRule}

-- binaryutil.BigEndian and NativeEndian
pub record BinaryUtil : Type 0 where
  pub be_put_uint16 : ℕ → Bytes
  pub be_put_uint32 : ℕ → Bytes
  pub be_uint32 : Bytes → ℕ
  pub ne_put_uint16 : ℕ → Bytes
  pub ne_put_uint32 : ℕ → Bytes

-- The state of the connection and of the random sources, and the calls that the package makes.
-- `add_set` returns the set as the library leaves it: it numbers and names an anonymous set.
pub record Host : Type 1 where
  pub S : Type 0
  pub new_uuid : S → Bytes × S
  pub rand_intn : ℕ → S → ℕ × S
  pub add_set : NfSet → List SetElement → Action S NfSet
  pub add_rule : NfRule → S → S
  pub insert_rule : NfRule → S → S
  pub del_rule : NfRule → Action S (Unit {0})
  pub flush : Action S (Unit {0})
  pub get_rule : Table → Bytes → Action S (List NfRule)
  pub add_table : Table → S → S
  pub del_table : Table → S → S
  pub list_tables : Action S (List Table)
  pub add_chain : Chain → S → Chain × S
  pub del_chain : Option Chain → S → S
  pub list_chains : Action S (List Chain)
  pub del_set : NfSet → S → S
  pub get_sets : Table → Action S (List NfSet)
  pub get_set_by_name : Table → Bytes → Action S NfSet
  pub get_set_elements : NfSet → Action S (List SetElement)
  pub set_add_elements : NfSet → List SetElement → Action S (Unit {0})
  pub set_delete_elements : NfSet → List SetElement → Action S (Unit {0})
