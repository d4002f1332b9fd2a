-- ===== src/Tests/Stores.antt =====
-- nfsets.go, nfchains.go and nftables.go at concrete stores.
use nftableslib.Base.{
  ℕ, ◌≡◌, refl, ◌≤◌, ◌<◌, ◌⊎◌, true, false, none, some, List, [], ◌∷◌, Bytes, Outcome, ok, err,
  conn_error, blocked, arith, length, lookup, insert, nat_eq, bytes_eq, pos, if◌then◌else◌,
}
use nftableslib.Nft.{SetDatatype, SetElement, NfRule}
use nftableslib.Host.{Guarded}
use nftableslib.Host.Finishes.{free, Finishes}
use nftableslib.Rule.Setters.{empty_action}
use nftableslib.Sets.{
  SetAttributes, SetMap, ElementValue, DatatypeFields, Datatypes, make_concat_element,
  gen_set_key_type, del_set, get_set_by_name, create_set, get_sets, get_set_elements,
  set_add_elements, set_del_elements,
}
use nftableslib.Sets.KeySize.{make_concat_element-key_type}
use nftableslib.Sets.Finishes.{methods-Finish}
use nftableslib.Sets.Contents.{
  Creates, Deletes, create_set-Creates, del_set-Deletes, first_unknown, synced, sync-synced,
}
use nftableslib.Chains.{
  ChainMap, NfChain, ChainAttributes, entry_of, described_chain, validate_attributes,
}
use nftableslib.Ranges.Collapse.{get_ip}
use nftableslib.Ranges.Build.{bound}
use nftableslib.Ranges.Value.{span}
use nftableslib.Sets.{NetParser, make_element}
use nftableslib.Sets.Interval.{verdict_of, make_element-Interval}
use nftableslib.Chains.{ready}
use nftableslib.Chains.Finishes.{chain_methods-Finish}
use nftableslib.Base.{◌+◌, ◌%◌, ◌^◌, eq_bytes}
use nftableslib.Chains.Rounds.{Tries, busy, without, delete_imm-Ends}
use nftableslib.Chains.Idempotent.{create-twice}
use nftableslib.Chains.Complete.{Synced, sync-Synced}
use nftableslib.Tables.{NfTable, TableMap, table_at, new_table, tables_of, table_chains, table_sets}
use nftableslib.Tables.Entries.{same_key, entry_after, create-Entries, delete-Entries, sync-Holds}
use nftableslib.Tests.Fixtures.{
  little_endian, insertion_sorter, counting_host, counting_answers, busy_host, listing_host,
  listing_answers, base_chain, named_set, table, blank_heap,
}

abbrev c_name : Bytes
c_name = b'c' ∷ []

abbrev s_name : Bytes
s_name = b's' ∷ []

abbrev start : ℕ × List NfRule
start = (0, [])

-- The sizes of IPv4 addresses and of ports.
instance abbrev sizes : Datatypes
sizes = record {
  fields = elim [
    | SetDatatype.ip_addr_type ↦ record { name = b'a' ∷ []; bytes = 4; magic = 7 }
    | SetDatatype.inet_service_type ↦ record { name = b'p' ∷ []; bytes = 2; magic = 13 }
    | _ ↦ record { name = []; bytes = 0; magic = 0 }
  ];
  concat_type_bits = 6;
}

abbrev key_types : List SetDatatype
key_types = SetDatatype.ip_addr_type ∷ SetDatatype.inet_service_type ∷ []

abbrev value : ElementValue
value = record {
  addr = [];
  port = none;
  addr_ip = none;
  action = none;
  integer = none;
  ip_addr = some (10 ∷ 0 ∷ 0 ∷ 1 ∷ []);
  ether_addr = none;
  inet_proto = none;
  inet_service = some 80;
  mark = none;
}

make_concat_element-key_type_example :
    (e : SetElement) × (make_concat_element key_types (value ∷ value ∷ []) (some empty_action)
      ≡ ok e)
    × (length e.key ≡ (gen_set_key_type key_types).bytes)
    × (e.verdict_data ≡ none)
make_concat_element-key_type_example =
    make_concat_element-key_type key_types (value ∷ value ∷ []) empty_action
      ((10 ∷ 0 ∷ 0 ∷ 1 ∷ [], refl, refl, omega arith), ((0 ∷ 80 ∷ [], refl, refl, omega arith), tt))
      (omega arith) (omega arith)

abbrev attributes : SetAttributes
attributes = record {
  name = s_name;
  constant = false;
  is_map = false;
  has_timeout = false;
  timeout = 0;
  interval = false;
  key_type = SetDatatype.ip_addr_type;
  data_type = SetDatatype.no_type;
}

methods-Finish_example :
    Finishes (create_set counting_host table (some attributes) [])
    × Finishes (nftableslib.Sets.exist counting_host table s_name)
    × Finishes (get_set_by_name counting_host table s_name)
    × Finishes (del_set counting_host table s_name)
    × Finishes (get_sets counting_host table)
    × Finishes (get_set_elements counting_host table s_name)
    × Finishes (set_add_elements counting_host table s_name [])
    × Finishes (set_del_elements counting_host table s_name [])
methods-Finish_example = methods-Finish counting_host counting_answers table attributes s_name []

abbrev one_set : SetMap
one_set = (s_name, named_set) ∷ []

create_set-Creates_example :
    Creates s_name one_set
      (create_set counting_host table (some attributes) [] (free one_set, start))
create_set-Creates_example = create_set-Creates counting_host table attributes [] one_set start

del_set-Deletes_example :
    Deletes s_name one_set true (del_set counting_host table s_name (free one_set, start))
unfolding nftableslib.Sets.exist lookup
del_set-Deletes_example = del_set-Deletes counting_host table s_name one_set start start true refl

sync-synced_example :
    nftableslib.Sets.sync counting_host table (free [], start)
    ≡ synced counting_host table [] start (first_unknown counting_host table [] (named_set ∷ []))
sync-synced_example = sync-synced counting_host table [] start start (named_set ∷ []) refl

abbrev base_attributes : ChainAttributes
base_attributes = record {
  chain_type = b'n' ∷ [];
  hook = 1;
  priority = pos 0;
  device = [];
  policy = none;
}

abbrev base_entry : NfChain
base_entry = entry_of counting_host blank_heap table true base_chain

delete_imm-Ends_example :
    (n : ℕ) × (o : Outcome (Unit {0})) × (t : ℕ × List NfRule) × Tries busy_host
      (some base_chain)
      n
      start
      o
      t
    × (n ≤ 10)
    × ((n ≡ 10) ⊎ (busy o ≡ false))
    × (nftableslib.Chains.delete_imm busy_host 10 c_name (free ((c_name, base_entry) ∷ []), start)
        ≡ (o, (free (without c_name ((c_name, base_entry) ∷ []) o), t)))
unfolding lookup
delete_imm-Ends_example =
    delete_imm-Ends busy_host 10 c_name ((c_name, base_entry) ∷ []) base_entry start refl

abbrev created_entry : NfChain
created_entry =
    entry_of counting_host blank_heap table true
      (described_chain table c_name (some base_attributes))

abbrev created_chain : Guarded ChainMap × (ℕ × List NfRule)
created_chain = (free ((c_name, created_entry) ∷ []), (1, []))

create-twice_example :
    nftableslib.Chains.create counting_host blank_heap table c_name
      (some base_attributes)
      created_chain
    ≡ (ok tt, created_chain)
unfolding nftableslib.Chains.create lookup insert validate_attributes
create-twice_example =
    create-twice counting_host blank_heap table c_name (some base_attributes) [] start created_chain
      (λ c s. refl) refl

sync-Synced_example :
    Synced table []
      (base_chain ∷ [])
      (nftableslib.Chains.sync listing_host blank_heap table (free [], start))
sync-Synced_example = sync-Synced listing_host blank_heap table listing_answers [] start

create-Entries_example :
    (m' : TableMap) × (t : ℕ × List NfRule) × (nftableslib.Tables.create counting_host c_name 2
        (free [], start)
      ≡ (ok tt, (free m', t)))
    × ((n : Bytes) (f : ℕ)
        → table_at n f m'
          ≡ (if same_key c_name 2 n f then some (entry_after c_name 2 []) else table_at n f []))
create-Entries_example = create-Entries counting_host c_name 2 [] start

abbrev one_table : TableMap
one_table = (2, (c_name, new_table c_name 2) ∷ []) ∷ []

delete-Entries_example :
    (m' : TableMap) × (t : ℕ × List NfRule) × (nftableslib.Tables.delete counting_host c_name 2
        (free one_table, start)
      ≡ (ok tt, (free m', t)))
    × ((n : Bytes) (f : ℕ)
        → table_at n f m' ≡ (if same_key c_name 2 n f then none else table_at n f one_table))
    × ((lookup 2 m' ≡ none) ⊎ (0 < length (tables_of 2 m')))
delete-Entries_example = delete-Entries counting_host c_name 2 one_table start counting_answers

sync-Holds_example :
    (st : Guarded TableMap × (ℕ × List NfRule)) × (nftableslib.Tables.sync busy_host blank_heap 2
        (free one_table, start)
      ≡ (err (conn_error 1), st))
    × (nftableslib.Tables.create busy_host c_name 10 st ≡ (blocked, st))
    × (nftableslib.Tables.create_imm busy_host c_name 10 st ≡ (blocked, st))
    × (nftableslib.Tables.delete busy_host c_name 10 st ≡ (blocked, st))
    × (nftableslib.Tables.get busy_host 10 st ≡ (blocked, st))
    × (table_chains busy_host c_name 10 st ≡ (blocked, st))
    × (table_sets busy_host c_name 10 st ≡ (blocked, st))
sync-Holds_example =
    sync-Holds busy_host blank_heap c_name 2 10 one_table start start (conn_error 1) refl

chain_methods-Finish_example :
    Finishes (nftableslib.Chains.chain counting_host c_name)
    × Finishes (nftableslib.Chains.create counting_host blank_heap table c_name none)
    × Finishes (nftableslib.Chains.create_imm counting_host blank_heap table c_name none)
    × Finishes (nftableslib.Chains.delete counting_host c_name)
    × Finishes (nftableslib.Chains.delete_imm counting_host 10 c_name)
    × Finishes (nftableslib.Chains.exist counting_host blank_heap table c_name)
    × Finishes (nftableslib.Chains.get counting_host blank_heap table)
    × Finishes (ready counting_host table c_name)
    × Finishes (nftableslib.Chains.sync counting_host blank_heap table)
chain_methods-Finish_example =
    chain_methods-Finish counting_host blank_heap table counting_answers c_name none 10

-- A parser that knows the text "n", of the network 10.1.0.0/16.
instance abbrev one_network : NetParser
one_network = record {
  parse_cidr = λ text. if eq_bytes text (b'n' ∷ []) then some (10 ∷ 1 ∷ 0 ∷ 0 ∷ [], 16) else none;
  parse_ip = λ text. none;
}

abbrev network_value : ElementValue
network_value = record value { addr = b'n' ∷ []; action = some empty_action }

make_element-Interval_example :
    (gap : Bytes) × (make_element (some network_value)
      ≡ ok (
          record (bound (10 ∷ 1 ∷ 0 ∷ 0 ∷ []) false) {
            verdict_data = verdict_of (some empty_action);
          }
          ∷ bound gap true
          ∷ []))
    × (length gap ≡ 4)
    × (nftableslib.Ranges.Value.value gap
        ≡ (nftableslib.Ranges.Value.value (10 ∷ 1 ∷ 0 ∷ 0 ∷ []) + 2 ^ 16) % span 4)
unfolding get_ip
make_element-Interval_example =
    make_element-Interval network_value (10 ∷ 1 ∷ 0 ∷ 0 ∷ []) 16 refl refl (omega arith)
      (omega arith) (omega arith) (omega arith) (λ less. refl) refl refl
