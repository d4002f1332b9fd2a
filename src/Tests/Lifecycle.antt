-- ===== src/Tests/Lifecycle.antt =====
-- nfruleslist.go and the methods of nfrules.go at concrete lists.
use nftableslib.Base.{
  ℕ, zero, suc, ap₂, ◌+◌, ◌%◌, ◌^◌, ◌≡◌, refl, pos, true, none, some, [], ◌∷◌, ◌++◌, ok, arith,
  length, ◌==◌, List, ◌≤◌,
}
use nftableslib.Nft.{NfRule}
use nftableslib.Rule.{Rule, eq_op}
use nftableslib.RulesList.{
  RuleNode, RuleStore, modify, set_next, allocate, add_rule, get_rule_by_id, get_rule_by_handle,
  dump_rules, count_rules, find_node, remove_rule, start_with, add_after, new_rules,
}
use nftableslib.RulesList.Store.{entries, Ledger, new_id, append_rule, Implements}
use nftableslib.RulesList.Numbering.{Ascending, Step, Reachable, Reachable-Ascending}
use nftableslib.RulesList.Refines.{add_rule-Implements}
use nftableslib.RulesList.Removal.{Matches, remove_entry, remove_rule-Implements}
use nftableslib.RulesList.Queries.{find_entry, IsEntry, queries-Implement}
use nftableslib.Lifecycle.{
  stamp_user_data, read_rule_id, strip_rule_id, make_rule_comment, RuleOperation, delete,
  delete_imm, create,
}
use nftableslib.Lifecycle.Stamp.{
  IsBigEndian, stamp_user_data-read_rule_id, comment_text, make_rule_comment-eq,
}
use nftableslib.Lifecycle.Simulation.{Agrees, Same}
use nftableslib.Lifecycle.Delete.{delete_entry, delete_entry_imm, delete-Agrees}
use nftableslib.Lifecycle.Create.{create_entry, create-Agrees}
use nftableslib.Lifecycle.{create_imm, update}
use nftableslib.Lifecycle.Update.{update_entry, update-Agrees}
use nftableslib.Lifecycle.CreateImm.{create_entry_imm, create_imm-Agrees}
use nftableslib.Lifecycle.Sync.{append_rules, sync, sync-Agrees}
use nftableslib.Host.{◌>>=◌, on_host}
use nftableslib.Tests.Fixtures.{little_endian, insertion_sorter, counting_host, table}

abbrev programmed : ℕ → NfRule
programmed handle = record {
  table = table;
  chain = b'c' ∷ [];
  position = 0;
  handle = handle;
  exprs = [];
  user_data = none;
}

abbrev at_address : ℕ → RuleNode
at_address zero = record { id = 10; rule = programmed 5; sets = []; next = some 1; prev = none }
at_address (suc zero) = record {
  id = 20;
  rule = programmed 0;
  sets = [];
  next = none;
  prev = some 0;
}
at_address (suc (suc _)) = record {
  id = 0;
  rule = programmed 0;
  sets = [];
  next = none;
  prev = none;
}

abbrev two_nodes : RuleStore
two_nodes = record { heap = at_address; allocated = 2; current_id = 30; rules = some 0 }

abbrev two_rules : Ledger
two_rules = record {
  rules =
      record { id = 10; rule = programmed 5; sets = [] }
      ∷ record { id = 20; rule = programmed 0; sets = [] }
      ∷ [];
  next_id = 30;
}

two_nodes-Implements : Implements two_nodes two_rules
two_nodes-Implements = (
  0 ∷ 1 ∷ [],
  (refl, (refl, refl, refl, (refl, refl, refl, tt)), (omega arith, (omega arith, tt)), omega arith),
  refl,
)

abbrev new_one : RuleNode
new_one = record { id = 0; rule = programmed 7; sets = []; next = none; prev = none }

add_rule-Implements_example :
    (r' : RuleStore) × (add_rule 2 (allocate new_one two_nodes) ≡ ok r')
    × Implements r' (append_rule (programmed 7) [] two_rules)
    × ((r'.heap 2).id ≡ new_id two_rules)
add_rule-Implements_example = add_rule-Implements new_one two_nodes two_rules two_nodes-Implements

remove_rule-Implements_example :
    Matches Implements (remove_rule 10 two_nodes) (remove_entry 10 two_rules)
remove_rule-Implements_example = remove_rule-Implements 10 two_nodes two_rules two_nodes-Implements

removed_last :
    remove_rule 20 two_nodes ≡ ok (record two_nodes { heap = modify at_address 0 (set_next none) })
unfolding remove_rule find_node
removed_last = refl

queries-Implement_example :
    Matches
      (IsEntry two_nodes)
      (get_rule_by_id 20 two_nodes)
      (find_entry (λ e. e.id == 20) two_rules.rules)
    × Matches
        (IsEntry two_nodes)
        (get_rule_by_handle 20 two_nodes)
        (find_entry (λ e. e.rule.handle == 20) two_rules.rules)
    × ((ps : List ℕ) × (dump_rules two_nodes ≡ ok ps) × (entries at_address ps ≡ two_rules.rules))
    × (count_rules two_nodes ≡ ok 2)
queries-Implement_example = queries-Implement two_nodes two_rules 20 two_nodes-Implements

delete-Agrees_example :
    Agrees counting_host
      (Same counting_host)
      (delete counting_host 5 (two_nodes, (0, [])))
      (delete_entry counting_host 5 (two_rules, (0, [])))
    × Agrees counting_host
        (Same counting_host)
        (delete_imm counting_host 5 (two_nodes, (0, [])))
        (delete_entry_imm counting_host 5 (two_rules, (0, [])))
delete-Agrees_example =
    delete-Agrees counting_host 5 two_nodes two_rules (0, []) two_nodes-Implements

abbrev counted : Rule
counted = record {
  concat = none;
  dynamic = none;
  match_act = none;
  fib = none;
  l3 = none;
  l4 = none;
  conntracks = [];
  meta = none;
  log = none;
  rel_op = eq_op;
  counter = true;
  action = none;
  user_data = b'x' ∷ [];
  position = pos 5;
}

create-Agrees_example :
    Agrees counting_host
      (Same counting_host)
      (create counting_host table
        (b'c' ∷ [])
        RuleOperation.operation_insert
        counted
        (two_nodes, (0, [])))
      (create_entry counting_host table
        (b'c' ∷ [])
        RuleOperation.operation_insert
        counted
        (two_rules, (0, [])))
create-Agrees_example =
    create-Agrees counting_host table (b'c' ∷ []) RuleOperation.operation_insert counted two_nodes
      two_rules (0, []) two_nodes-Implements

pub little_endian-IsBigEndian : IsBigEndian little_endian
little_endian-IsBigEndian =
    (λ n h. ap₂ (λ a b. a ∷ b ∷ []) (omega arith) (omega arith), λ a b c d. omega arith)

stamp_user_data-read_rule_id_example :
    (read_rule_id (stamp_user_data (b'x' ∷ []) 300) ≡ ok (300 % 2 ^ 16))
    × (strip_rule_id (stamp_user_data (b'x' ∷ []) 300) ≡ ok (b'x' ∷ []))
stamp_user_data-read_rule_id_example =
    stamp_user_data-read_rule_id (b'x' ∷ []) 300 little_endian-IsBigEndian

make_rule_comment-eq_example :
    (make_rule_comment (b'h' ∷ b'i' ∷ [])
      ≡ 0 ∷ (length (comment_text (b'h' ∷ b'i' ∷ [])) + 1) ∷ comment_text (b'h' ∷ b'i' ∷ [])
        ++ 0 ∷ [])
    × (length (comment_text (b'h' ∷ b'i' ∷ [])) ≤ 127)
make_rule_comment-eq_example = make_rule_comment-eq (b'h' ∷ b'i' ∷ [])

-- A new list, the list with one node, and the list with that node removed.
abbrev one_node : RuleStore
one_node = start_with 0 (allocate new_one (new_rules at_address))

one_node_added : add_rule 0 (allocate new_one (new_rules at_address)) ≡ ok one_node
unfolding add_rule add_after
one_node_added = refl

one_node-Reachable : Reachable one_node
one_node-Reachable =
    Reachable.steps (new_rules at_address) one_node (Reachable.starts at_address)
      (Step.adds new_one (new_rules at_address) one_node (omega arith) one_node_added)

Reachable-Ascending_example :
    (ps : List ℕ) × (dump_rules one_node ≡ ok ps)
    × Ascending 0 one_node.current_id (entries one_node.heap ps)
Reachable-Ascending_example = Reachable-Ascending one_node one_node-Reachable

sync-Agrees_example :
    Agrees counting_host
      (Same counting_host)
      (sync counting_host table (b'c' ∷ []) (two_nodes, (0, programmed 9 ∷ [])))
      ((on_host (counting_host.get_rule table (b'c' ∷ [])) >>= append_rules counting_host table)
        (two_rules, (0, programmed 9 ∷ [])))
sync-Agrees_example =
    sync-Agrees counting_host table (b'c' ∷ []) two_nodes two_rules (0, programmed 9 ∷ [])
      two_nodes-Implements

create_imm-Agrees_example :
    Agrees counting_host
      (Same counting_host)
      (create_imm counting_host table
        (b'c' ∷ [])
        RuleOperation.operation_add
        counted
        (two_nodes, (0, [])))
      (create_entry_imm counting_host table
        (b'c' ∷ [])
        RuleOperation.operation_add
        counted
        (two_rules, (0, [])))
create_imm-Agrees_example =
    create_imm-Agrees counting_host table (b'c' ∷ []) RuleOperation.operation_add counted two_nodes
      two_rules (0, []) two_nodes-Implements

update-Agrees_example :
    Agrees counting_host
      (Same counting_host)
      (update counting_host table (b'c' ∷ []) counted 5 (two_nodes, (0, [])))
      (update_entry counting_host table (b'c' ∷ []) counted 5 (two_rules, (0, [])))
update-Agrees_example =
    update-Agrees counting_host table (b'c' ∷ []) counted 5 two_nodes two_rules (0, [])
      two_nodes-Implements
