-- ===== src/RulesList/Operations.antt =====
-- The functions of nfruleslist.go. A walk follows `next` and has as much fuel as there are
-- allocated nodes; should it run out, the outcome is a panic.
use nftableslib.Base.{
  ℕ, zero, suc, ◌+◌, ◌%◌, ◌^◌, Bool, Option, none, some, List, [], ◌∷◌, Outcome, ok, err, panic,
  Error, id_not_found, rule_not_found, ◌>>=◌, ◌==◌, if◌then◌else◌,
}
use nftableslib.RulesList.Node.{RuleNode, Heap, modify, RuleStore, set_next, set_prev, set_links}

-- `newRules`, whatever the heap holds so far: no node is in use.
abbrev pub new_rules : Heap → RuleStore
new_rules heap = record { heap = heap; allocated = 0; current_id = 10; rules = none }

abbrev pub initial_rule_id : ℕ
initial_rule_id = 10

abbrev pub rule_id_increment : ℕ
rule_id_increment = 10

-- `r.currentID += ruleIDIncrement`, on uint32
abbrev pub advance : ℕ → ℕ
advance id = (id + rule_id_increment) % 2 ^ 32

-- `getLast`
unfoldable pub get_last : (fuel : ℕ) → Heap → ℕ → Outcome ℕ
get_last zero heap e = panic
get_last (suc fuel) heap e = elim (heap e).next [ none ↦ ok e | some e' ↦ get_last fuel heap e' ]

-- `&nfRule{...}`: a node at an address of its own.
abbrev pub allocate : RuleNode → RuleStore → RuleStore
allocate n r = record r { heap = modify r.heap r.allocated (λ _. n); allocated = r.allocated + 1 }

-- The two cases of `addRule`, for the node at address e.
abbrev pub start_with : ℕ → RuleStore → RuleStore
start_with e r = record r {
  heap = modify r.heap e (set_links initial_rule_id none);
  rules = some e;
  current_id = advance initial_rule_id;
}

abbrev pub link_behind : (last e : ℕ) → RuleStore → RuleStore
link_behind last e r = record r {
  heap = modify (modify r.heap last (set_next (some e))) e (set_links r.current_id (some last));
  current_id = advance r.current_id;
}

-- `addRule`, by the pointer to the first node.
unfoldable pub add_after : Option ℕ → ℕ → RuleStore → Outcome RuleStore
unfolding get_last
add_after none e r = ok (start_with e r)
add_after (some first) e r = do last ← get_last r.allocated r.heap first; ok (link_behind last e r)

unfoldable pub add_rule : ℕ → RuleStore → Outcome RuleStore
unfolding add_after
add_rule e r = add_after r.rules e r

-- The walk that `removeRule`, `getRuleByID` and `getRuleByHandle` make: the first node that passes
-- the test.
unfoldable pub find_node : (RuleNode → Bool) → Error → (fuel : ℕ) → Heap → Option ℕ → Outcome ℕ
find_node test missing fuel heap none = err missing
find_node test missing zero heap (some e) = panic
find_node test missing (suc fuel) heap (some e) =
    let rest = find_node test missing fuel heap (heap e).next in
    if test (heap e) then ok e else rest

abbrev pub has_id : ℕ → RuleNode → Bool
has_id id n = n.id == id

abbrev pub has_handle : ℕ → RuleNode → Bool
has_handle handle n = n.rule.handle == handle

unfoldable pub get_rule_by_id : ℕ → RuleStore → Outcome ℕ
get_rule_by_id id r = find_node (has_id id) rule_not_found r.allocated r.heap r.rules

unfoldable pub get_rule_by_handle : ℕ → RuleStore → Outcome ℕ
get_rule_by_handle handle r =
    find_node (has_handle handle) rule_not_found r.allocated r.heap r.rules

-- What `removeRule` does with a node whose neighbours are prev and next.
unfoldable pub unlink : (prev next : Option ℕ) → RuleStore → RuleStore
unlink none none r = record r { rules = none }
unlink none (some n) r = record r { rules = some n; heap = modify r.heap n (set_prev none) }
unlink (some p) none r = record r { heap = modify r.heap p (set_next none) }
unlink (some p) (some n) r = record r {
  heap = modify (modify r.heap p (set_next (some n))) n (set_prev (some p));
}

unfoldable pub remove_rule : ℕ → RuleStore → Outcome RuleStore
unfolding unlink
remove_rule id r = do
  e ← find_node (has_id id) id_not_found r.allocated r.heap r.rules
  ok (unlink (r.heap e).prev (r.heap e).next r)

-- `dumpRules`: the addresses in the order of the list.
unfoldable pub dump_from : (fuel : ℕ) → Heap → Option ℕ → Outcome (List ℕ)
dump_from fuel heap none = ok []
dump_from zero heap (some e) = panic
dump_from (suc fuel) heap (some e) = do rest ← dump_from fuel heap (heap e).next; ok (e ∷ rest)

unfoldable pub dump_rules : RuleStore → Outcome (List ℕ)
dump_rules r = dump_from r.allocated r.heap r.rules

-- `countRules`
unfoldable pub count_from : (fuel : ℕ) → Heap → Option ℕ → (count : ℕ) → Outcome ℕ
count_from fuel heap none count = ok count
count_from zero heap (some e) count = panic
count_from (suc fuel) heap (some e) count = count_from fuel heap (heap e).next (count + 1)

unfoldable pub count_rules : RuleStore → Outcome ℕ
count_rules r = count_from r.allocated r.heap r.rules 0
