-- ===== src/Lifecycle/Operations.antt =====
-- The methods of `nfRules` over the list of nodes and the connection.
use nftableslib.Base.{
  ℕ, zero, suc, Option, none, some, List, Bytes, ok, panic, rule_not_found, is_zero, u64, ◌==◌,
  if◌then◌else◌,
}
use nftableslib.Nft.{Table, NfRule}
use nftableslib.Host.{BinaryUtil, Host, Action, ◌>>=◌, ◌>>◌, pure, lift, on_host, on_store, store}
use nftableslib.Rule.{Rule}
use nftableslib.Ranges.Order.{Sorter}
use nftableslib.Rules.Sets.{RuleSet}
use nftableslib.Rules.Build.{build_rule}
use nftableslib.RulesList.{
  RuleNode, modify, RuleStore, set_rule, allocate, add_rule, find_node, has_id, get_rule_by_id,
  get_rule_by_handle, remove_rule,
}
use nftableslib.Lifecycle.UserData.{stamp_user_data, handle_of}

-- `ruleOperation`
pub data RuleOperation : Type 0 where
  operation_add operation_insert operation_replace : RuleOperation

-- A new node's fields; its id and its pointers are Go's zero values.
abbrev pub new_node : NfRule × List RuleSet → RuleNode
new_node (rule, sets) = record { id = 0; rule = rule; sets = sets; next = none; prev = none }

abbrev pub set_handle : ℕ → RuleNode → RuleNode
set_handle handle n = record n { rule = record (n.rule) { handle = handle } }

module _ ⦃bin : BinaryUtil⦄ where
  -- The position and the user data of a new rule.
  abbrev pub stamp : Rule → ℕ → NfRule → NfRule
  stamp rule id r = record r {
    position = if is_zero rule.position then r.position else u64 rule.position;
    user_data = some (stamp_user_data rule.user_data id);
  }

module _ (host : Host) where
  -- The list of nodes beside the connection's state.
  abbrev pub Method : Type 0 → Type 0
  Method = Action (RuleStore × host.S)

  -- `AddRule`, `InsertRule` or neither.
  abbrev pub program : RuleOperation → NfRule → host.S → host.S
  program RuleOperation.operation_add rule s = host.add_rule rule s
  program RuleOperation.operation_insert rule s = host.insert_rule rule s
  program RuleOperation.operation_replace rule s = s

  -- `delete`
  unfoldable pub delete : ℕ → Method (Unit {0})
  delete id = do
    r ← store
    e ← lift (get_rule_by_id id r)
    (if (r.heap e).rule.handle == 0 then pure tt else on_host (host.del_rule (r.heap e).rule))
    on_store (remove_rule (r.heap e).id)

  -- `DeleteImm`
  unfoldable pub delete_imm : ℕ → Method (Unit {0})
  unfolding delete
  delete_imm handle = do
    r ← store
    e ← lift (get_rule_by_handle handle r)
    delete (r.heap e).id
    on_host host.flush

  -- `UpdateRuleHandleByID`
  unfoldable pub update_rule_handle_by_id : ℕ → ℕ → Method (Unit {0})
  update_rule_handle_by_id id handle = do
    r ← store
    e ← lift (find_node (has_id id) rule_not_found r.allocated r.heap r.rules)
    on_store λ r. ok (record r { heap = modify r.heap e (set_handle handle) })

  module _ ⦃bin : BinaryUtil⦄ (table : Table) (chain : Bytes) where
    -- `GetRuleHandle`
    unfoldable pub get_rule_handle : ℕ → Method ℕ
    get_rule_handle id = do rules ← on_host (host.get_rule table chain); lift (handle_of id rules)

    -- The loop of `UpdateRulesHandle`, with the fuel of a walk.
    unfoldable pub update_handles_from : (fuel : ℕ) → Option ℕ → Method (Unit {0})
    unfolding get_rule_handle
    update_handles_from fuel none = pure tt
    update_handles_from zero (some e) = lift panic
    update_handles_from (suc fuel) (some e) = do
      r ← store
      handle ← get_rule_handle (r.heap e).id
      on_store λ r. ok (record r { heap = modify r.heap e (set_handle handle) })
      update_handles_from fuel (r.heap e).next

    unfoldable pub update_rules_handle : Method (Unit {0})
    unfolding update_handles_from
    update_rules_handle = do r ← store; update_handles_from r.allocated r.rules

    module _ ⦃sorter : Sorter⦄ where
      -- `create`
      unfoldable pub create : RuleOperation → Rule → Method ℕ
      create op rule = do
        built ← on_host (build_rule host table chain rule)
        r ← store
        let e = r.allocated
        on_store λ r. add_rule e (allocate (new_node built) r)
        r ← store
        let id = (r.heap e).id
        let rule' = stamp rule id built.0
        on_store λ r. ok (record r { heap = modify r.heap e (set_rule rule') })
        on_host (λ s. (ok tt, program op rule' s))
        pure id

      -- `CreateImm` and `InsertImm`
      unfoldable pub create_imm : RuleOperation → Rule → Method ℕ
      unfolding create get_rule_handle update_rule_handle_by_id
      create_imm op rule = do
        id ← create op rule
        on_host host.flush
        handle ← get_rule_handle id
        update_rule_handle_by_id id handle
        pure handle

      -- `Update`: the rule keeps its node, and its user data get the id of the rule just built,
      -- which is 0.
      unfoldable pub update : Rule → ℕ → Method (Unit {0})
      update rule handle = do
        r ← store
        e ← lift (get_rule_by_handle handle r)
        (built, sets) ← on_host (build_rule host table chain rule)
        let rule' : NfRule = record built {
          handle = handle;
          user_data = some (stamp_user_data rule.user_data 0);
        }
        on_store λ r.
            ok (record r { heap = modify r.heap e (λ n. record n { rule = rule'; sets = sets }) })
        on_host (λ s. (ok tt, host.add_rule rule' s))
        on_host host.flush
