-- ===== src/Lifecycle/Create.antt =====
-- `create` appends the built rule to the list, stamped with its id, and hands it to the connection.
use nftableslib.Base.{ℕ, refl, ap, sym, List, Bytes, Outcome, ok}
use mathlib.Core.Path.{subst}
use nftableslib.Nft.{Table, NfRule}
use nftableslib.Host.{BinaryUtil, Host, Action, ◌>>=◌, ◌>>◌, pure, on_host, on_store, store}
use nftableslib.Rule.{Rule}
use nftableslib.Ranges.Order.{Sorter}
use nftableslib.Rules.Sets.{RuleSet}
use nftableslib.Rules.Build.{build_rule}
use nftableslib.RulesList.{RuleStore, modify, set_rule, allocate, add_rule}
use nftableslib.RulesList.Store.{Ledger, Implements, new_id, append_rule}
use nftableslib.RulesList.Refines.{add_rule-Appended, Appended-Implements}
use nftableslib.Lifecycle.Operations.{RuleOperation, new_node, stamp, program, create}
use nftableslib.Lifecycle.Simulation.{Agrees, Same, Simulates-bind}
use nftableslib.Lifecycle.Delete.{on_host-Simulates}

module _ ⦃bin : BinaryUtil⦄ ⦃sorter : Sorter⦄ (host : Host) (table : Table) (chain : Bytes) where
  -- What is left to do with a built rule, on a plain list.
  abbrev pub append_built :
      RuleOperation → Rule → NfRule × List RuleSet → Action (Ledger × host.S) ℕ
  append_built op rule built = do
    l ← store
    let rule' = stamp rule (new_id l) built.0
    on_store λ l. ok (append_rule rule' built.1 l)
    on_host λ s. (ok tt, program host op rule' s)
    pure (new_id l)

  -- `create` on a plain list.
  abbrev pub create_entry : RuleOperation → Rule → Action (Ledger × host.S) ℕ
  create_entry op rule = on_host (build_rule host table chain rule) >>= append_built op rule

  -- The end of `create`: the new node at address e has the id.
  abbrev finish :
      RuleOperation → Rule → NfRule × List RuleSet → ℕ → (id : ℕ) → Action (RuleStore × host.S) ℕ
  finish op rule built e id = do
    let rule' = stamp rule id built.0
    on_store λ r. ok (record r { heap = modify r.heap e (set_rule rule') })
    on_host λ s. (ok tt, program host op rule' s)
    pure id

  -- The rest of `create` behind `buildRule`; o is what `addRule` returns.
  abbrev add_built :
      RuleOperation
      → Rule
      → NfRule × List RuleSet
      → ℕ
      → Outcome RuleStore
      → Action (RuleStore × host.S) ℕ
  add_built op rule built e o = do on_store λ _. o; r ← store; finish op rule built e (r.heap e).id

  add_built-Agrees :
      (op : RuleOperation) (rule : Rule) (built : NfRule × List RuleSet) (r : RuleStore)
      (l : Ledger) (s : host.S)
      → Implements r l
      → Agrees host
          (Same host)
          (add_built op rule built r.allocated
            (add_rule r.allocated (allocate (new_node built) r))
            (r, s))
          (append_built op rule built (l, s))
  add_built-Agrees op rule built r l s i =
      let (r', added, appended) = add_rule-Appended (new_node built) r l i in
      let (ps, runs, out, old, own, next_id) = appended in
      let result = append_built op rule built (l, s) in
      subst (λ o. Agrees host (Same host) (add_built op rule built r.allocated o (r, s)) result)
        (sym added)
        (subst (λ id. Agrees host (Same host) (finish op rule built r.allocated id (r', s)) result)
          (sym (ap (λ x. x.id) own))
          (
            refl,
            Appended-Implements (new_node built) r l r' (stamp rule (new_id l) built.0) appended,
            refl,
          ))

  -- From a list on the heap and the plain list that it implements, `create` and `create_entry`
  -- return the same id or the same error and leave the connection in the same state, and the heap
  -- that is left implements the plain list that is left: a rule that is built stands at its end,
  -- stamped with its id, whether it is added or inserted.
  pub create-Agrees :
      (op : RuleOperation) (rule : Rule) (r : RuleStore) (l : Ledger) (s : host.S)
      → Implements r l
      → Agrees host
          (Same host)
          (create host table chain op rule (r, s))
          (create_entry op rule (l, s))
  unfolding create
  create-Agrees op rule =
      Simulates-bind host (Same host) (Same host) (on_host (build_rule host table chain rule))
        (on_host (build_rule host table chain rule))
        (λ built r.
          add_built op rule built r.0.allocated
            (add_rule r.0.allocated (allocate (new_node built) r.0)) r)
        (append_built op rule) (on_host-Simulates host (build_rule host table chain rule))
        λ built built' p r l s i. rw p (add_built-Agrees op rule built' r l s i)
