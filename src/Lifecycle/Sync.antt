-- ===== src/Lifecycle/Sync.antt =====
-- `nfRules.Sync`: the rules of the chain that the kernel has are put behind those of the list.
use nftableslib.Base.{
  none, some, List, [], ◌∷◌, Bytes, false, ok, eq_bytes, if◌then◌else◌, refl, sym,
}
use mathlib.Core.Path.{subst}
use nftableslib.Nft.{Expr, Table, NfRule, NfSet, SetDatatype}
use nftableslib.Host.{Host, Action, ◌>>=◌, ◌>>◌, pure, on_host, on_store, keep}
use nftableslib.Rules.Sets.{RuleSet}
use nftableslib.RulesList.{RuleStore, allocate, add_rule}
use nftableslib.RulesList.Store.{Ledger, Implements, append_rule}
use nftableslib.RulesList.Refines.{add_rule-Implements}
use nftableslib.Lifecycle.Operations.{new_node, Method}
use nftableslib.Lifecycle.Simulation.{Agrees, Simulates, Same, Simulates-bind}
use nftableslib.Lifecycle.Delete.{on_host-Simulates}

-- `&nftables.Set{}`
abbrev pub no_set : NfSet
no_set = record {
  table = none;
  id = 0;
  name = [];
  anonymous = false;
  constant = false;
  interval = false;
  is_map = false;
  has_timeout = false;
  timeout = 0;
  key_type = SetDatatype.no_type;
  data_type = SetDatatype.no_type;
}

-- The names of the sets that the lookups of a rule read.
abbrev pub lookup_names : List Expr → List Bytes
lookup_names [] = []
lookup_names (e ∷ es) =
    let rest = lookup_names es in elim e [ Expr.lookup l ↦ l.set_name ∷ rest | _ ↦ rest ]

module _ (host : Host) (table : Table) where
  -- The loop of `getSet`, which writes the table into the set that it returns.
  abbrev pub named_in : Bytes → List NfSet → NfSet
  named_in name [] = no_set
  named_in name (set ∷ sets) =
      let rest = named_in name sets in
      if eq_bytes set.name name then record set { table = some table } else rest

  -- `getSet`
  abbrev pub get_set : Bytes → Action host.S NfSet
  get_set name = do sets ← host.get_sets table; pure (named_in name sets)

  -- The loop over the expressions of a rule, with `getSetElements`.
  unfoldable pub read_sets : List Bytes → Action host.S (List RuleSet)
  read_sets [] = pure []
  read_sets (name ∷ names) = do
    set ← get_set name
    elements ← host.get_set_elements set
    rest ← read_sets names
    pure (record { set = set; elements = elements } ∷ rest)

  -- The loop over the rules.
  unfoldable pub sync_rules : List NfRule → Method host (Unit {0})
  unfolding read_sets
  sync_rules [] = pure tt
  sync_rules (rule ∷ rules) = do
    sets ← on_host (read_sets (lookup_names rule.exprs))
    on_store λ r. add_rule r.allocated (allocate (new_node (rule, sets)) r)
    sync_rules rules

  -- `Sync`
  unfoldable pub sync : (chain : Bytes) → Method host (Unit {0})
  unfolding sync_rules
  sync chain = do rules ← on_host (host.get_rule table chain); sync_rules rules

  -- `Sync` on a plain list.
  abbrev pub append_rules : List NfRule → Action (Ledger × host.S) (Unit {0})
  append_rules [] = pure tt
  append_rules (rule ∷ rules) = do
    sets ← on_host (read_sets (lookup_names rule.exprs))
    on_store λ l. ok (append_rule rule sets l)
    append_rules rules

  append-Simulates :
      (rule : NfRule) (sets : List RuleSet)
      → Simulates host
          (Same host)
          (on_store λ r. add_rule r.allocated (allocate (new_node (rule, sets)) r))
          (on_store λ l. ok (append_rule rule sets l))
  append-Simulates rule sets r l s i =
      let (r', added, i', own) = add_rule-Implements (new_node (rule, sets)) r l i in
      subst (λ o. Agrees host (Same host) (keep o (r, s)) (ok tt, (append_rule rule sets l, s)))
        (sym added) (refl, i', refl)

  sync_rules-Simulates :
      (rules : List NfRule) → Simulates host (Same host) (sync_rules rules) (append_rules rules)
  unfolding sync_rules
  sync_rules-Simulates [] = λ r l s i. (refl, i, refl)
  sync_rules-Simulates (rule ∷ rules) =
      let read : Action host.S (List RuleSet) = read_sets (lookup_names rule.exprs) in
      Simulates-bind host (Same host) (Same host {A = Unit {0}}) (on_host read) (on_host read)
        (λ sets.
          (on_store λ r. add_rule r.allocated (allocate (new_node (rule, sets)) r))
          >> sync_rules rules)
        (λ sets. (on_store λ l. ok (append_rule rule sets l)) >> append_rules rules)
        (on_host-Simulates host read)
        λ sets sets' p.
          subst
            (λ x.
              Simulates host (Same host {A = Unit {0}})
                ((on_store λ r. add_rule r.allocated (allocate (new_node (rule, sets)) r))
                  >> sync_rules rules)
                ((on_store λ l. ok (append_rule rule x l)) >> append_rules rules))
            p
            (Simulates-bind host (Same host {A = Unit {0}}) (Same host {A = Unit {0}})
              (on_store λ r. add_rule r.allocated (allocate (new_node (rule, sets)) r))
              (on_store λ l. ok (append_rule rule sets l)) (λ _. sync_rules rules)
              (λ _. append_rules rules) (append-Simulates rule sets)
              λ a b q. sync_rules-Simulates rules)

  -- From a list on the heap and the plain list that it implements, Sync and the loop that appends to
  -- the plain list, in their order, the kernel's rules of the chain with the sets that each looks up
  -- have the same outcome and make the same calls of the connection, and the heap that is left
  -- implements the plain list that is left, also where a call fails half-way.
  pub sync-Agrees :
      (chain : Bytes) (r : RuleStore) (l : Ledger) (s : host.S)
      → Implements r l
      → Agrees host
          (Same host)
          (sync chain (r, s))
          ((on_host (host.get_rule table chain) >>= append_rules) (l, s))
  unfolding sync
  sync-Agrees chain =
      Simulates-bind host (Same host) (Same host {A = Unit {0}})
        (on_host (host.get_rule table chain)) (on_host (host.get_rule table chain)) sync_rules
        append_rules (on_host-Simulates host (host.get_rule table chain))
        λ rules rules' p.
          subst (λ x. Simulates host (Same host {A = Unit {0}}) (sync_rules rules) (append_rules x))
            p (sync_rules-Simulates rules)
