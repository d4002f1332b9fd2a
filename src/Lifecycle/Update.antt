-- ===== src/Lifecycle/Update.antt =====
-- `Update` and `UpdateRuleHandleByID` change one rule of the list where it stands.
use mathlib.Core.Path.{subst}
use nftableslib.Base.{
  ℕ, ◌≡◌, refl, sym, inl, inr, some, List, Bytes, Outcome, ok, err, panic, blocked, rule_not_found,
  Bool, ◌==◌, arith,
}
use nftableslib.Nft.{Table, NfRule}
use nftableslib.Host.{BinaryUtil, Host, Action, ◌>>=◌, ◌>>◌, lift, on_host, on_store, store, keep}
use nftableslib.Rule.{Rule}
use nftableslib.Ranges.Order.{Sorter}
use nftableslib.Rules.Sets.{RuleSet}
use nftableslib.Rules.Build.{build_rule}
use nftableslib.RulesList.{
  RuleNode, RuleStore, modify, find_node, has_id, has_handle, get_rule_by_handle,
}
use nftableslib.RulesList.Store.{Entry, Ledger, Implements}
use nftableslib.RulesList.Queries.{find_entry, IsEntry, queries-Implement}
use nftableslib.RulesList.Removal.{Matches}
use nftableslib.RulesList.InPlace.{InPlace, change_first, change_found}
use nftableslib.Lifecycle.UserData.{stamp_user_data}
use nftableslib.Lifecycle.Operations.{set_handle, update_rule_handle_by_id, update}
use nftableslib.Lifecycle.Simulation.{Agrees, Same}
use nftableslib.Lifecycle.Delete.{on_host-Simulates}

-- The plain list with other entries.
abbrev pub with_entries : Ledger → Outcome (List Entry) → Outcome Ledger
with_entries l (ok es) = ok (record l { rules = es })
with_entries l (err e) = err e
with_entries l panic = panic
with_entries l blocked = blocked

-- The first entry that passes is replaced.
abbrev pub change_entry : (Entry → Bool) → (Entry → Entry) → Ledger → Outcome Ledger
change_entry test f l = with_entries l (change_first test f l.rules)

abbrev pub with_handle : ℕ → Entry → Entry
with_handle handle e = record e { rule = record (e.rule) { handle = handle } }

set_handle-InPlace : (handle : ℕ) → InPlace (set_handle handle) (with_handle handle)
set_handle-InPlace handle = record {
  same_prev = λ n. refl;
  same_next = λ n. refl;
  same_entry = λ n. refl;
}

module _ (host : Host) where
  -- From a list on the heap and the plain list that it implements, UpdateRuleHandleByID and the
  -- replacement of the handle in the first entry with the id both succeed or both find no rule, and
  -- the heap that is left implements the plain list that is left.
  pub update_rule_handle_by_id-Agrees :
      (id handle : ℕ) (r : RuleStore) (l : Ledger) (s : host.S)
      → Implements r l
      → Agrees host
          (Same host)
          (update_rule_handle_by_id host id handle (r, s))
          (on_store (change_entry (λ e. e.id == id) (with_handle handle)) (l, s))
  unfolding update_rule_handle_by_id
  update_rule_handle_by_id-Agrees id handle r l s i =
      let listed : Outcome (List Entry) → Outcome (Unit {0}) × (Ledger × host.S) =
        λ o. keep (with_entries l o) (l, s) in
      elim (change_found (set_handle handle) (with_handle handle) (set_handle-InPlace handle)
        (has_id id) (λ e. e.id == id) r l (λ n. refl) i) [
          | inl (lost, unchanged) ↦ rw lost (
              subst
                (λ o.
                  Agrees host (Same host {A = Unit {0}}) (err rule_not_found, (r, s)) (listed o))
                (sym unchanged) (refl, i, refl))
          | inr (e, es, found, changed, i') ↦
              let r' : RuleStore = record r { heap = modify r.heap e (set_handle handle) } in
              rw found (
                subst (λ o. Agrees host (Same host {A = Unit {0}}) (ok tt, (r', s)) (listed o))
                  (sym changed) (refl, i', refl))
        ]

-- What `Update` writes into a node, and into an entry.
abbrev pub set_built : NfRule → List RuleSet → RuleNode → RuleNode
set_built rule sets n = record n { rule = rule; sets = sets }

abbrev pub with_built : NfRule → List RuleSet → Entry → Entry
with_built rule sets e = record e { rule = rule; sets = sets }

set_built-InPlace :
    (rule : NfRule) (sets : List RuleSet) → InPlace (set_built rule sets) (with_built rule sets)
set_built-InPlace rule sets = record {
  same_prev = λ n. refl;
  same_next = λ n. refl;
  same_entry = λ n. refl;
}

module _ ⦃bin : BinaryUtil⦄ ⦃sorter : Sorter⦄ (host : Host) (table : Table) (chain : Bytes) where
  -- The rule that `Update` hands over: the handle is the old one.
  abbrev pub updated : Rule → ℕ → NfRule → NfRule
  updated rule handle built = record built {
    handle = handle;
    user_data = some (stamp_user_data rule.user_data 0);
  }

  -- Programming the rule.
  abbrev pub reprogram : {R : Type 0} → NfRule → Action (R × host.S) (Unit {0})
  reprogram rule = (on_host λ s. (ok tt, host.add_rule rule s)) >> on_host host.flush

  -- `Update` on a plain list.
  abbrev pub update_entry : Rule → ℕ → Action (Ledger × host.S) (Unit {0})
  update_entry rule handle = do
    l ← store
    found ← lift (find_entry (λ e. e.rule.handle == handle) l.rules)
    built ← on_host (build_rule host table chain rule)
    let rule' = updated rule handle built.0
    on_store (change_entry (λ e. e.rule.handle == handle) (with_built rule' built.1))
    reprogram rule'

  -- Both methods behind the answer of `buildRule`.
  abbrev node_rest :
      Rule
      → ℕ
      → RuleStore
      → ℕ
      → Outcome (NfRule × List RuleSet) × host.S
      → Outcome (Unit {0}) × (RuleStore × host.S)
  node_rest rule handle r e x =
      ((λ st. (x.0, (r, x.1))) >>= λ built. do
        let rule' = updated rule handle built.0
        on_store λ r. ok (record r { heap = modify r.heap e (set_built rule' built.1) })
        reprogram rule')
        (r, x.1)

  abbrev entry_rest :
      Rule
      → ℕ
      → Ledger
      → Outcome (NfRule × List RuleSet) × host.S
      → Outcome (Unit {0}) × (Ledger × host.S)
  entry_rest rule handle l x =
      ((λ st. (x.0, (l, x.1))) >>= λ built. do
        let rule' = updated rule handle built.0
        on_store (change_entry (λ e. e.rule.handle == handle) (with_built rule' built.1))
        reprogram rule')
        (l, x.1)

  rest-Agrees :
      (rule : Rule) (handle : ℕ) (r : RuleStore) (l : Ledger) (e : ℕ)
      (x : Outcome (NfRule × List RuleSet) × host.S)
      → Implements r l
      → find_node (has_handle handle) rule_not_found r.allocated r.heap r.rules ≡ ok e
      → Agrees host (Same host) (node_rest rule handle r e x) (entry_rest rule handle l x)
  rest-Agrees rule handle r l e (err why, s) i here = (refl, i, refl)
  rest-Agrees rule handle r l e (panic, s) i here = (tt, i, refl)
  rest-Agrees rule handle r l e (blocked, s) i here = (tt, i, refl)
  rest-Agrees rule handle r l e (ok (built, sets), s) i here =
      let rule' = updated rule handle built in
      elim (change_found (set_built rule' sets) (with_built rule' sets)
        (set_built-InPlace rule' sets) (has_handle handle) (λ e. e.rule.handle == handle) r l
        (λ n. refl) i) [
          | inl (lost, unchanged) ↦ absurd (cc)
          | inr (e', es, found, changed, i') ↦
              let same : e' ≡ e = ground (arith, here, found) in
              let at : ℕ → RuleStore =
                λ a. record r { heap = modify r.heap a (set_built rule' sets) } in
              let l' : Ledger = record l { rules = es } in
              subst
                (λ o.
                  Agrees host (Same host {A = Unit {0}}) (reprogram rule' (at e, s))
                    (((λ st. keep (with_entries l o) st) >> reprogram rule') (l, s)))
                (sym changed)
                (on_host-Simulates host host.flush (at e) l' (host.add_rule rule' s)
                  (subst (λ a. Implements (at a) l') same i'))
        ]

  looked_up-Agrees :
      (rule : Rule) (handle : ℕ) (r : RuleStore) (l : Ledger) (s : host.S) (o : Outcome ℕ)
      (o' : Outcome Entry)
      → Implements r l
      → find_node (has_handle handle) rule_not_found r.allocated r.heap r.rules ≡ o
      → Matches (IsEntry r) o o'
      → Agrees host
          (Same host {A = Unit {0}})
          ((lift o >>= λ e st. node_rest rule handle r e (build_rule host table chain rule s))
            (r, s))
          ((lift o' >>= λ e st. entry_rest rule handle l (build_rule host table chain rule s))
            (l, s))
  looked_up-Agrees rule handle r l s (ok e) (ok f) i here p =
      rest-Agrees rule handle r l e (build_rule host table chain rule s) i here
  looked_up-Agrees rule handle r l s (ok e) (err f) i here p = absurd (cc)
  looked_up-Agrees rule handle r l s (ok e) panic i here p = absurd (cc)
  looked_up-Agrees rule handle r l s (ok e) blocked i here p = absurd (cc)
  looked_up-Agrees rule handle r l s (err e) (ok f) i here p = absurd (cc)
  looked_up-Agrees rule handle r l s (err e) (err f) i here p = (p, i, refl)
  looked_up-Agrees rule handle r l s (err e) panic i here p = absurd (cc)
  looked_up-Agrees rule handle r l s (err e) blocked i here p = absurd (cc)
  looked_up-Agrees rule handle r l s panic (ok f) i here p = absurd (cc)
  looked_up-Agrees rule handle r l s panic (err f) i here p = absurd (cc)
  looked_up-Agrees rule handle r l s panic panic i here p = (tt, i, refl)
  looked_up-Agrees rule handle r l s panic blocked i here p = absurd (cc)
  looked_up-Agrees rule handle r l s blocked (ok f) i here p = absurd (cc)
  looked_up-Agrees rule handle r l s blocked (err f) i here p = absurd (cc)
  looked_up-Agrees rule handle r l s blocked panic i here p = absurd (cc)
  looked_up-Agrees rule handle r l s blocked blocked i here p = (tt, i, refl)

  -- From a list on the heap and the plain list that it implements, Update and `update_entry` have the
  -- same outcome and leave the connection in the same state, and the heap that is left implements the
  -- plain list that is left: if a rule has the handle and the new one can be built, the first rule
  -- with it is replaced where it stands, with its id kept and its handle in the new rule.
  pub update-Agrees :
      (rule : Rule) (handle : ℕ) (r : RuleStore) (l : Ledger) (s : host.S)
      → Implements r l
      → Agrees host
          (Same host)
          (update host table chain rule handle (r, s))
          (update_entry rule handle (l, s))
  unfolding update get_rule_by_handle
  update-Agrees rule handle r l s i =
      looked_up-Agrees rule handle r l s (get_rule_by_handle handle r)
        (find_entry (λ e. e.rule.handle == handle) l.rules) i refl
        (queries-Implement r l handle i).1
