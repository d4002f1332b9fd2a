-- ===== src/RulesList/Queries.antt =====
-- `getRuleByID`, `getRuleByHandle`, `dumpRules` and `countRules` answer as the plain list does.
use nftableslib.Base.{
  ℕ, ◌+◌, arith, ◌≡◌, refl, ap, sym, ◌∙◌, inl, inr, Bool, none, List, [], ◌∷◌, Outcome, ok, err,
  rule_not_found, length, ◌==◌, if◌then◌else◌, Bool-cases,
}
use nftableslib.RulesList.Node.{RuleNode, Heap, RuleStore}
use nftableslib.RulesList.Operations.{
  has_id, has_handle, get_rule_by_id, get_rule_by_handle, dump_from, dump_rules, count_from,
  count_rules,
}
use nftableslib.RulesList.Walks.{first_passing, dump_from_lem, count_from_lem}
use nftableslib.RulesList.Store.{Entry, entry, entries, Ledger, Implements}
use nftableslib.RulesList.Removal.{Matches, search_lem}

-- The first entry that passes a test.
abbrev pub find_entry : (Entry → Bool) → List Entry → Outcome Entry
find_entry test [] = err rule_not_found
find_entry test (e ∷ es) = let rest = find_entry test es in if test e then ok e else rest

abbrev pub IsEntry : RuleStore → ℕ → Entry → Type 0
IsEntry r a e = entry (r.heap a) ≡ e

first_passing-Matches :
    (test : RuleNode → Bool) (test' : Entry → Bool) (r : RuleStore) (ps : List ℕ)
    → ((n : RuleNode) → test n ≡ test' (entry n))
    → Matches
        (IsEntry r)
        (first_passing test rule_not_found r.heap ps)
        (find_entry test' (entries r.heap ps))
first_passing-Matches test test' r [] h = refl
first_passing-Matches test test' r (a ∷ ps) h = elim (Bool-cases (test' (entry (r.heap a)))) [
  | inl here ↦ rw (h (r.heap a), here) refl
  | inr other ↦ rw (h (r.heap a), other) (first_passing-Matches test test' r ps h)
]

length-entries : (heap : Heap) (ps : List ℕ) → 0 + length ps ≡ length (entries heap ps)
length-entries heap [] = refl
length-entries heap (a ∷ ps) = omega (arith, length-entries heap ps)

-- Looking up an id or a handle finds the node of the first entry with it, or says that there is
-- none; a dump has the nodes of all entries in their order, and a count their number.
pub queries-Implement :
    (r : RuleStore) (l : Ledger) (key : ℕ)
    → Implements r l
    → Matches (IsEntry r) (get_rule_by_id key r) (find_entry (λ e. e.id == key) l.rules)
      × Matches
          (IsEntry r)
          (get_rule_by_handle key r)
          (find_entry (λ e. e.rule.handle == key) l.rules)
      × ((ps : List ℕ) × (dump_rules r ≡ ok ps) × (entries r.heap ps ≡ l.rules))
      × (count_rules r ≡ ok (length l.rules))
unfolding get_rule_by_id get_rule_by_handle dump_rules count_rules
queries-Implement r l key (ps, runs, same) =
    let (first, chain, low, fits) = runs in
    rw (sym same) (
      rw (get_rule_by_id, search_lem (has_id key) rule_not_found r ps runs)
          (first_passing-Matches (has_id key) (λ e. e.id == key) r ps λ n. refl),
      rw (get_rule_by_handle, search_lem (has_handle key) rule_not_found r ps runs)
          (first_passing-Matches (has_handle key) (λ e. e.rule.handle == key) r ps λ n. refl),
      (
        ps,
        ap (dump_from r.allocated r.heap) first
            ∙ dump_from_lem r.heap r.allocated none ps fits chain,
        refl,
      ),
      ap (λ p. count_from r.allocated r.heap p 0) first
          ∙ (count_from_lem r.heap r.allocated none ps 0 fits chain
              ∙ ap ok (length-entries r.heap ps)),
    )
