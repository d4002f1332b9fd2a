-- ===== src/RulesList/Numbering.antt =====
-- The ids of the rules in a list that grows and shrinks by `addRule` and `removeRule`.
use nftableslib.Base.{
  ℕ, suc, ◌+◌, ◌^◌, ◌%◌, ◌<◌, ◌≤◌, ◌≡◌, refl, ap, sym, inl, inr, List, [], ◌∷◌, ◌++◌, Outcome, ok,
  err, panic, blocked, ◌>>=◌, arith, ◌==◌, Bool-cases,
}
use mathlib.Core.Path.{subst₂}
use nftableslib.Nft.{NfRule}
use nftableslib.Rules.Sets.{RuleSet}
use nftableslib.RulesList.Node.{RuleNode, Heap, RuleStore}
use nftableslib.RulesList.Operations.{new_rules, allocate, add_rule, remove_rule, dump_rules}
use nftableslib.RulesList.Store.{Entry, entries, Ledger, append_rule, drop_first, Implements}
use nftableslib.RulesList.Refines.{add_rule-Implements}
use nftableslib.RulesList.Removal.{Matches, remove_rule-Implements}
use nftableslib.RulesList.Queries.{queries-Implement}

-- The ids go up, from low on, and stay under high.
abbrev pub Ascending : (low high : ℕ) → List Entry → Type 0
Ascending low high [] = low ≤ high
Ascending low high (e ∷ es) = (low ≤ e.id) × Ascending (suc e.id) high es

abbrev pub WellNumbered : Ledger → Type 0
WellNumbered l = Ascending 0 l.next_id l.rules

-- One call of `addRule` with a new node, while the next id still fits 32 bits, or of `removeRule`.
pub data Step : RuleStore → RuleStore → Type 0 where
  adds :
      (n : RuleNode) (r r' : RuleStore)
      → r.current_id + 10 < 2 ^ 32
      → add_rule r.allocated (allocate n r) ≡ ok r'
      → Step r r'
  removes : (id : ℕ) (r r' : RuleStore) → remove_rule id r ≡ ok r' → Step r r'

pub data Reachable : RuleStore → Type 0 where
  starts : (heap : Heap) → Reachable (new_rules heap)
  steps : (r r' : RuleStore) → Reachable r → Step r r' → Reachable r'

Ascending-lower :
    (low low' high : ℕ) (es : List Entry)
    → low' ≤ low
    → Ascending low high es
    → Ascending low' high es
Ascending-lower low low' high [] h a = omega arith
Ascending-lower low low' high (e ∷ es) h (k, a) = (omega arith, a)

Ascending-append :
    (low high : ℕ) (es : List Entry) (e : Entry)
    → e.id ≡ high
    → Ascending low high es
    → Ascending low (high + 10) (es ++ e ∷ [])
Ascending-append low high [] e h a = (omega arith, omega arith)
Ascending-append low high (x ∷ es) e h (k, a) = (k, Ascending-append (suc x.id) high es e h a)

append_rule-WellNumbered :
    (rule : NfRule) (sets : List RuleSet) (es : List Entry) (next_id : ℕ)
    → next_id + 10 < 2 ^ 32
    → Ascending 0 next_id es
    → WellNumbered (append_rule rule sets (record { rules = es; next_id = next_id }))
append_rule-WellNumbered rule sets [] next_id h a = (omega arith, omega arith)
append_rule-WellNumbered rule sets (e ∷ es) next_id h a =
    let small : (next_id + 10) % 2 ^ 32 ≡ next_id + 10 = omega arith in
    rw small (Ascending-append 0 next_id (e ∷ es) _ refl a)

-- Dropping an entry leaves the others in order.
abbrev DropsIn : (low high : ℕ) → Outcome (List Entry) → Type 0
DropsIn low high (ok es) = Ascending low high es
DropsIn low high _ = Unit

cons-DropsIn :
    (low high : ℕ) (e : Entry) (o : Outcome (List Entry))
    → low ≤ e.id
    → DropsIn (suc e.id) high o
    → DropsIn low high (o >>= λ es. ok (e ∷ es))
cons-DropsIn low high e (ok es) h d = (h, d)
cons-DropsIn low high e (err _) h d = tt
cons-DropsIn low high e panic h d = tt
cons-DropsIn low high e blocked h d = tt

drop_first-DropsIn :
    (id low high : ℕ) (es : List Entry)
    → Ascending low high es
    → DropsIn low high (drop_first id es)
drop_first-DropsIn id low high [] a = tt
drop_first-DropsIn id low high (e ∷ es) (h, a) = elim (Bool-cases (e.id == id)) [
  | inl here ↦ rw here (Ascending-lower (suc e.id) low high es (omega arith) a)
  | inr other ↦
      rw other
        (cons-DropsIn low high e (drop_first id es) h (drop_first-DropsIn id (suc e.id) high es a))
]

abbrev Numbered : RuleStore → Type 0
Numbered r = (l : Ledger) × Implements r l × WellNumbered l

add_rule-Numbered :
    (n : RuleNode) (r r' : RuleStore)
    → r.current_id + 10 < 2 ^ 32
    → add_rule r.allocated (allocate n r) ≡ ok r'
    → Numbered r
    → Numbered r'
add_rule-Numbered n r r' small added (l, (ps, runs, same), numbered) =
    let (r2, added2, i, id) = add_rule-Implements n r l (ps, runs, same) in
    let agree : r2 ≡ r' = cc in
    let next : r.current_id ≡ l.next_id = ap (λ l. l.next_id) same in
    (
      append_rule n.rule n.sets l,
      rw agree at i,
      append_rule-WellNumbered n.rule n.sets l.rules l.next_id (omega arith) numbered,
    )

removed-Numbered :
    (r' : RuleStore) (next_id : ℕ) (o : Outcome (List Entry))
    → Matches Implements (ok r') (o >>= λ es. ok (record { rules = es; next_id = next_id }))
    → DropsIn 0 next_id o
    → Numbered r'
removed-Numbered r' next_id (ok es) m d = (record { rules = es; next_id = next_id }, m, d)
removed-Numbered r' next_id (err _) m d = absurd (cc)
removed-Numbered r' next_id panic m d = absurd (cc)
removed-Numbered r' next_id blocked m d = absurd (cc)

remove_rule-Numbered :
    (id : ℕ) (r r' : RuleStore) → remove_rule id r ≡ ok r' → Numbered r → Numbered r'
remove_rule-Numbered id r r' removed (l, i, numbered) =
    removed-Numbered r' l.next_id (drop_first id l.rules)
      (rw removed at (remove_rule-Implements id r l i))
      (drop_first-DropsIn id 0 l.next_id l.rules numbered)

Reachable-Numbered : (r : RuleStore) → Reachable r → Numbered r
Reachable-Numbered _ (Reachable.starts heap) =
    (record { rules = []; next_id = 10 }, ([], (refl, tt, tt, omega arith), refl), omega arith)
Reachable-Numbered _ (Reachable.steps r r' reached (Step.adds n _ _ small added)) =
    add_rule-Numbered n r r' small added (Reachable-Numbered r reached)
Reachable-Numbered _ (Reachable.steps r r' reached (Step.removes id _ _ removed)) =
    remove_rule-Numbered id r r' removed (Reachable-Numbered r reached)

-- Whatever rules are added to a new list and removed from it, in any order, as long as the ids fit
-- 32 bits: a dump reaches every node, and the ids of the nodes go up in the order of the list and
-- stay under the next id, so that no two rules have the same one.
pub Reachable-Ascending :
    (r : RuleStore)
    → Reachable r
    → (ps : List ℕ) × (dump_rules r ≡ ok ps) × Ascending 0 r.current_id (entries r.heap ps)
Reachable-Ascending r reached =
    let (l, i, numbered) = Reachable-Numbered r reached in
    let (qs, runs, same) = i in
    let (ps, dumped, listed) = (queries-Implement r l 0 i).2 in
    let next : r.current_id ≡ l.next_id = ap (λ l. l.next_id) same in
    (ps, dumped, subst₂ (Ascending 0) (sym next) (sym listed) numbered)
