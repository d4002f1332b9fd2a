-- ===== src/RulesList/Store.antt =====
-- The list on the heap implements a plain list of rules with their ids.
use nftableslib.Base.{
  ℕ, ◌<◌, ◌≤◌, ◌≡◌, none, List, [], ◌∷◌, ◌++◌, Outcome, ok, err, id_not_found, ◌>>=◌, length, ◌==◌,
  if◌then◌else◌,
}
use nftableslib.Nft.{NfRule}
use nftableslib.Rules.Sets.{RuleSet}
use nftableslib.RulesList.Node.{RuleNode, Heap, RuleStore}
use nftableslib.RulesList.Operations.{initial_rule_id, advance}
use nftableslib.RulesList.Chain.{first_of, IsChain}

pub record Entry : Type 0 where
  pub id : ℕ
  pub rule : NfRule
  pub sets : List RuleSet

abbrev pub entry : RuleNode → Entry
entry n = record { id = n.id; rule = n.rule; sets = n.sets }

abbrev pub entries : Heap → List ℕ → List Entry
entries heap [] = []
entries heap (a ∷ ps) = entry (heap a) ∷ entries heap ps

-- The plain list, and the id that the next rule gets.
pub record Ledger : Type 0 where
  pub rules : List Entry
  pub next_id : ℕ

-- The id that a new rule gets: in an empty list the ids start anew.
abbrev pub new_id : Ledger → ℕ
new_id l = elim l.rules [ [] ↦ initial_rule_id | e ∷ es ↦ l.next_id ]

abbrev pub new_entry : NfRule → List RuleSet → Ledger → Entry
new_entry rule sets l = record { id = new_id l; rule = rule; sets = sets }

-- A rule goes to the end.
abbrev pub append_rule : NfRule → List RuleSet → Ledger → Ledger
append_rule rule sets l = record {
  rules = l.rules ++ new_entry rule sets l ∷ [];
  next_id = advance (new_id l);
}

abbrev pub drop_first : ℕ → List Entry → Outcome (List Entry)
drop_first id [] = err id_not_found
drop_first id (e ∷ es) =
    let rest = drop_first id es in if e.id == id then ok es else (rest >>= λ es'. ok (e ∷ es'))

abbrev pub Below : ℕ → List ℕ → Type 0
Below n [] = Unit
Below n (a ∷ ps) = (a < n) × Below n ps

abbrev pub Runs : RuleStore → List ℕ → Type 0
Runs r ps =
    (r.rules ≡ first_of ps)
    × IsChain r.heap none ps
    × Below r.allocated ps
    × (length ps ≤ r.allocated)

abbrev pub ledger : RuleStore → List ℕ → Ledger
ledger r ps = record { rules = entries r.heap ps; next_id = r.current_id }

abbrev pub Implements : RuleStore → Ledger → Type 0
Implements r l = (ps : List ℕ) × Runs r ps × (ledger r ps ≡ l)
