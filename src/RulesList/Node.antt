-- ===== src/RulesList/Node.antt =====
-- `nfRule` and the list fields of `nfRules`. The nodes stand at numbered addresses; a node pointer
-- is nil or an address.
use nftableslib.Base.{ℕ, Option, none, List, ◌==◌, if◌then◌else◌}
use nftableslib.Nft.{NfRule}
use nftableslib.Rules.Sets.{RuleSet}

pub record RuleNode : Type 0 where
  pub id : ℕ
  pub rule : NfRule
  pub sets : List RuleSet
  pub next : Option ℕ
  pub prev : Option ℕ

-- Every pointer that is not nil leads to a node.
abbrev pub Heap : Type 0
Heap = ℕ → RuleNode

unfoldable pub modify : Heap → ℕ → (RuleNode → RuleNode) → Heap
modify heap p change a = if a == p then change (heap a) else heap a

-- `allocated` is the first address that no node has been put at yet.
pub record RuleStore : Type 0 where
  pub heap : Heap
  pub allocated : ℕ
  pub current_id : ℕ
  pub rules : Option ℕ

abbrev pub set_next : Option ℕ → RuleNode → RuleNode
set_next p n = record n { next = p }

abbrev pub set_prev : Option ℕ → RuleNode → RuleNode
set_prev p n = record n { prev = p }

-- The three fields that `addRule` sets in the new node.
abbrev pub set_links : (id : ℕ) (prev : Option ℕ) → RuleNode → RuleNode
set_links id prev n = record n { id = id; next = none; prev = prev }

abbrev pub set_rule : NfRule → RuleNode → RuleNode
set_rule rule n = record n { rule = rule }
