-- ===== src/Json/Rule.antt =====
-- `MarshalJSON` of nfrules_marshal.go: a rule with its sets.
use nftableslib.Base.{Option, List, [], ◌∷◌, Bytes, Outcome, ok, ◌>>=◌}
use nftableslib.Nft.{NfRule, NfSet, Table, Chain}
use nftableslib.Host.{BinaryUtil}
use nftableslib.Rules.Sets.{RuleSet}
use nftableslib.Json.Format.{codes}
use nftableslib.Json.Names.{append_all, join_commas}
use nftableslib.Json.Expression.{marshal_expression}
use nftableslib.Json.Elements.{marshal_set_elements}

-- encoding/json's Marshal at the types of github.com/google/nftables, and what it makes of the text
-- that a MarshalJSON method answers.
pub record Encoding : Type 0 where
  pub marshal_set : NfSet → Outcome Bytes
  pub marshal_table : Table → Outcome Bytes
  pub marshal_chain : Option Chain → Outcome Bytes
  pub compact : Bytes → Outcome Bytes

module _ ⦃bin : BinaryUtil⦄ ⦃json : Encoding⦄ where
  -- A comma stands before each set and before its elements.
  unfoldable pub marshal_sets : List RuleSet → Outcome Bytes
  marshal_sets [] = ok []
  marshal_sets (set ∷ sets) = do
    text ← json.marshal_set set.set
    elements ← marshal_set_elements set.elements
    rest ← marshal_sets sets
    ok (append_all (codes "," ∷ text ∷ codes "," ∷ elements ∷ rest ∷ []))

  unfoldable pub marshal_json : NfRule → List RuleSet → Outcome Bytes
  unfolding marshal_sets
  marshal_json rule sets = do
    exprs ← join_commas marshal_expression rule.exprs
    rest ← marshal_sets sets
    ok (append_all (codes "[" ∷ exprs ∷ rest ∷ codes "]" ∷ []))
