-- ===== src/Json/RuleReads.antt =====
-- The text of a rule, read back.
use nftableslib.Base.{
  ◌≡◌, refl, Bool, true, false, ◌&&◌, Option, none, some, List, [], ◌∷◌, Bytes, ok, err,
  unknown_expression, arith, both,
}
use nftableslib.Nft.{Expr, NfRule, NfSet, SetElement}
use nftableslib.Host.{BinaryUtil}
use nftableslib.Rules.Sets.{RuleSet}
use nftableslib.Json.Names.{join_commas}
use nftableslib.Json.Tree.{Json, Items, array, no_items, item, render, is_clean, are_clean_items}
use nftableslib.Json.Expression.{marshal_expression}
use nftableslib.Json.ExpressionTree.{expression_json, is_printable}
use nftableslib.Json.Marshals.{Marshals, expression-Marshals}
use nftableslib.Json.Joined.{AreWritten}
use nftableslib.Json.ElementsReads.{elements_json, AreKeyed}
use nftableslib.Json.Rule.{Encoding, marshal_json}

unfoldable pub are_printable : List Expr → Bool
are_printable [] = true
are_printable (e ∷ es) = is_printable e && are_printable es

-- encoding/json writes each of these sets as the text of a value without escapes.
abbrev pub EncodesSets : Encoding → (NfSet → Json) → List RuleSet → Type 0
EncodesSets json set_json [] = Unit {0}
EncodesSets json set_json (s ∷ sets) =
    (json.marshal_set s.set ≡ ok (render (set_json s.set)))
    × (is_clean (set_json s.set) ≡ true)
    × EncodesSets json set_json sets

abbrev pub next_item : Option Json → Option Items → Option Items
next_item (some v) (some vs) = some (item v vs)
next_item _ _ = none

module _ ⦃bin : BinaryUtil⦄ where
  -- The values of a rule's expressions; `none` if one has none.
  unfoldable pub exprs_json : List Expr → Option Items
  exprs_json [] = some no_items
  exprs_json (e ∷ es) = next_item (expression_json e) (exprs_json es)

  -- A value for each set, and an array with its elements.
  abbrev pub AreSets : (NfSet → Json) → List RuleSet → Items → Type 0
  AreSets set_json [] no_items = Unit {0}
  AreSets set_json (s ∷ sets) (item v (item w ys)) =
      (v ≡ set_json s.set)
      × ((ks : List (SetElement × Bytes)) × AreKeyed s.elements ks × (w ≡ array (elements_json ks)))
      × AreSets set_json sets ys
  AreSets set_json _ _ = true ≡ false

  -- The loop over the expressions writes each of them, or stops with an error at the first that
  -- has no value.
  abbrev Joins : List Expr → Option Items → Type 0
  Joins es none = join_commas marshal_expression es ≡ err unknown_expression
  Joins es (some xs) = AreWritten marshal_expression es xs × (are_clean_items xs ≡ true)

  Joins-next :
      (e : Expr) (es : List Expr) (o : Option Json) (os : Option Items)
      → Marshals (marshal_expression e) o
      → Joins es os
      → Joins (e ∷ es) (next_item o os)
  unfolding join_commas is_clean
  Joins-next e [] none os m h = m
  Joins-next e (e' ∷ es) none os m h = rw m refl
  Joins-next e [] (some v) none m h = absurd (ground (arith, h))
  Joins-next e (e' ∷ es) (some v) none (m, clean) h = rw (m, h) refl
  Joins-next e es (some v) (some xs) (m, clean) (w, cleans) = ((m, w), rw clean cleans)

  exprs-Joins : (es : List Expr) → are_printable es ≡ true → Joins es (exprs_json es)
  unfolding exprs_json are_printable is_clean
  exprs-Joins [] h = (tt, refl)
  exprs-Joins (e ∷ es) h =
      let (printable, printables) = both (is_printable e) (are_printable es) h in
      Joins-next e es (expression_json e) (exprs_json es) (expression-Marshals e printable)
        (exprs-Joins es printables)

-- A rule with an expression that has no value, whose other texts need no escapes, has no text.
pub marshal_json-refuses :
    ⦃bin : BinaryUtil⦄ ⦃json : Encoding⦄ (rule : NfRule) (sets : List RuleSet)
    → are_printable rule.exprs ≡ true
    → exprs_json rule.exprs ≡ none
    → marshal_json rule sets ≡ err unknown_expression
unfolding marshal_json
marshal_json-refuses rule sets printable no_value =
    let refused = rw no_value at (exprs-Joins rule.exprs printable) in rw refused refl
