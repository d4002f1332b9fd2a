-- ===== src/Expressions/Dynamic.antt =====
-- nfrule_dynamic.go: a rule that adds what it sees to a set or a map.
use nftableslib.Base.{
  none, some, List, [], ◌∷◌, Outcome, ok, err, nil_set_ref, ◌>>=◌, ◌==◌, if◌then◌else◌,
}
use nftableslib.Nft.{Family, Expr, dynset_op_update}
use nftableslib.Host.{BinaryUtil}
use nftableslib.Rule.{SetRef, Dynamic}
use nftableslib.Expressions.Header.{layout, match_load}

module _ ⦃bin : BinaryUtil⦄ where
  dynamic_exprs : Family → Dynamic → SetRef → Outcome (List Expr)
  unfolding layout match_load
  dynamic_exprs family d ref = do
    l ← layout family
    load ← match_load l d.match_type
    ok (
        load
        ∷ Expr.immediate 2 (bin.be_put_uint32 d.key)
        ∷ Expr.dynset (record {
          src_reg_key = 1;
          src_reg_data = 2;
          operation = d.op;
          set_id = ref.id;
          set_name = ref.name;
          invert = d.invert;
          timeout = if d.op == dynset_op_update then d.timeout else 0;
        })
        ∷ [])

  unfoldable pub expr_for_dynamic : Family → Dynamic → Outcome (List Expr)
  unfolding dynamic_exprs
  expr_for_dynamic family d = elim d.set_ref [
    | none ↦ err nil_set_ref
    | some ref ↦ dynamic_exprs family d ref
  ]
