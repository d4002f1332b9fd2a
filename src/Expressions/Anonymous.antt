-- ===== src/Expressions/Anonymous.antt =====
-- The anonymous verdict maps: `getExprForLoadbalance` of nfexpressions.go, and
-- `getExprForMatchAct` and `makeActSet` of nfrule_matchact.go.
use nftableslib.Base.{
  ℕ, suc, ℤ, pos, u32, ◌%◌, ◌^◌, Bool, true, false, Option, none, some, List, [], ◌∷◌, Bytes,
  Outcome, ok, err, panic, blocked, nil_loadbalance, no_chains, nil_match_act, nil_match_ref,
  no_act_elements, nil_verdict, length, ◌==◌, if◌then◌else◌,
}
use nftableslib.Nft.{
  Table, Expr, LookupExpr, Verdict, NfSet, SetElement, SetDatatype, nft_jump, nft_goto,
  ng_incremental, ng_random,
}
use nftableslib.Host.{BinaryUtil, Host, Action, ◌>>=◌, pure, lift}
use nftableslib.Rule.{Loadbalance, RuleAction, MatchAct, SetRef}
use nftableslib.Expressions.Concat.{lookup_verdict}
use nftableslib.Expressions.Header.{layout, match_load}

abbrev pub verdict_element : Bytes → Verdict → SetElement
verdict_element key v = record {
  key = key;
  value = [];
  interval_end = false;
  verdict_data = some v;
}

-- `&nftables.Set{Table: t, Anonymous: true, Constant: true, IsMap: true, KeyType: TypeInteger,
-- DataType: TypeVerdict}`
abbrev pub verdict_map : Table → NfSet
verdict_map table = record {
  table = some table;
  id = 0;
  name = [];
  anonymous = true;
  constant = true;
  interval = false;
  is_map = true;
  has_timeout = false;
  timeout = 0;
  key_type = SetDatatype.integer_type;
  data_type = SetDatatype.verdict_type;
}

-- A lookup in the set as `AddSet` has left it.
abbrev pub lookup_added : NfSet → LookupExpr
lookup_added set = lookup_verdict (record { name = set.name; id = set.id; is_map = true })

is_goto : ℤ → Bool
is_goto (pos n) = false
is_goto (ℤ.negsuc n) = n == 3

is_incremental : ℤ → Bool
is_incremental (pos n) = n == ng_incremental
is_incremental (ℤ.negsuc n) = false

module _ ⦃bin : BinaryUtil⦄ where
  -- One element for each chain: its index, and a jump or goto to it.
  chain_elements : ℤ → ℕ → List Bytes → List SetElement
  chain_elements action ind [] = []
  chain_elements action ind (chain ∷ chains) =
      verdict_element (bin.ne_put_uint32 (ind % 2 ^ 32)) (record { kind = action; chain = chain })
      ∷ chain_elements action (suc ind) chains

  -- The verdicts of the action map, in the order in which the keys are met.
  act_elements : List (ℤ × Option RuleAction) → Outcome (List SetElement)
  act_elements [] = ok []
  act_elements ((key, none) ∷ acts) = panic
  act_elements ((key, some action) ∷ acts) = elim action.verdict [
    | none ↦ err nil_verdict
    | some v ↦ elim (act_elements acts) [
      | ok rest ↦ ok (verdict_element (bin.be_put_uint32 (u32 key)) v ∷ rest)
      | err e ↦ err e
      | panic ↦ panic
      | blocked ↦ blocked
    ]
  ]

  module _ (host : Host) where
    unfoldable pub balance_exprs : Table → Loadbalance → Action host.S (List Expr)
    unfolding is_goto is_incremental chain_elements
    balance_exprs table l = do
      let action = if is_goto l.action then nft_goto else nft_jump
      let mode = if is_incremental l.mode then ng_incremental else ng_random
      set ← host.add_set (verdict_map table) (chain_elements action 0 l.chains)
      pure (Expr.numgen 1 (length l.chains % 2 ^ 32) mode 0 ∷ Expr.lookup (lookup_added set) ∷ [])

    unfoldable pub expr_for_loadbalance : Table → Option Loadbalance → Action host.S (List Expr)
    unfolding balance_exprs
    expr_for_loadbalance table none = lift (err nil_loadbalance)
    expr_for_loadbalance table (some l) =
        if length l.chains == 0 then lift (err no_chains) else balance_exprs table l

    unfoldable pub make_act_set : Table → List SetElement → Action host.S NfSet
    make_act_set table elements = host.add_set (verdict_map table) elements

    unfoldable pub match_exprs : Table → MatchAct → SetRef → Action host.S (List Expr)
    unfolding act_elements layout match_load make_act_set
    match_exprs table m ref = do
      elements ← lift (act_elements m.act_element)
      l ← lift (layout table.family)
      load ← lift (match_load l m.match_type)
      s ← make_act_set table elements
      pure (
          load
          ∷ Expr.lookup (record (lookup_verdict ref) { dest_register = 1 })
          ∷ Expr.lookup (lookup_added s)
          ∷ [])

    unfoldable pub expr_for_match_act : Table → Option MatchAct → Action host.S (List Expr)
    unfolding match_exprs
    expr_for_match_act table none = lift (err nil_match_act)
    expr_for_match_act table (some m) = elim m.match_ref [
      | none ↦ lift (err nil_match_ref)
      | some ref ↦
          if length m.act_element == 0 then lift (err no_act_elements) else match_exprs table m ref
    ]
