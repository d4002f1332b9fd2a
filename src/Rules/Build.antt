-- ===== src/Rules/Build.antt =====
-- `buildRule` of nfrules.go.
use nftableslib.Base.{
  ℕ, Bool, false, Option, none, some, List, [], ◌∷◌, ◌++◌, Bytes, is_some, ◌||◌, if◌then◌else◌,
}
use nftableslib.Nft.{Table, Expr, NfRule}
use nftableslib.Host.{BinaryUtil, Host, Action, ◌>>=◌, pure, lift}
use nftableslib.Rule.{Rule, RuleAction, Redirect, Concat, Meta}
use nftableslib.Expressions.Meta.{
  expr_for_counter, expr_for_fib, expr_for_meta_mark, expr_for_meta_expr, expr_for_conntracks,
}
use nftableslib.Expressions.Target.{
  expr_for_tproxy_redirect, expr_for_redirect, expr_for_masq, expr_for_reject, expr_for_log,
}
use nftableslib.Expressions.Nat.{expr_for_nat}
use nftableslib.Expressions.Concat.{expr_for_concat}
use nftableslib.Expressions.Dynamic.{expr_for_dynamic}
use nftableslib.Expressions.Anonymous.{expr_for_loadbalance, expr_for_match_act}
use nftableslib.Ranges.Order.{Sorter}
use nftableslib.Rules.Sets.{RuleSet}
use nftableslib.Rules.L3.{Built, create_l3}
use nftableslib.Rules.L4.{create_l4}

-- A concatenation with a verdict map carries its own selectors and action.
concat_vmap : Option Concat → Bool
concat_vmap none = false
concat_vmap (some c) = c.vmap

-- skipL3 and skipL4, which are always equal, and skipAction.
skip_selectors : Rule → Bool
unfolding concat_vmap
skip_selectors rule = concat_vmap rule.concat || is_some rule.dynamic || is_some rule.match_act

skip_action : Rule → Bool
unfolding concat_vmap
skip_action rule = concat_vmap rule.concat || is_some rule.match_act

module _ ⦃bin : BinaryUtil⦄ where
  -- A mark comes before the list of keys.
  unfoldable pub meta_exprs : Option Meta → List Expr
  meta_exprs none = []
  meta_exprs (some m) =
      if is_some m.mark then expr_for_meta_mark m.mark else expr_for_meta_expr m.exprs

  unfoldable pub redirect_exprs : ℕ → Redirect → List Expr
  redirect_exprs family r =
      if r.tproxy then expr_for_tproxy_redirect r.port family else expr_for_redirect r.port family

  module _ (host : Host) (table : Table) where
    -- The switch over the fields of `rule.Action`: the first that is set counts.
    unfoldable pub action_exprs : RuleAction → Action host.S (List Expr)
    unfolding redirect_exprs
    action_exprs a = elim a.redirect [
      | some r ↦ pure (redirect_exprs table.family r)
      | none ↦ elim a.verdict [
        | some v ↦ pure (Expr.verdict v ∷ [])
        | none ↦ elim a.masq [
          | some m ↦ pure (expr_for_masq (some m))
          | none ↦ elim a.reject [
            | some r ↦ pure (expr_for_reject (some r))
            | none ↦ elim a.loadbalance [
              | some l ↦ expr_for_loadbalance host table (some l)
              | none ↦ elim a.nat [
                | some n ↦ lift (expr_for_nat table.family (some n))
                | none ↦ pure []
              ]
            ]
          ]
        ]
      ]
    ]

    unfoldable pub optional_action : Bool → Option RuleAction → Action host.S (List Expr)
    unfolding action_exprs
    optional_action skip none = pure []
    optional_action skip (some a) = if skip then pure [] else action_exprs a

    unfoldable pub optional_concat : Rule → Action host.S (List Expr)
    optional_concat rule = elim rule.concat [
      | none ↦ pure []
      | some c ↦ lift (expr_for_concat table.family c)
    ]

    unfoldable pub optional_dynamic : Rule → Action host.S (List Expr)
    optional_dynamic rule = elim rule.dynamic [
      | none ↦ pure []
      | some d ↦ lift (expr_for_dynamic table.family d)
    ]

    unfoldable pub optional_match_act : Rule → Action host.S (List Expr)
    optional_match_act rule = elim rule.match_act [
      | none ↦ pure []
      | some m ↦ expr_for_match_act host table (some m)
    ]

    -- `s.set.Table = nfr.table`, and `AddSet` for each set; an error stops the loop.
    unfoldable pub add_sets : List RuleSet → Action host.S (List RuleSet)
    add_sets [] = pure []
    add_sets (s ∷ sets) = do
      set ← host.add_set (record (s.set) { table = some table }) s.elements
      rest ← add_sets sets
      pure (record { set = set; elements = s.elements } ∷ rest)

    -- The new rule has no position, no handle and no user data yet.
    unfoldable pub built_rule : Bytes → List Expr → NfRule
    built_rule chain exprs = record {
      table = table;
      chain = chain;
      position = 0;
      handle = 0;
      exprs = exprs;
      user_data = none;
    }

    module _ ⦃sorter : Sorter⦄ where
      unfoldable pub optional_l3 : Bool → Rule → Action host.S Built
      optional_l3 skip rule = elim rule.l3 [
        | none ↦ pure ([], [])
        | some l3 ↦ if skip then pure ([], []) else create_l3 host table.family l3
      ]

      unfoldable pub optional_l4 : Bool → Rule → Action host.S Built
      optional_l4 skip rule = elim rule.l4 [
        | none ↦ pure ([], [])
        | some l4 ↦ if skip then pure ([], []) else create_l4 host l4
      ]

      -- All expressions of a rule, in the order in which they are appended, and its sets.
      unfoldable pub rule_exprs : Rule → Action host.S Built
      unfolding skip_selectors skip_action
      rule_exprs rule = do
        (l3, l3_sets) ← optional_l3 (skip_selectors rule) rule
        (l4, l4_sets) ← optional_l4 (skip_selectors rule) rule
        action ← optional_action (skip_action rule) rule.action
        concat ← optional_concat rule
        dynamic ← optional_dynamic rule
        match_act ← optional_match_act rule
        pure (
          (if rule.counter then expr_for_counter else [])
              ++ (expr_for_fib rule.fib
                  ++ (l3
                      ++ (l4
                          ++ (meta_exprs rule.meta
                              ++ (expr_for_log rule.log
                                  ++ (expr_for_conntracks rule.conntracks
                                      ++ (action ++ (concat ++ (dynamic ++ match_act))))))))),
          l3_sets ++ l4_sets,
        )

      unfoldable pub build_rule : Bytes → Rule → Action host.S (NfRule × List RuleSet)
      unfolding built_rule
      build_rule chain rule = do
        (exprs, sets) ← rule_exprs rule
        sets' ← add_sets sets
        pure (built_rule chain exprs, sets')
