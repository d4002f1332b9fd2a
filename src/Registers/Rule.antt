-- ===== src/Registers/Rule.antt =====
-- `buildRule` of nfrules.go: every rule that is built loads its registers before it reads them.
use nftableslib.Base.{ℕ, ◌≡◌, refl, Bool, true, false, Option, none, some, Bytes, arith}
use nftableslib.Nft.{Table}
use nftableslib.Host.{BinaryUtil, Host}
use nftableslib.Rule.{Rule, RuleAction, Redirect, Meta, Log, Loadbalance, MatchAct}
use nftableslib.Expressions.Target.{
  expr_for_tproxy_redirect, expr_for_redirect, expr_for_reject, expr_for_log,
}
use nftableslib.Expressions.Anonymous.{
  balance_exprs, expr_for_loadbalance, match_exprs, expr_for_match_act,
}
use nftableslib.Ranges.Order.{Sorter}
use nftableslib.Rules.Build.{
  meta_exprs, redirect_exprs, action_exprs, optional_action, optional_concat, optional_dynamic,
  optional_match_act, optional_l3, optional_l4, rule_exprs, built_rule, build_rule,
}
use nftableslib.Registers.Append.{loads_before_use, IsSafe, IsSafe-append}
use nftableslib.Registers.Ensures.{Ensures}
use nftableslib.Registers.Pure.{
  meta_mark-IsSafe, masq-IsSafe, nat-IsSafe, dynamic-IsSafe, meta_expr-IsSafe, fib-IsSafe,
  conntracks-IsSafe,
}
use nftableslib.Registers.Concat.{concat_loads, concat-IsSafe}
use nftableslib.Registers.Selectors.{BuiltSafe, counter-IsSafe, create_l3-IsSafe, create_l4-IsSafe}

module _ ⦃bin : BinaryUtil⦄ where
  meta-IsSafe : (m : Option Meta) → IsSafe (meta_exprs m)
  unfolding meta_exprs loads_before_use
  meta-IsSafe none = refl
  meta-IsSafe (some m) = grind (arith, meta_mark-IsSafe, meta_expr-IsSafe)

  redirect-IsSafe : (family : ℕ) (r : Redirect) → IsSafe (redirect_exprs family r)
  unfolding redirect_exprs loads_before_use expr_for_tproxy_redirect expr_for_redirect
  redirect-IsSafe family r = ground arith

log-IsSafe : (l : Option Log) → IsSafe (expr_for_log l)
unfolding expr_for_log loads_before_use
log-IsSafe none = refl
log-IsSafe (some l) = refl

module _ ⦃bin : BinaryUtil⦄ (host : Host) (table : Table) where
  loadbalance-IsSafe : (l : Option Loadbalance) → Ensures IsSafe (expr_for_loadbalance host table l)
  unfolding expr_for_loadbalance balance_exprs loads_before_use
  loadbalance-IsSafe none s = tt
  loadbalance-IsSafe (some l) s = ground arith

  match_act-IsSafe : (m : Option MatchAct) → Ensures IsSafe (expr_for_match_act host table m)
  unfolding expr_for_match_act match_exprs loads_before_use
  match_act-IsSafe none s = tt
  match_act-IsSafe (some m) s = ground arith

  action-IsSafe : (a : RuleAction) → Ensures IsSafe (action_exprs host table a)
  unfolding action_exprs loads_before_use expr_for_reject
  action-IsSafe a s = grind (arith, redirect-IsSafe, masq-IsSafe, loadbalance-IsSafe, nat-IsSafe)

  optional_action-IsSafe :
      (skip : Bool) (a : Option RuleAction) → Ensures IsSafe (optional_action host table skip a)
  unfolding optional_action loads_before_use
  optional_action-IsSafe skip none s = refl
  optional_action-IsSafe true (some a) s = refl
  optional_action-IsSafe false (some a) s = action-IsSafe a s

  optional_concat-IsSafe :
      (rule : Rule)
      → concat_loads rule.concat ≡ true
      → Ensures IsSafe (optional_concat host table rule)
  unfolding optional_concat loads_before_use
  optional_concat-IsSafe rule h s = grind (arith, concat-IsSafe)

  optional_dynamic-IsSafe : (rule : Rule) → Ensures IsSafe (optional_dynamic host table rule)
  unfolding optional_dynamic loads_before_use
  optional_dynamic-IsSafe rule s = grind (arith, dynamic-IsSafe)

  optional_match_act-IsSafe : (rule : Rule) → Ensures IsSafe (optional_match_act host table rule)
  unfolding optional_match_act loads_before_use
  optional_match_act-IsSafe rule s = grind (arith, match_act-IsSafe)

  module _ ⦃sorter : Sorter⦄ where
    optional_l3-IsSafe :
        (skip : Bool) (rule : Rule) → Ensures BuiltSafe (optional_l3 host table skip rule)
    unfolding optional_l3 loads_before_use
    optional_l3-IsSafe skip rule s = grind (arith, create_l3-IsSafe)

    optional_l4-IsSafe :
        (skip : Bool) (rule : Rule) → Ensures BuiltSafe (optional_l4 host table skip rule)
    unfolding optional_l4 loads_before_use
    optional_l4-IsSafe skip rule s = grind (arith, create_l4-IsSafe)

    rule_exprs-IsSafe :
        (rule : Rule)
        → concat_loads rule.concat ≡ true
        → Ensures BuiltSafe (rule_exprs host table rule)
    unfolding rule_exprs
    rule_exprs-IsSafe rule h s = grind (
      arith,
      optional_l3-IsSafe,
      optional_l4-IsSafe,
      optional_action-IsSafe,
      optional_concat-IsSafe rule h,
      optional_dynamic-IsSafe,
      optional_match_act-IsSafe,
      counter-IsSafe host rule.counter,
      fib-IsSafe,
      meta-IsSafe,
      log-IsSafe,
      conntracks-IsSafe,
      IsSafe-append,
    )

    -- Whenever `buildRule` returns a rule, no expression of it reads a register that no earlier
    -- expression has loaded, provided that a concatenation with a map begins with an element that
    -- is not an Ethernet address.
    pub build_rule-IsSafe :
        (chain : Bytes) (rule : Rule)
        → concat_loads rule.concat ≡ true
        → Ensures (λ r. IsSafe r.0.exprs) (build_rule host table chain rule)
    unfolding build_rule built_rule
    build_rule-IsSafe chain rule h s = grind (arith, rule_exprs-IsSafe rule h)
