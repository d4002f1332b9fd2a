-- ===== src/Tests/Descriptions.antt =====
-- The validation and the setters of nfrules.go at concrete descriptions.
use nftableslib.Base.{ℕ, ◌≡◌, refl, ◌↔◌, ◌≤◌, pos, true, none, some, [], ◌∷◌, ok, false}
use nftableslib.Nft.{Expr, family_ipv4}
use nftableslib.Rule.{Rule, IpAddr, RuleAction, eq_op}
use nftableslib.Rule.Setters.{
  NatAttributes, set_redirect, set_nat, empty_action, addr_spec, port_spec,
}
use nftableslib.Rule.Validate.{validate_rule}
use nftableslib.Rule.Accepted.{is_rule, validate_rule-Decides}
use nftableslib.Rule.Actions.{
  ActionCall, Made, make_action, redirect_to, set_redirect_iff, make_action-Made,
}
use nftableslib.Rules.NatAction.{set_nat-expr_for_nat}
use nftableslib.Expressions.Nat.{expr_for_nat}
use nftableslib.Tests.Fixtures.{little_endian}

-- TCP to the port 80.
abbrev web : Rule
web = record {
  concat = none;
  dynamic = none;
  match_act = none;
  fib = none;
  l3 = none;
  l4 = some (record {
    l4_proto = 6;
    src = none;
    dst = some (record {
      list = some (some 80 ∷ []);
      range_from = none;
      range_to = none;
      rel_op = eq_op;
      set_ref = none;
    });
    rel_op = eq_op;
    counter = false;
  });
  conntracks = [];
  meta = none;
  log = none;
  rel_op = eq_op;
  counter = false;
  action = none;
  user_data = [];
  position = pos 0;
}

validate_rule-Decides_example : (validate_rule web ≡ ok tt) ↔ (is_rule web ≡ true)
validate_rule-Decides_example = validate_rule-Decides web

set_redirect_iff_example : (set_redirect (pos 8080) true ≡ ok (redirect_to 8080 true)) ↔ (
    (n : ℕ) × (pos 8080 ≡ pos n)
    × (1 ≤ n)
    × (n ≤ 65535)
    × (redirect_to 8080 true ≡ redirect_to n true))
set_redirect_iff_example = set_redirect_iff (pos 8080) true (redirect_to 8080 true)

make_action-Made_example :
    Made
      (ActionCall.masq_port_call (pos 1 ∷ pos 2 ∷ []))
      (make_action (ActionCall.masq_port_call (pos 1 ∷ pos 2 ∷ [])))
make_action-Made_example = make_action-Made (ActionCall.masq_port_call (pos 1 ∷ pos 2 ∷ []))

abbrev host_addr : IpAddr
host_addr = record { ip = 10 ∷ 0 ∷ 0 ∷ 1 ∷ []; cidr = false; mask = none }

abbrev to_host : NatAttributes
to_host = record {
  addr_from = some host_addr;
  addr_to = none;
  port_from = 80;
  port_to = 0;
  fully_random = false;
  random = false;
  persistent = false;
}

abbrev host_nat : RuleAction
host_nat = record empty_action {
  nat = some (record {
    nat_type = 1;
    random = some false;
    fully_random = some false;
    persistent = some false;
    address = some (addr_spec (some (some host_addr ∷ [])) none none);
    port = some (port_spec (some (some 80 ∷ [])) none none);
  });
}

set_nat-expr_for_nat_example :
    expr_for_nat family_ipv4 host_nat.nat
    ≡ ok (
        Expr.immediate 1 (10 ∷ 0 ∷ 0 ∷ 1 ∷ [])
        ∷ Expr.immediate 2 (0 ∷ 80 ∷ [])
        ∷ Expr.nat (record {
          nat_type = 1;
          family = family_ipv4;
          reg_addr_min = 1;
          reg_addr_max = 0;
          reg_proto_min = 2;
          reg_proto_max = 0;
          random = false;
          fully_random = false;
          persistent = false;
        })
        ∷ [])
unfolding set_nat
set_nat-expr_for_nat_example = set_nat-expr_for_nat family_ipv4 1 to_host host_nat refl
