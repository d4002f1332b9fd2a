-- ===== src/Tests/Registers.antt =====
-- Rules at concrete inputs.
use nftableslib.Base.{pos, ◌≡◌, refl, true, false, none, some, [], ◌∷◌, ◌++◌, ok, inl}
use nftableslib.Nft.{SetDatatype, PayloadBase, family_ipv4, family_ipv6, Expr}
use nftableslib.Rule.{Rule, Concat, ConcatElement, SetRef, eq_op}
use nftableslib.Expressions.Concat.{expr_for_concat, lookup_verdict}
use nftableslib.Rules.Build.{build_rule}
use nftableslib.Registers.Append.{IsSafe}
use nftableslib.Registers.Ensures.{Ensures}
use nftableslib.Registers.Keys.{packed_key, loaded_from, pieces_of, key_lookup}
use nftableslib.Registers.Packing.{expr_for_concat-eq-packed_key, expr_for_concat-ip6_first}
use nftableslib.Registers.Rule.{build_rule-IsSafe}
use nftableslib.Tests.Fixtures.{little_endian, insertion_sorter, counting_host, table}

abbrev element : SetDatatype → ConcatElement
element t = record { e_type = t; e_proto = 6; e_source = true; e_mask = [] }

abbrev vmap_ref : SetRef
vmap_ref = record { name = b'v' ∷ []; id = 7; is_map = true }

-- Source address, protocol and source port against a verdict map.
abbrev address_port : Concat
address_port = record {
  elements =
      some (element SetDatatype.ip_addr_type)
      ∷ some (element SetDatatype.inet_proto_type)
      ∷ some (element SetDatatype.inet_service_type)
      ∷ [];
  vmap = false;
  set_ref = some vmap_ref;
}

-- Two ports, one network, a drop, and the concatenation.
abbrev rule : Rule
rule = record {
  concat = some address_port;
  dynamic = none;
  match_act = none;
  fib = none;
  l3 = some (record {
    src = some (record {
      list = some (some (record { ip = 10 ∷ 0 ∷ 0 ∷ 0 ∷ []; cidr = true; mask = some 8 }) ∷ []);
      range_from = none;
      range_to = none;
      set_ref = none;
      rel_op = eq_op;
    });
    dst = none;
    version = none;
    protocol = none;
    rel_op = eq_op;
    counter = false;
  });
  l4 = some (record {
    l4_proto = 6;
    src = none;
    dst = some (record {
      list = some (some 80 ∷ some 443 ∷ []);
      range_from = none;
      range_to = none;
      rel_op = eq_op;
      set_ref = none;
    });
    rel_op = eq_op;
    counter = true;
  });
  conntracks = [];
  meta = none;
  log = none;
  rel_op = eq_op;
  counter = true;
  action = some (record {
    verdict = some (record { kind = pos 0; chain = [] });
    redirect = none;
    masq = none;
    nat = none;
    reject = none;
    loadbalance = none;
  });
  user_data = [];
  position = pos 0;
}

build_rule-IsSafe_example :
    Ensures (λ r. IsSafe r.0.exprs) (build_rule counting_host table (b'c' ∷ []) rule)
build_rule-IsSafe_example = build_rule-IsSafe counting_host table (b'c' ∷ []) rule refl

expr_for_concat-eq-packed_key_example :
    expr_for_concat family_ipv4 address_port
    ≡ ok (
        Expr.payload 1 PayloadBase.network 12 4
        ∷ Expr.payload 9 PayloadBase.network 9 1
        ∷ Expr.payload 10 PayloadBase.transport 0 2
        ∷ Expr.lookup (lookup_verdict vmap_ref)
        ∷ [])
unfolding packed_key
expr_for_concat-eq-packed_key_example =
    expr_for_concat-eq-packed_key family_ipv4 address_port (inl refl) refl refl

-- An IPv6 address, a protocol and a port.
abbrev long_key : Concat
long_key = record {
  elements =
      some (element SetDatatype.ip6_addr_type)
      ∷ some (element SetDatatype.inet_proto_type)
      ∷ some (element SetDatatype.inet_service_type)
      ∷ [];
  vmap = true;
  set_ref = some vmap_ref;
}

expr_for_concat-ip6_first_example :
    (expr_for_concat family_ipv6 long_key
      ≡ ok (
          Expr.payload 1 PayloadBase.network 8 16
          ∷ Expr.payload 5 PayloadBase.network 6 1
          ∷ Expr.payload 6 PayloadBase.transport 0 2
          ∷ Expr.lookup (lookup_verdict vmap_ref)
          ∷ []))
    × ¬ (
        expr_for_concat family_ipv6 long_key
        ≡ ok (packed_key 0 (pieces_of family_ipv6 long_key.elements) ++ key_lookup (some vmap_ref)))
unfolding loaded_from
expr_for_concat-ip6_first_example =
    expr_for_concat-ip6_first long_key (element SetDatatype.ip6_addr_type)
      (element SetDatatype.inet_proto_type) (some (element SetDatatype.inet_service_type) ∷ []) refl
      refl refl
