-- ===== src/Tests/Semantics.antt =====
-- The expressions for addresses and ports on a packet from 10.1.2.3, port 443 of TCP.
use nftableslib.Base.{
  ℕ, ◌≡◌, refl, true, false, none, some, List, [], ◌∷◌, ◌++◌, ok, arith, replicate,
}
use nftableslib.Nft.{Expr, family_ipv4}
use nftableslib.Rule.{IpAddr, eq_op, neq_op}
use nftableslib.Expressions.Address.{
  expr_for_range_ip, expr_for_single_ip, expr_for_ip_version, expr_for_protocol, addr_bytes,
}
use nftableslib.Expressions.Port.{expr_for_list_port, expr_for_range_port}
use nftableslib.Semantics.Kernel.{accepts}
use nftableslib.Semantics.Address.{in_range, expr_for_range_ip-accepts}
use nftableslib.Semantics.Single.{begins_with, expr_for_single_ip-accepts}
use nftableslib.Semantics.Prefix.{same_prefix, is_network}
use nftableslib.Semantics.Port.{expr_for_ports-accept}
use nftableslib.Semantics.Header.{version_and_protocol-accept}
use nftableslib.Tests.Fixtures.{little_endian}
use nftableslib.Tests.Lifecycle.{little_endian-IsBigEndian}
use nftableslib.Tests.Machine.{
  Packet, Registers, machine, runs_network, runs_transport, runs_meta, runs_cmp, runs_range,
  runs_bitwise,
}

abbrev packet : Packet
packet = record {
  network_header = replicate 12 0 ++ 10 ∷ 1 ∷ 2 ∷ 3 ∷ 10 ∷ 9 ∷ 9 ∷ 9 ∷ [];
  transport_header = 200 ∷ 0 ∷ 1 ∷ 187 ∷ [];
  l4_protocol = 6;
}

-- Its header has version 4 and protocol 17.
abbrev ip4_packet : Packet
ip4_packet = record packet { network_header = 69 ∷ replicate 8 0 ++ 17 ∷ [] }

abbrev blank : Registers
blank i = []

abbrev ip_address : ℕ → ℕ → ℕ → IpAddr
ip_address second third ml = record {
  ip = 10 ∷ second ∷ third ∷ 0 ∷ [];
  cidr = true;
  mask = some ml;
}

expr_for_range_ip-accepts_example :
    (es : List Expr) × (expr_for_range_ip family_ipv4 12
        (some (ip_address 1 0 32))
        (some (ip_address 1 255 32))
        neq_op
      ≡ ok es)
    × (accepts machine es packet blank ≡ false)
unfolding in_range addr_bytes
expr_for_range_ip-accepts_example =
    expr_for_range_ip-accepts machine family_ipv4 12 (ip_address 1 0 32) (ip_address 1 255 32)
      neq_op packet blank runs_network runs_cmp runs_range refl refl (ground arith) (ground arith)
      (omega arith)

expr_for_single_ip-accepts_example :
    (es : List Expr) × (expr_for_single_ip family_ipv4 12 (some (ip_address 1 0 18)) eq_op ≡ ok es)
    × (accepts machine es packet blank ≡ true)
unfolding begins_with same_prefix is_network addr_bytes
expr_for_single_ip-accepts_example =
    expr_for_single_ip-accepts machine family_ipv4 12 18 (ip_address 1 0 18) eq_op packet blank
      runs_network runs_cmp runs_bitwise refl refl (omega arith) refl (ground arith) (ground arith)
      (omega arith)

expr_for_ports-accept_example :
    ((es : List Expr) × (expr_for_list_port 6 2 (some 443 ∷ []) neq_op none ≡ ok es)
      × (accepts machine es packet blank ≡ false))
    × ((es : List Expr) × (expr_for_range_port 6 2 (some 443) (some 1000) eq_op ≡ ok es)
        × (accepts machine es packet blank ≡ true))
expr_for_ports-accept_example =
    expr_for_ports-accept machine 6 2 443 1000 neq_op none packet blank runs_transport runs_meta
      runs_cmp little_endian-IsBigEndian refl (omega arith) (omega arith) (omega arith)
      (omega arith)

version_and_protocol-accept_example :
    ((es : List Expr) × (expr_for_ip_version 4 neq_op ≡ ok es)
      × (accepts machine es ip4_packet blank ≡ true))
    × ((es : List Expr) × (expr_for_protocol family_ipv4 17 neq_op ≡ ok es)
        × (accepts machine es ip4_packet blank ≡ true))
version_and_protocol-accept_example =
    version_and_protocol-accept machine family_ipv4 4 17 neq_op ip4_packet blank runs_network
      runs_cmp runs_bitwise (λ n. refl) (omega arith) (omega arith) (omega arith) (ground arith)
