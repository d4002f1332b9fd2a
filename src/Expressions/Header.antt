-- ===== src/Expressions/Header.antt =====
-- Where the fields of a packet stand: the switch on the table family that nfconcatrule.go,
-- nfrule_dynamic.go and nfrule_matchact.go share, and the switch on the match type of the last two.
use nftableslib.Base.{
  ℕ, Outcome, ok, err, unsupported_family, unsupported_match, ◌==◌, if◌then◌else◌,
}
use nftableslib.Nft.{Family, family_ipv4, family_ipv6, Expr, PayloadBase}
use nftableslib.Expressions.Address.{load_network}

-- l3OffsetSrc, l3OffsetDst, l3AddrLen, l4ProtoOffset
pub record Layout : Type 0 where
  pub src : ℕ
  pub dst : ℕ
  pub addr_len : ℕ
  pub proto : ℕ

abbrev pub ipv4_layout : Layout
ipv4_layout = record { src = 12; dst = 16; addr_len = 4; proto = 9 }

abbrev pub ipv6_layout : Layout
ipv6_layout = record { src = 8; dst = 24; addr_len = 16; proto = 6 }

unfoldable pub layout : Family → Outcome Layout
layout family =
    if family == family_ipv4
    then ok ipv4_layout
    else if family == family_ipv6
    then ok ipv6_layout
    else err unsupported_family

abbrev pub load_transport : (register offset : ℕ) → Expr
load_transport register offset = Expr.payload register PayloadBase.transport offset 2

-- MatchTypeL3Src, MatchTypeL3Dst, MatchTypeL4Src and MatchTypeL4Dst are 0 to 3.
unfoldable pub match_load : Layout → ℕ → Outcome Expr
match_load l match_type =
    if match_type == 0
    then ok (load_network 1 l.src l.addr_len)
    else if match_type == 1
    then ok (load_network 1 l.dst l.addr_len)
    else if match_type == 2
    then ok (load_transport 1 0)
    else if match_type == 3
    then ok (load_transport 1 2)
    else err unsupported_match
