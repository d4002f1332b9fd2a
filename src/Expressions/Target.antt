-- ===== src/Expressions/Target.antt =====
-- nfexpressions.go: redirection, masquerading, logging and rejecting.
use nftableslib.Base.{ℕ, Bool, true, false, Option, none, some, List, [], ◌∷◌}
use nftableslib.Nft.{Family, Expr, MasqExpr}
use nftableslib.Host.{BinaryUtil}
use nftableslib.Rule.{Masquerade, Log, Reject}

-- `if p != nil { b = *p }` over a false b
abbrev pub flag : Option Bool → Bool
flag none = false
flag (some b) = b

-- `&expr.Masq{ToPorts: true, RegProtoMin: 1, RegProtoMax: max}`
abbrev to_ports_masq : ℕ → MasqExpr
to_ports_masq max = record {
  random = false;
  fully_random = false;
  persistent = false;
  to_ports = true;
  reg_proto_min = 1;
  reg_proto_max = max;
}

module _ ⦃bin : BinaryUtil⦄ where
  unfoldable pub expr_for_redirect_port : ℕ → List Expr
  expr_for_redirect_port port = Expr.immediate 1 (bin.be_put_uint16 port) ∷ Expr.redir 1 0 ∷ []

  -- `byte(family)` is the family, which is a byte.
  unfoldable pub expr_for_tproxy_redirect : ℕ → Family → List Expr
  expr_for_tproxy_redirect port family =
      Expr.immediate 1 (bin.be_put_uint16 port) ∷ Expr.tproxy family family 1 ∷ []

  unfoldable pub expr_for_redirect : ℕ → Family → List Expr
  expr_for_redirect port family = Expr.immediate 1 (bin.be_put_uint16 port) ∷ Expr.redir 1 1 ∷ []

  masq_to_ports : ℕ → Option ℕ → List Expr
  masq_to_ports from none =
      Expr.immediate 1 (bin.be_put_uint32 from) ∷ Expr.masq (to_ports_masq 0) ∷ []
  masq_to_ports from (some to) =
      Expr.immediate 1 (bin.be_put_uint32 from)
      ∷ Expr.immediate 2 (bin.be_put_uint32 to)
      ∷ Expr.masq (to_ports_masq 2)
      ∷ []

  -- The flags and the ports exclude one another: the first port decides.
  masq_exprs : Option ℕ → Masquerade → List Expr
  unfolding masq_to_ports
  masq_exprs (some from) m = masq_to_ports from m.port_to
  masq_exprs none m =
      Expr.masq (record {
        random = flag m.random;
        fully_random = flag m.fully_random;
        persistent = flag m.persistent;
        to_ports = false;
        reg_proto_min = 0;
        reg_proto_max = 0;
      })
      ∷ []

  unfoldable pub expr_for_masq : Option Masquerade → List Expr
  unfolding masq_exprs
  expr_for_masq none = []
  expr_for_masq (some m) = masq_exprs m.port_from m

unfoldable pub expr_for_log : Option Log → List Expr
expr_for_log none = []
expr_for_log (some l) = Expr.log l.key l.value ∷ []

unfoldable pub expr_for_reject : Option Reject → List Expr
expr_for_reject none = []
expr_for_reject (some r) = Expr.reject r.reject_type r.reject_code ∷ []
