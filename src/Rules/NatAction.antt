-- ===== src/Rules/NatAction.antt =====
-- `SetSNAT` and `SetDNAT` of nfrules.go with `getExprForNAT` of nfexpressions.go behind them.
use mathlib.Core.Path.{subst}
use nftableslib.Base.{
  ℕ, zero, suc, ◌+◌, ◌≡◌, refl, Bool, Option, none, some, List, [], ◌∷◌, ◌++◌, Bytes, Outcome, ok,
  arith, length, ◌==◌, ltb, if◌then◌else◌,
}
use nftableslib.Nft.{Family, Expr, NatExpr}
use nftableslib.Host.{BinaryUtil}
use nftableslib.Rule.{RuleAction, IpAddr}
use nftableslib.Rule.Setters.{NatAttributes, set_nat}
use nftableslib.Expressions.Nat.{nat_bytes, expr_for_nat}

-- The addresses that the attributes name, the first and then the last of a range.
abbrev pub named_addresses : Family → NatAttributes → List Bytes
named_addresses family attrs = first attrs.addr_from ++ first attrs.addr_to
  where
    first : Option IpAddr → List Bytes
    first none = []
    first (some addr) = nat_bytes family addr.ip ∷ []

-- One load of bytes after the other, from a register on.
abbrev pub loads_from : ℕ → List Bytes → List Expr
loads_from register [] = []
loads_from register (b ∷ bs) = Expr.immediate register b ∷ loads_from (register + 1) bs

-- The register of the n-th of some loads, and 0 if there are not so many.
abbrev pub nth_register : (register n : ℕ) → List Bytes → ℕ
nth_register register n loads = if ltb n (length loads) then register + n else 0

module _ ⦃bin : BinaryUtil⦄ (family : Family) where
  -- The ports that they name, of which 0 is none.
  abbrev pub named_ports : NatAttributes → List Bytes
  named_ports attrs = port attrs.port_from ++ port attrs.port_to
    where
      port : ℕ → List Bytes
      port n = if n == 0 then [] else bin.be_put_uint16 n ∷ []

  -- The NAT expression over what stands in the registers from 1 on.
  abbrev pub nat_of : (nat_type : ℕ) → NatAttributes → NatExpr
  nat_of nat_type attrs =
      let addresses = named_addresses family attrs in
      let ports = named_ports attrs in
      let behind = 1 + length addresses in
      record {
        nat_type = nat_type;
        family = family;
        reg_addr_min = nth_register 1 0 addresses;
        reg_addr_max = nth_register 1 1 addresses;
        reg_proto_min = nth_register behind 0 ports;
        reg_proto_max = nth_register behind 1 ports;
        random = attrs.random;
        fully_random = attrs.fully_random;
        persistent = attrs.persistent;
      }

  -- What the action that is made is translated into.
  abbrev nat_result : (nat_type : ℕ) → NatAttributes → List Expr
  nat_result nat_type attrs =
      loads_from 1 (named_addresses family attrs ++ named_ports attrs)
      ++ Expr.nat (nat_of nat_type attrs) ∷ []

  abbrev TranslatedTo : List Expr → Outcome RuleAction → Type 0
  TranslatedTo exprs (ok a) = expr_for_nat family a.nat ≡ ok exprs
  TranslatedTo exprs _ = Unit

  abbrev attributes :
      (from to : Option IpAddr) (first last : ℕ) (fully_random random persistent : Bool)
      → NatAttributes
  attributes from to first last fully_random random persistent = record {
    addr_from = from;
    addr_to = to;
    port_from = first;
    port_to = last;
    fully_random = fully_random;
    random = random;
    persistent = persistent;
  }

  translated :
      (nat_type : ℕ) (from to : Option IpAddr) (first last : ℕ) (f r p : Bool)
      → let attrs = attributes from to first last f r p in
        TranslatedTo (nat_result nat_type attrs) (set_nat nat_type (some attrs))
  unfolding set_nat expr_for_nat
  translated t none none zero zero f r p = refl
  translated t none none zero (suc n) f r p = ground arith
  translated t none none (suc m) zero f r p = ground arith
  translated t none none (suc m) (suc n) f r p = ground arith
  translated t none (some b) zero zero f r p = tt
  translated t none (some b) zero (suc n) f r p = ground arith
  translated t none (some b) (suc m) zero f r p = ground arith
  translated t none (some b) (suc m) (suc n) f r p = ground arith
  translated t (some a) none zero zero f r p = refl
  translated t (some a) none zero (suc n) f r p = ground arith
  translated t (some a) none (suc m) zero f r p = ground arith
  translated t (some a) none (suc m) (suc n) f r p = ground arith
  translated t (some a) (some b) zero zero f r p = refl
  translated t (some a) (some b) zero (suc n) f r p = ground arith
  translated t (some a) (some b) (suc m) zero f r p = ground arith
  translated t (some a) (some b) (suc m) (suc n) f r p = ground arith

  -- An action that SetSNAT or SetDNAT makes of attributes is always translated: into one load for
  -- each address and each port that the attributes name, the addresses first, into the registers
  -- from 1 on, and behind the loads the NAT expression with the type, the family and the flags,
  -- which names the registers of the first and the last address and port, 0 for one that is not
  -- named.
  pub set_nat-expr_for_nat :
      (nat_type : ℕ) (attrs : NatAttributes) (a : RuleAction)
      → set_nat nat_type (some attrs) ≡ ok a
      → expr_for_nat family a.nat
        ≡ ok (
            loads_from 1 (named_addresses family attrs ++ named_ports attrs)
            ++ Expr.nat (nat_of nat_type attrs) ∷ [])
  set_nat-expr_for_nat nat_type attrs a h = subst (TranslatedTo (nat_result nat_type attrs)) h (
      translated nat_type attrs.addr_from attrs.addr_to attrs.port_from attrs.port_to
        attrs.fully_random attrs.random attrs.persistent)
