-- ===== src/Expressions/Concat.antt =====
-- nfconcatrule.go: a concatenated key is loaded piece by piece into consecutive registers.
use nftableslib.Base.{
  ℕ, ◌+◌, Bool, Option, none, some, true, false, List, [], ◌∷◌, ◌++◌, Outcome, ok, err, panic,
  unsupported_element, ◌>>=◌, ◌==◌, if◌then◌else◌,
}
use nftableslib.Nft.{Family, Expr, LookupExpr, SetDatatype}
use nftableslib.Rule.{SetRef, ConcatElement, Concat}
use nftableslib.Expressions.Address.{load_network}
use nftableslib.Expressions.Header.{Layout, layout, load_transport}

-- One case of the switch: the expressions of an element, and what the case itself adds to the
-- register counter.
unfoldable pub load_element : Layout → ℕ → Bool → SetDatatype → Outcome (List Expr × ℕ)
load_element l register source SetDatatype.ip_addr_type =
    ok (load_network register (if source then l.src else l.dst) l.addr_len ∷ [], 0)
load_element l register source SetDatatype.ip6_addr_type =
    ok (load_network register (if source then l.src else l.dst) l.addr_len ∷ [], 3)
load_element l register source SetDatatype.ether_addr_type = ok ([], 0)
load_element l register source SetDatatype.inet_proto_type =
    ok (load_network register l.proto 1 ∷ [], 0)
load_element l register source SetDatatype.inet_service_type =
    ok (load_transport register (if source then 0 else 2) ∷ [], 0)
load_element l register source _ = err unsupported_element

-- `if register == 1 { register = 9 } else { register++ }`
unfoldable pub next_register : ℕ → ℕ
next_register register = if register == 1 then 9 else register + 1

unfoldable pub load_elements : Layout → ℕ → List (Option ConcatElement) → Outcome (List Expr)
unfolding load_element next_register
load_elements l register [] = ok []
load_elements l register (none ∷ es) = panic
load_elements l register (some e ∷ es) = do
  (exprs, extra) ← load_element l register e.e_source e.e_type
  rest ← load_elements l (next_register (register + extra)) es
  ok (exprs ++ rest)

-- A lookup whose result goes to the verdict register.
abbrev pub lookup_verdict : SetRef → LookupExpr
lookup_verdict ref = record {
  source_register = 1;
  dest_register = 0;
  is_dest_reg_set = true;
  invert = false;
  set_id = ref.id;
  set_name = ref.name;
}

unfoldable pub concat_lookup : Option SetRef → List Expr
concat_lookup none = []
concat_lookup (some ref) = Expr.lookup (lookup_verdict ref) ∷ []

unfoldable pub expr_for_concat : Family → Concat → Outcome (List Expr)
unfolding layout load_elements concat_lookup
expr_for_concat family c = do
  l ← layout family
  exprs ← load_elements l 1 c.elements
  ok (exprs ++ concat_lookup c.set_ref)
