-- ===== src/Rule/Accepted.antt =====
-- Which descriptions the `Validate` methods of nfrules.go accept.
use nftableslib.Base.{
  ◌≡◌, refl, ◌↔◌, Bool, true, false, not, Option, none, some, List, [], ◌∷◌, Outcome, ok, err,
  panic, blocked, ◌>>◌, slice_items, is_some, arith, ◌==◌, ◌&&◌, ◌||◌, if◌then◌else◌,
}
use nftableslib.Rule.Address.{IpAddr}
use nftableslib.Rule.Types.{IpAddrSpec, L3Rule, Port, L4Rule, Rule}
use nftableslib.Rule.Validate.{
  validate_ip, validate_ips, has_items, validate_addr_spec, validate_optional, validate_l3,
  count_port_sources, validate_port, validate_l4, validate_selectors, redirects, validate_rule,
}

-- A network has a mask.
abbrev pub has_mask : Option IpAddr → Bool
has_mask none = false
has_mask (some a) = not a.cidr || is_some a.mask

abbrev pub all_have_mask : List (Option IpAddr) → Bool
all_have_mask [] = true
all_have_mask (a ∷ list) = has_mask a && all_have_mask list

-- A list of addresses and no end of a range, or a range with both ends and no list.
abbrev pub is_addr_spec : IpAddrSpec → Bool
is_addr_spec s =
    if has_items s.list
    then all_have_mask (slice_items s.list)
      && not (is_some s.range_from)
      && not (is_some s.range_to)
    else has_mask s.range_from && has_mask s.range_to

-- A list, or a range with both ends, or a reference with no end of a range beside it.
abbrev pub is_port_spec : Port → Bool
is_port_spec p =
    has_items p.list
    || (is_some p.range_from && is_some p.range_to)
    || (not (is_some p.range_from) && not (is_some p.range_to) && is_some p.set_ref)

abbrev pub is_optional : {A : Type 0} → (A → Bool) → Option A → Bool
is_optional test none = true
is_optional test (some a) = test a

-- Only the first of the source, the destination, and the version or protocol counts.
abbrev pub is_l3_rule : L3Rule → Bool
is_l3_rule r = elim r.src [
  | some src ↦ is_addr_spec src
  | none ↦ elim r.dst [
    | some dst ↦ is_addr_spec dst
    | none ↦ is_some r.version || is_some r.protocol
  ]
]

abbrev pub is_l4_rule : L4Rule → Bool
is_l4_rule r =
    not (r.l4_proto == 0) && is_optional is_port_spec r.src && is_optional is_port_spec r.dst

-- The L3 rule alone counts where there is one; a redirection needs one of both.
abbrev pub is_rule : Rule → Bool
is_rule r = elim r.l3 [
  | some l3 ↦ is_l3_rule l3
  | none ↦ elim r.l4 [ some l4 ↦ is_l4_rule l4 | none ↦ not (redirects r.action) ]
]

-- A check that passes exactly if a test holds.
abbrev Decides : Outcome (Unit {0}) → Bool → Type 0
Decides o b = (o ≡ ok tt) ↔ (b ≡ true)

Decides-and :
    (o p : Outcome (Unit {0})) (b c : Bool) → Decides o b → Decides p c → Decides (o >> p) (b && c)
Decides-and (ok tt) p b c d e = ground (arith, d.0, d.1, e.0, e.1)
Decides-and (err x) p b c d e = (λ h. absurd (cc), λ h. cc (d.1 (ground arith)))
Decides-and panic p b c d e = (λ h. absurd (cc), λ h. cc (d.1 (ground arith)))
Decides-and blocked p b c d e = (λ h. absurd (cc), λ h. cc (d.1 (ground arith)))

validate_ip-Decides : (a : Option IpAddr) → Decides (validate_ip a) (has_mask a)
unfolding validate_ip
validate_ip-Decides none = (λ h. absurd (cc), λ h. absurd (cc))
validate_ip-Decides (some a) = ground arith

validate_ips-Decides :
    (list : List (Option IpAddr)) → Decides (validate_ips list) (all_have_mask list)
unfolding validate_ips
validate_ips-Decides [] = (λ h. refl, λ h. refl)
validate_ips-Decides (a ∷ list) =
    Decides-and (validate_ip a) (validate_ips list) (has_mask a) (all_have_mask list)
      (validate_ip-Decides a) (validate_ips-Decides list)

validate_addr_spec-Decides : (s : IpAddrSpec) → Decides (validate_addr_spec s) (is_addr_spec s)
unfolding validate_addr_spec
validate_addr_spec-Decides s =
    let ips = validate_ips-Decides (slice_items s.list) in
    let from = validate_ip-Decides s.range_from in
    let to = validate_ip-Decides s.range_to in
    grind (arith, ips.0, ips.1, from.0, from.1, to.0, to.1)

validate_port-Decides : (p : Port) → Decides (validate_port p) (is_port_spec p)
unfolding validate_port count_port_sources
validate_port-Decides p = ground arith

validate_optional-Decides :
    {A : Type 0} (validate : A → Outcome (Unit {0})) (test : A → Bool) (o : Option A)
    → ((a : A) → Decides (validate a) (test a))
    → Decides (validate_optional validate o) (is_optional test o)
unfolding validate_optional
validate_optional-Decides validate test none h = (λ k. refl, λ k. refl)
validate_optional-Decides validate test (some a) h = h a

validate_l4-Decides : (r : L4Rule) → Decides (validate_l4 r) (is_l4_rule r)
unfolding validate_l4
validate_l4-Decides r =
    let src = validate_optional-Decides validate_port is_port_spec r.src validate_port-Decides in
    let dst = validate_optional-Decides validate_port is_port_spec r.dst validate_port-Decides in
    grind (arith, src.0, src.1, dst.0, dst.1)

validate_l3-Decides : (r : L3Rule) → Decides (validate_l3 r) (is_l3_rule r)
unfolding validate_l3
validate_l3-Decides r = grind (arith, validate_addr_spec-Decides)

-- `Rule.Validate` succeeds exactly for the descriptions that `is_rule` accepts: with an L3 rule, if the
-- first of its source, destination, and version or protocol that is set is right, and the L4 rule
-- does not count; without one, if the L4 rule is right; without both, if there is no redirection. An
-- address description has a list or a range with both ends, and every network a mask; a port
-- description has a list, a range with both ends, or a set.
pub validate_rule-Decides : (r : Rule) → (validate_rule r ≡ ok tt) ↔ (is_rule r ≡ true)
unfolding validate_rule validate_selectors validate_optional
validate_rule-Decides r = grind (arith, validate_l3-Decides, validate_l4-Decides)
