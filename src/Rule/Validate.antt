-- ===== src/Rule/Validate.antt =====
-- The `Validate` methods of nfrules.go.
use nftableslib.Base.{
  Bool, false, not, Option, none, some, List, [], ◌∷◌, Outcome, ok, panic, no_mask, list_and_range,
  list_without_range, no_l3_parameter, half_port_range, no_port_source, port_combination,
  l4_proto_zero, no_action, verdict_and_redirect, redirect_without_match, ◌>>=◌, ◌>>◌, fail_if,
  slice_items, is_some, length, ltb, ℕ, ◌==◌, ◌&&◌, ◌||◌, if◌then◌else◌,
}
use nftableslib.Rule.Address.{IpAddr}
use nftableslib.Rule.Types.{IpAddrSpec, L3Rule, Port, L4Rule, RuleAction, Rule}

abbrev fine : Outcome (Unit {0})
fine = ok tt

-- `IPAddr.Validate`; its receiver is read, so a nil pointer panics.
unfoldable pub validate_ip : Option IpAddr → Outcome (Unit {0})
validate_ip none = panic
validate_ip (some a) = if not a.cidr then fine else fail_if (a.cidr && not (is_some a.mask)) no_mask

unfoldable pub validate_ips : List (Option IpAddr) → Outcome (Unit {0})
unfolding validate_ip
validate_ips [] = fine
validate_ips (a ∷ list) = validate_ip a >> validate_ips list

-- `len(ip.List) != 0`
abbrev pub has_items : {A : Type 0} → Option (List A) → Bool
has_items list = not (length (slice_items list) == 0)

-- `IPAddrSpec.Validate`
unfoldable pub validate_addr_spec : IpAddrSpec → Outcome (Unit {0})
unfolding validate_ips
validate_addr_spec s = do
  fail_if (has_items s.list && (is_some s.range_from || is_some s.range_to)) list_and_range
  fail_if (not (has_items s.list) && (not (is_some s.range_from) || not (is_some s.range_to)))
      list_without_range
  (if has_items s.list then validate_ips (slice_items s.list) else fine)
  (if is_some s.range_from && is_some s.range_to
      then (validate_ip s.range_from >> validate_ip s.range_to)
      else fine)

unfoldable pub validate_optional :
    {A : Type 0} → (A → Outcome (Unit {0})) → Option A → Outcome (Unit {0})
validate_optional validate none = fine
validate_optional validate (some a) = validate a

-- `L3Rule.Validate`: the first parameter that is set decides.
unfoldable pub validate_l3 : L3Rule → Outcome (Unit {0})
unfolding validate_addr_spec
validate_l3 r = elim r.src [
  | some src ↦ validate_addr_spec src
  | none ↦ elim r.dst [
    | some dst ↦ validate_addr_spec dst
    | none ↦ fail_if (not (is_some r.version || is_some r.protocol)) no_l3_parameter
  ]
]

-- The switch of `Port.Validate`: how many sources have been counted.
unfoldable pub count_port_sources : Port → Outcome ℕ
count_port_sources p =
    if has_items p.list
    then ok 1
    else if is_some p.range_from || is_some p.range_to
    then (fail_if (not (is_some p.range_from) || not (is_some p.range_to)) half_port_range >> ok 1)
    else if is_some p.set_ref
    then ok 1
    else ok 0

-- `Port.Validate`
unfoldable pub validate_port : Port → Outcome (Unit {0})
unfolding count_port_sources
validate_port p = do
  set ← count_port_sources p
  fail_if (ltb 1 set) port_combination
  fail_if (set == 0) no_port_source

-- `L4Rule.Validate`
unfoldable pub validate_l4 : L4Rule → Outcome (Unit {0})
unfolding validate_port validate_optional
validate_l4 r = do
  fail_if (r.l4_proto == 0) l4_proto_zero
  validate_optional validate_port r.src
  validate_optional validate_port r.dst

-- `RuleAction.Validate`
unfoldable pub validate_action : RuleAction → Outcome (Unit {0})
validate_action a = do
  fail_if (not (is_some a.verdict) && not (is_some a.redirect)) no_action
  fail_if (is_some a.verdict && is_some a.redirect) verdict_and_redirect

-- The switch of `Rule.Validate`: an L4 rule beside an L3 rule is not looked at.
unfoldable pub validate_selectors : Rule → Outcome (Unit {0})
unfolding validate_l3 validate_l4
validate_selectors r = elim r.l3 [
  | some l3 ↦ validate_l3 l3
  | none ↦ validate_optional validate_l4 r.l4
]

abbrev pub redirects : Option RuleAction → Bool
redirects none = false
redirects (some a) = is_some a.redirect

-- `Rule.Validate`
unfoldable pub validate_rule : Rule → Outcome (Unit {0})
unfolding validate_selectors
validate_rule r = do
  validate_selectors r
  fail_if (not (is_some r.l3) && not (is_some r.l4) && redirects r.action) redirect_without_match
