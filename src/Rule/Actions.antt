-- ===== src/Rule/Actions.antt =====
-- The actions that the helpers of nfrules.go make.
use nftableslib.Base.{
  ℕ, ℤ, pos, negsuc, ◌≤◌, ◌≡◌, refl, ◌↔◌, Bool, true, false, Option, none, some, List, [], ◌∷◌,
  Bytes, Outcome, ok, err, panic, blocked, no_action, is_some, arith, ◌==◌, ◌||◌, ◌&&◌, not,
  if◌then◌else◌, length,
}
use nftableslib.Nft.{nft_jump, nft_goto}
use nftableslib.Rule.Types.{RuleAction}
use nftableslib.Rule.Validate.{validate_action}
use nftableslib.Rule.Setters.{
  empty_action, eq_int, single_chain, set_verdict, port_out_of_range, set_redirect, set_masq,
  set_masq_to_port, set_reject, set_loadbalance, set_nat, NatAttributes,
}

-- The redirection to a port.
abbrev pub redirect_to : ℕ → Bool → RuleAction
redirect_to port tproxy = record empty_action {
  redirect = some (record { port = port; tproxy = tproxy });
}

-- `SetRedirect` succeeds exactly for the ports from 1 to 65535, and keeps the port that it is given.
pub set_redirect_iff :
    (port : ℤ) (tproxy : Bool) (a : RuleAction)
    → (set_redirect port tproxy ≡ ok a)
      ↔ ((n : ℕ) × (port ≡ pos n) × (1 ≤ n) × (n ≤ 65535) × (a ≡ redirect_to n tproxy))
unfolding set_redirect port_out_of_range
set_redirect_iff (pos n) tproxy a = (
  λ h. (n, refl, ground arith, ground arith, ground arith),
  λ (m, same, low, high, made). ground arith,
)
set_redirect_iff (negsuc n) tproxy a = (λ h. absurd (cc), λ (m, same, low, high, made). absurd (cc))

-- The calls that make an action.
pub data ActionCall : Type 0 where
  verdict_call : (key : ℤ) (chains : List Bytes) → ActionCall
  redirect_call : (port : ℤ) (tproxy : Bool) → ActionCall
  masq_call : (random fully_random persistent : Bool) → ActionCall
  masq_port_call : (ports : List ℤ) → ActionCall
  nat_call : (nat_type : ℕ) (attrs : Option NatAttributes) → ActionCall
  reject_call : (reject_type reject_code : ℤ) → ActionCall
  loadbalance_call : (chains : List Bytes) (action mode : ℤ) → ActionCall

abbrev pub make_action : ActionCall → Outcome RuleAction
make_action (ActionCall.verdict_call key chains) = set_verdict key chains
make_action (ActionCall.redirect_call port tproxy) = set_redirect port tproxy
make_action (ActionCall.masq_call random fully_random persistent) =
    set_masq random fully_random persistent
make_action (ActionCall.masq_port_call ports) = set_masq_to_port ports
make_action (ActionCall.nat_call nat_type attrs) = set_nat nat_type attrs
make_action (ActionCall.reject_call reject_type reject_code) = set_reject reject_type reject_code
make_action (ActionCall.loadbalance_call chains action mode) = set_loadbalance chains action mode

-- `RuleAction.Validate` knows verdicts and redirections alone.
abbrev pub is_known : ActionCall → Bool
is_known (ActionCall.verdict_call key chains) = true
is_known (ActionCall.redirect_call port tproxy) = true
is_known _ = false

-- Each call fails as its arguments tell.
abbrev pub is_good_call : ActionCall → Bool
is_good_call (ActionCall.verdict_call key chains) =
    not (eq_int key nft_jump || eq_int key nft_goto) || length chains == 1
is_good_call (ActionCall.redirect_call port tproxy) = not (port_out_of_range port)
is_good_call (ActionCall.masq_call random fully_random persistent) = true
is_good_call (ActionCall.masq_port_call ports) = length ports == 1 || length ports == 2
is_good_call (ActionCall.nat_call nat_type none) = false
is_good_call (ActionCall.nat_call nat_type (some attrs)) =
    (is_some attrs.addr_from || not (is_some attrs.addr_to))
    && (not (attrs.port_from == 0) || attrs.port_to == 0)
is_good_call (ActionCall.reject_call reject_type reject_code) = true
is_good_call (ActionCall.loadbalance_call chains action mode) = not (length chains == 0)

-- The one call that panics: `SetSNAT` or `SetDNAT` with a nil pointer.
abbrev pub is_nil_call : ActionCall → Bool
is_nil_call (ActionCall.nat_call nat_type none) = true
is_nil_call _ = false

abbrev pub Made : ActionCall → Outcome RuleAction → Type 0
Made c (ok a) =
    (is_good_call c ≡ true) × (validate_action a ≡ (if is_known c then ok tt else err no_action))
Made c (err e) = (is_good_call c ≡ false) × (is_nil_call c ≡ false)
Made c panic = is_nil_call c ≡ true
Made c blocked = true ≡ false

-- Each helper that makes an action returns one or an error, and panics exactly for SetSNAT and
-- SetDNAT with nil attributes; it returns one exactly for the arguments of is_good_call; and
-- RuleAction.Validate accepts what SetVerdict and SetRedirect make, and takes every other action
-- for none.
pub make_action-Made : (c : ActionCall) → Made c (make_action c)
unfolding set_verdict set_redirect set_masq set_masq_to_port set_nat set_reject set_loadbalance
    validate_action single_chain
make_action-Made (ActionCall.verdict_call key []) = ground arith
make_action-Made (ActionCall.verdict_call key (a ∷ [])) = ground arith
make_action-Made (ActionCall.verdict_call key (a ∷ b ∷ chains)) = ground arith
make_action-Made (ActionCall.redirect_call port tproxy) = ground arith
make_action-Made (ActionCall.masq_call random fully_random persistent) = (refl, refl)
make_action-Made (ActionCall.masq_port_call []) = (refl, refl)
make_action-Made (ActionCall.masq_port_call (p ∷ [])) = (refl, refl)
make_action-Made (ActionCall.masq_port_call (p ∷ q ∷ [])) = (refl, refl)
make_action-Made (ActionCall.masq_port_call (p ∷ q ∷ r ∷ ports)) = ground arith
make_action-Made (ActionCall.nat_call nat_type none) = refl
make_action-Made (ActionCall.nat_call nat_type (some attrs)) = ground arith
make_action-Made (ActionCall.reject_call reject_type reject_code) = (refl, refl)
make_action-Made (ActionCall.loadbalance_call chains action mode) = ground arith
