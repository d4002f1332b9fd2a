-- ===== src/Rule/Setters.antt =====
-- The helpers of nfrules.go that make actions, ports and log parameters from a caller's numbers.
-- Go's `int` has 64 bits; a conversion to uint16 or uint32 keeps the low bits.
use nftableslib.Base.{
  ℕ, ℤ, pos, negsuc, u8, u16, u32, Bool, true, false, not, Option, none, some, List, [], ◌∷◌, Bytes,
  map, Outcome, ok, err, many_chain_names, no_chain_name, invalid_redirect_port, no_chains, no_port,
  too_many_ports, first_address_nil, first_port_zero, unsupported_log_key, ◌>>=◌, ◌>>◌, deref,
  fail_if, length, ltb, ◌==◌, ◌&&◌, ◌||◌, if◌then◌else◌,
}
use nftableslib.Nft.{
  Verdict, nft_jump, nft_goto, nat_source, nat_dest, log_prefix, log_level, log_group, log_snaplen,
  log_qthreshold,
}
use nftableslib.Rule.Address.{IpAddr}
use nftableslib.Rule.Types.{
  IpAddrSpec, Port, eq_op, RuleAction, Redirect, Masquerade, Nat, Reject, Loadbalance, Log,
}

-- `RuleAction{}`
abbrev pub empty_action : RuleAction
empty_action = record {
  verdict = none;
  redirect = none;
  masq = none;
  nat = none;
  reject = none;
  loadbalance = none;
}

-- `L3Protocol`
unfoldable pub l3_protocol : ℤ → Option ℕ
l3_protocol proto = some (u32 proto)

-- `SetPortList`
unfoldable pub set_port_list : List ℤ → List (Option ℕ)
set_port_list ports = map (λ port. some (u16 port)) ports

-- `SetPortRange`
unfoldable pub set_port_range : ℤ → ℤ → Option ℕ × Option ℕ
set_port_range from to = (some (u16 from), some (u16 to))

-- `SetLoadbalance`: the mode is not passed on, it stays 0.
unfoldable pub set_loadbalance : List Bytes → (action mode : ℤ) → Outcome RuleAction
set_loadbalance chains action mode = do
  fail_if (length chains == 0) no_chains
  let balance : Loadbalance = record { chains = chains; action = action; mode = pos 0 }
  ok (record empty_action { loadbalance = some balance })

-- A test on integers; `key` and the constants are ints.
abbrev pub eq_int : ℤ → ℤ → Bool
eq_int (pos a) (pos b) = a == b
eq_int (pos a) (negsuc b) = false
eq_int (negsuc a) (pos b) = false
eq_int (negsuc a) (negsuc b) = a == b

-- The one name that a jump or a goto takes.
unfoldable pub single_chain : List Bytes → Outcome Bytes
single_chain [] = err no_chain_name
single_chain (chain ∷ []) = ok chain
single_chain (chain ∷ _ ∷ _) = err many_chain_names

-- `setVerdict` on a new action, which is `SetVerdict`.
unfoldable pub set_verdict : ℤ → List Bytes → Outcome RuleAction
unfolding single_chain
set_verdict key chains = do
  chain ← (if eq_int key nft_jump || eq_int key nft_goto then single_chain chains else ok [])
  let verdict : Verdict = record { kind = key; chain = chain }
  ok (record empty_action { verdict = some verdict })

-- `port < 1 || port > 65535`
unfoldable pub port_out_of_range : ℤ → Bool
port_out_of_range (negsuc n) = true
port_out_of_range (pos n) = ltb n 1 || ltb 65535 n

-- `setRedirect` on a new action, which is `SetRedirect`.
unfoldable pub set_redirect : ℤ → Bool → Outcome RuleAction
unfolding port_out_of_range
set_redirect port tproxy = do
  fail_if (port_out_of_range port) invalid_redirect_port
  let redirect : Redirect = record { port = u16 port; tproxy = tproxy }
  ok (record empty_action { redirect = some redirect })

-- `SetMasq`
unfoldable pub set_masq : (random fully_random persistent : Bool) → Outcome RuleAction
set_masq random fully_random persistent = do
  let masq : Masquerade = record {
    random = some random;
    fully_random = some fully_random;
    persistent = some persistent;
    port_from = none;
    port_to = none;
  }
  ok (record empty_action { masq = some masq })

abbrev masq_ports : (port_from port_to : Option ℕ) → Masquerade
masq_ports port_from port_to = record {
  random = none;
  fully_random = none;
  persistent = none;
  port_from = port_from;
  port_to = port_to;
}

-- `SetMasqToPort`
unfoldable pub set_masq_to_port : List ℤ → Outcome RuleAction
set_masq_to_port [] = err no_port
set_masq_to_port (p ∷ []) =
    ok (record empty_action { masq = some (masq_ports (some (u16 p)) none) })
set_masq_to_port (p ∷ q ∷ []) =
    ok (record empty_action { masq = some (masq_ports (some (u16 p)) (some (u16 q))) })
set_masq_to_port (p ∷ q ∷ _ ∷ _) = err too_many_ports

-- `NATAttributes`; both arrays have two elements, so that the first test of `setNat`, which asks for
-- arrays without any, never holds.
pub record NatAttributes : Type 0 where
  pub addr_from : Option IpAddr
  pub addr_to : Option IpAddr
  pub port_from : ℕ
  pub port_to : ℕ
  pub fully_random : Bool
  pub random : Bool
  pub persistent : Bool

abbrev pub addr_spec :
    Option (List (Option IpAddr)) → (range_from range_to : Option IpAddr) → IpAddrSpec
addr_spec list range_from range_to = record {
  list = list;
  range_from = range_from;
  range_to = range_to;
  set_ref = none;
  rel_op = eq_op;
}

abbrev pub port_spec : Option (List (Option ℕ)) → (range_from range_to : Option ℕ) → Port
port_spec list range_from range_to = record {
  list = list;
  range_from = range_from;
  range_to = range_to;
  rel_op = eq_op;
  set_ref = none;
}

-- The switch over the addresses: a range, one address, or nothing.
unfoldable pub nat_addresses : (from to : Option IpAddr) → Outcome IpAddrSpec
nat_addresses (some from) (some to) = ok (addr_spec none (some from) (some to))
nat_addresses none (some to) = err first_address_nil
nat_addresses (some from) none = ok (addr_spec (some (some from ∷ [])) none none)
nat_addresses none none = ok (addr_spec none none none)

-- The switch over the ports, of which 0 is none.
unfoldable pub nat_ports : (from to : ℕ) → Outcome Port
nat_ports from to =
    if not (from == 0) && not (to == 0)
    then ok (port_spec none (some from) (some to))
    else if from == 0 && not (to == 0)
    then err first_port_zero
    else if not (from == 0)
    then ok (port_spec (some (some from ∷ [])) none none)
    else ok (port_spec none none none)

-- `setNat`; it reads through the pointer to the attributes at once.
unfoldable pub set_nat : ℕ → Option NatAttributes → Outcome RuleAction
unfolding nat_addresses nat_ports
set_nat nat_type attributes = do
  attrs ← deref attributes
  address ← nat_addresses attrs.addr_from attrs.addr_to
  port ← nat_ports attrs.port_from attrs.port_to
  let nat : Nat = record {
    nat_type = nat_type;
    random = some attrs.random;
    fully_random = some attrs.fully_random;
    persistent = some attrs.persistent;
    address = some address;
    port = some port;
  }
  ok (record empty_action { nat = some nat })

-- `SetSNAT` and `SetDNAT`
unfoldable pub set_snat : Option NatAttributes → Outcome RuleAction
unfolding set_nat
set_snat attrs = set_nat nat_source attrs

unfoldable pub set_dnat : Option NatAttributes → Outcome RuleAction
unfolding set_nat
set_dnat attrs = set_nat nat_dest attrs

-- `SetReject`
unfoldable pub set_reject : (reject_type reject_code : ℤ) → Outcome RuleAction
set_reject reject_type reject_code = do
  let reject : Reject = record { reject_type = u32 reject_type; reject_code = u8 reject_code }
  ok (record empty_action { reject = some reject })

-- The keys that `SetLog` knows.
abbrev pub is_log_key : ℕ → Bool
is_log_key key =
    key == log_prefix
    || (key == log_level || (key == log_group || (key == log_snaplen || key == log_qthreshold)))

-- `SetLog`
unfoldable pub set_log : ℤ → Bytes → Outcome Log
set_log (negsuc n) value = err unsupported_log_key
set_log (pos key) value = do
  fail_if (not (is_log_key key)) unsupported_log_key
  ok (record { key = u32 (pos key); value = value })
