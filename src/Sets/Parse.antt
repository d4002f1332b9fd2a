-- ===== src/Sets/Parse.antt =====
-- `NewIPAddr` of nfrules.go. Go's parsers of addresses are parameters.
use nftableslib.Base.{
  ℕ, ◌%◌, ◌^◌, true, Option, none, some, [], ◌∷◌, ◌++◌, Bytes, Outcome, ok, err, invalid_ip,
  invalid_cidr, length, ◌==◌, if◌then◌else◌,
}
use nftableslib.Rule.{IpAddr, to4}

-- `net.ParseCIDR`, whose network is its address and the ones of its mask, and `net.ParseIP`; an
-- error or a nil address is `none`.
pub record NetParser : Type 0 where
  pub parse_cidr : Bytes → Option (Bytes × ℕ)
  pub parse_ip : Bytes → Option Bytes

-- The literal of both returns.
abbrev pub network : Bytes → ℕ → IpAddr
network ip mask = record { ip = ip; cidr = true; mask = some mask }

-- The suffix "/32" or "/128", and its number.
abbrev pub host_mask : Bytes → ℕ
host_mask ip = if length (to4 ip) == 0 then 128 else 32

abbrev pub host_suffix : Bytes → Bytes
host_suffix ip =
    if length (to4 ip) == 0 then b'/' ∷ b'1' ∷ b'2' ∷ b'8' ∷ [] else b'/' ∷ b'3' ∷ b'2' ∷ []

module _ ⦃net : NetParser⦄ where
  -- The part behind the first attempt: an address without a mask.
  abbrev pub new_host_addr : Bytes → Outcome IpAddr
  new_host_addr addr = elim (net.parse_ip addr) [
    | none ↦ err invalid_ip
    | some ip ↦ elim (net.parse_cidr (addr ++ host_suffix ip)) [
      | none ↦ err invalid_cidr
      | some (base, ones) ↦ ok (network base (host_mask ip))
    ]
  ]

  unfoldable pub new_ip_addr : Bytes → Outcome IpAddr
  new_ip_addr addr = elim (net.parse_cidr addr) [
    | some (base, ones) ↦ ok (network base (ones % 2 ^ 8))
    | none ↦ new_host_addr addr
  ]
