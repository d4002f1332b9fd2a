-- ===== src/Rule/Address.antt =====
-- `IPAddr` of nfrules.go, and what it uses of Go's net.IP: a slice of 4 or of 16 bytes.
use nftableslib.Base.{
  ℕ, Bool, Option, [], ◌∷◌, ◌++◌, Bytes, length, drop, take, replicate, eq_bytes, ◌==◌, ◌&&◌,
  if◌then◌else◌,
}

-- net's v4InV6Prefix
abbrev v4_in_v6_prefix : Bytes
v4_in_v6_prefix = replicate 10 0 ++ 0xff ∷ 0xff ∷ []

-- `IP.To4`; the nil slice is empty.
abbrev pub to4 : Bytes → Bytes
to4 ip =
    if length ip == 4
    then ip
    else if length ip == 16 && eq_bytes (take 12 ip) v4_in_v6_prefix
    then drop 12 ip
    else []

-- `IP.To16`
abbrev pub to16 : Bytes → Bytes
to16 ip = if length ip == 4 then v4_in_v6_prefix ++ ip else if length ip == 16 then ip else []

-- `IPAddr`. The embedded *net.IPAddr is not nil, as every constructor of the package makes it.
pub record IpAddr : Type 0 where
  pub ip : Bytes
  pub cidr : Bool
  pub mask : Option ℕ

-- `IPAddr.IsIPv6`
unfoldable pub is_ipv6 : IpAddr → Bool
is_ipv6 a = length (to4 a.ip) == 0
