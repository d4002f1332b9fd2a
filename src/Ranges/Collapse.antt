-- ===== src/Ranges/Collapse.antt =====
-- `isSubnet` and `tryCollapse` of nfranges.go: networks that lie in another are dropped.
use Prim.Native.Nat.{bit_and}
use nftableslib.Base.{
  ℕ, zero, suc, Bool, true, false, List, [], ◌∷◌, Bytes, Outcome, ok, panic, ◌>>=◌, deref, length,
  replicate, ◌==◌, ◌||◌, if◌then◌else◌,
}
use nftableslib.Rule.{IpAddr, is_ipv6, to4, to16}
use nftableslib.Expressions.Mask.{get_mask}

-- `getIP`
unfoldable pub get_ip : IpAddr → Bytes
unfolding is_ipv6
get_ip a = if is_ipv6 a then to16 a.ip else to4 a.ip

-- `for i := range bip1`, over bip1, mask1, bip2 and mask2. All but the first may be too short.
subnet_loop : Bytes → Bytes → Bytes → Bytes → Outcome Bool
subnet_loop [] mask1 bip2 mask2 = ok true
subnet_loop (b1 ∷ bip1) (m1 ∷ mask1) (b2 ∷ bip2) (m2 ∷ mask2) =
    let rest = subnet_loop bip1 mask1 bip2 mask2 in
    if bit_and b1 m1 == bit_and (bit_and b2 m2) m1 then rest else ok false
subnet_loop (b1 ∷ bip1) _ _ _ = panic

unfoldable pub is_subnet : IpAddr → IpAddr → Outcome Bool
unfolding subnet_loop get_ip
is_subnet ip1 ip2 = do
  ml1 ← deref ip1.mask
  mask1 ← get_mask ml1 (length ip1.ip)
  ml2 ← deref ip2.mask
  mask2 ← get_mask ml2 (length ip2.ip)
  subnet_loop (get_ip ip1) mask1 (get_ip ip2) mask2

-- The inner loop: `collapsed[j] = 1` for each other network j that lies in network i.
unfoldable pub mark_subnets : ℕ → IpAddr → ℕ → List IpAddr → List Bool → Outcome (List Bool)
mark_subnets i a j [] flags = ok []
mark_subnets i a j (b ∷ org) [] = panic
mark_subnets i a j (b ∷ org) (flag ∷ flags) = do
  inside ← (if i == j then ok false else is_subnet a b)
  rest ← mark_subnets i a (suc j) org flags
  ok ((flag || inside) ∷ rest)

-- `collapsed[i] == 1`
unfoldable pub flag_at : List Bool → ℕ → Outcome Bool
flag_at [] i = panic
flag_at (flag ∷ flags) zero = ok flag
flag_at (flag ∷ flags) (suc i) = flag_at flags i

-- The outer loop over the elements from index i on.
unfoldable pub collapse_from : List IpAddr → ℕ → List IpAddr → List Bool → Outcome (List IpAddr)
unfolding mark_subnets flag_at
collapse_from org i [] flags = ok []
collapse_from org i (a ∷ list) flags = flag_at flags i >>= elim [
  | true ↦ collapse_from org (suc i) list flags
  | false ↦ do
    flags' ← mark_subnets i a 0 org flags
    rest ← collapse_from org (suc i) list flags'
    ok (a ∷ rest)
]

unfoldable pub try_collapse : List IpAddr → Outcome (List IpAddr)
unfolding collapse_from
try_collapse org = collapse_from org 0 org (replicate (length org) false)
