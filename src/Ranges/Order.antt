-- ===== src/Ranges/Order.antt =====
-- The two orders of nfranges.go, and what `sort.Sort` promises of either.
use nftableslib.Base.{
  Bool, true, false, List, [], ◌∷◌, Bytes, Outcome, ok, panic, ◌>>=◌, deref, ltb, if◌then◌else◌,
}
use nftableslib.Rule.{IpAddr}

-- `byIP.Less`: an address with more bytes than the other is read past the other's end.
less_bytes : Bytes → Bytes → Outcome Bool
less_bytes [] ys = ok false
less_bytes (x ∷ xs) [] = panic
less_bytes (x ∷ xs) (y ∷ ys) =
    let rest = less_bytes xs ys in if ltb x y then ok true else if ltb y x then ok false else rest

unfoldable pub less_ip : IpAddr → IpAddr → Outcome Bool
unfolding less_bytes
less_ip a b = less_bytes a.ip b.ip

-- `byMask.Less`
unfoldable pub less_mask : IpAddr → IpAddr → Outcome Bool
less_mask a b = do m ← deref a.mask; n ← deref b.mask; ok (ltb m n)

-- `sort.Sort` over a slice of addresses; it panics if a comparison that it makes panics.
pub record Sorter : Type 0 where
  pub sort : (IpAddr → IpAddr → Outcome Bool) → List IpAddr → Outcome (List IpAddr)
