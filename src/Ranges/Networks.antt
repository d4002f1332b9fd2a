-- ===== src/Ranges/Networks.antt =====
-- `getNetworks` of nfranges.go: neighbours with the same first byte form a group.
use nftableslib.Base.{
  ℕ, zero, suc, List, [], ◌∷◌, Bytes, Outcome, ok, panic, ◌>>=◌, length, ◌==◌, if◌then◌else◌,
}
use nftableslib.Rule.{IpAddr}

-- `ip[0]`
first_byte : Bytes → Outcome ℕ
first_byte [] = panic
first_byte (b ∷ bs) = ok b

-- The inner loop, over all elements behind the current one.
unfoldable pub same_network : IpAddr → List IpAddr → Outcome (List IpAddr)
unfolding first_byte
same_network a [] = ok []
same_network a (b ∷ list) = do
  b1 ← first_byte a.ip
  b2 ← first_byte b.ip
  rest ← same_network a list
  ok (if b1 == b2 then b ∷ rest else rest)

-- The outer loop. Each element that the inner loop took has moved `i` on by one: so many elements
-- behind the current one are skipped.
unfoldable pub networks_from : ℕ → List IpAddr → Outcome (List (List IpAddr))
networks_from skip [] = ok []
networks_from (suc skip) (a ∷ list) = networks_from skip list
networks_from zero (a ∷ list) = do
  same ← same_network a list
  rest ← networks_from (length same) list
  ok ((a ∷ same) ∷ rest)

unfoldable pub get_networks : List IpAddr → Outcome (List (List IpAddr))
unfolding same_network networks_from
get_networks list = networks_from 0 list
