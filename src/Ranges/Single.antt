-- ===== src/Ranges/Single.antt =====
-- `buildElementRanges` of a single network.
use nftableslib.Base.{◌≡◌, refl, Bool, true, false, [], ◌∷◌, Bytes, Outcome, ok}
use nftableslib.Rule.{IpAddr}
use nftableslib.Ranges.Order.{Sorter, less_ip, less_mask}
use nftableslib.Ranges.Networks.{get_networks, networks_from, same_network}
use nftableslib.Ranges.Gap.{compute_gap_range}
use nftableslib.Ranges.Build.{
  bound, build_elements, collapse_network, collapse_networks, build_element_ranges,
}

-- Sorting a list of one address changes nothing.
abbrev pub SortsOne : Sorter → IpAddr → Type 0
SortsOne sorter a =
    (less : IpAddr → IpAddr → Outcome Bool) → sorter.sort less (a ∷ []) ≡ ok (a ∷ [])

module _ ⦃sorter : Sorter⦄ where
  pub build_element_ranges-single :
      (a : IpAddr) (gap : Bytes)
      → SortsOne sorter a
      → compute_gap_range a ≡ ok gap
      → build_element_ranges (a ∷ []) ≡ ok (bound a.ip false ∷ bound gap true ∷ [])
  unfolding build_element_ranges collapse_networks collapse_network get_networks networks_from
      same_network build_elements
  build_element_ranges-single a gap sorts computed =
      rw (sorts less_ip, sorts less_mask, computed) refl
