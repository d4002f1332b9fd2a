-- ===== src/Ranges/Build.antt =====
-- `buildElements` and `buildElementRanges` of nfranges.go.
use nftableslib.Base.{
  Bool, true, false, none, List, [], ◌∷◌, ◌++◌, Bytes, Outcome, ok, ◌>>=◌, length, ltb,
  if◌then◌else◌,
}
use nftableslib.Nft.{SetElement}
use nftableslib.Rule.{IpAddr}
use nftableslib.Ranges.Order.{less_ip, less_mask, Sorter}
use nftableslib.Ranges.Networks.{get_networks}
use nftableslib.Ranges.Collapse.{try_collapse}
use nftableslib.Ranges.Gap.{compute_gap_range}

-- `nftables.SetElement{Key: key, IntervalEnd: end}`
abbrev pub bound : Bytes → Bool → SetElement
bound key end = record { key = key; value = []; interval_end = end; verdict_data = none }

unfoldable pub build_elements : List IpAddr → Outcome (List SetElement)
build_elements [] = ok []
build_elements (a ∷ list) = do
  gap ← compute_gap_range a
  rest ← build_elements list
  ok (bound a.ip false ∷ bound gap true ∷ rest)

module _ ⦃sorter : Sorter⦄ where
  -- One group: sorted by mask, and collapsed if it has more than one element.
  unfoldable pub collapse_network : List IpAddr → Outcome (List IpAddr)
  collapse_network nets = do
    sorted ← sorter.sort less_mask nets
    if ltb 1 (length sorted) then try_collapse sorted else ok sorted

  -- The loop over the groups, whose results are appended.
  unfoldable pub collapse_networks : List (List IpAddr) → Outcome (List IpAddr)
  unfolding collapse_network
  collapse_networks [] = ok []
  collapse_networks (nets ∷ networks) = do
    fl ← collapse_network nets
    rest ← collapse_networks networks
    ok (fl ++ rest)

  unfoldable pub build_element_ranges : List IpAddr → Outcome (List SetElement)
  unfolding collapse_networks build_elements
  build_element_ranges list = do
    sorted ← sorter.sort less_ip list
    networks ← get_networks sorted
    fl ← collapse_networks networks
    build_elements fl
