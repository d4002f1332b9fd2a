-- ===== src/Sets/Interval.antt =====
-- The interval that `MakeElement` makes of a network.
use nftableslib.Base.{
  ℕ, ◌+◌, ◌-◌, ◌*◌, ◌%◌, ◌^◌, ◌≤◌, ◌≡◌, refl, true, false, Option, none, some, [], ◌∷◌, Bytes, ok,
  length, arith,
}
use nftableslib.Nft.{Verdict}
use nftableslib.Host.{BinaryUtil}
use nftableslib.Rule.{RuleAction}
use nftableslib.Ranges.Order.{Sorter}
use nftableslib.Ranges.Collapse.{get_ip}
use nftableslib.Ranges.Build.{bound}
use nftableslib.Ranges.Value.{value, span, IsBytes}
use nftableslib.Ranges.GapValue.{IsNetwork, compute_gap_range-value}
use nftableslib.Ranges.Single.{SortsOne, build_element_ranges-single}
use nftableslib.Sets.Parse.{NetParser, network, new_ip_addr}
use nftableslib.Sets.Element.{ElementValue, make_element}

-- The verdict of an action that may be nil.
abbrev pub verdict_of : Option RuleAction → Option Verdict
verdict_of none = none
verdict_of (some a) = a.verdict

module _ ⦃bin : BinaryUtil⦄ ⦃net : NetParser⦄ ⦃sorter : Sorter⦄ where
  new_ip_addr-cidr :
      (text ip : Bytes) (ones : ℕ)
      → net.parse_cidr text ≡ some (ip, ones)
      → ones % 2 ^ 8 ≡ ones
      → new_ip_addr text ≡ ok (network ip ones)
  unfolding new_ip_addr
  new_ip_addr-cidr text ip ones e small = ground (arith, e, small)

  -- Where the element's address is the text of a network of n bytes, 16 at most, whose host bits
  -- are 0, whose mask fits, and whose address getIP reads as it is held (which leaves out an IPv4
  -- address held in 16 bytes), the element has neither an address nor a port as its value, and
  -- sorting leaves a list of that one network as it is, MakeElement returns two elements: the
  -- network's address with the action's verdict, and the end of the interval, n bytes whose value
  -- is that of the address plus the number of the network's addresses, modulo the size of the
  -- address space.
  pub make_element-Interval :
      (input : ElementValue) (ip : Bytes) (ones : ℕ)
      → net.parse_cidr input.addr ≡ some (ip, ones)
      → get_ip (network ip ones) ≡ ip
      → IsBytes ip
      → IsNetwork ip ones
      → ones ≤ 8 * length ip
      → length ip ≤ 16
      → SortsOne sorter (network ip ones)
      → input.addr_ip ≡ none
      → input.port ≡ none
      → (gap : Bytes) × (make_element (some input)
          ≡ ok (
              record (bound ip false) { verdict_data = verdict_of input.action }
              ∷ bound gap true
              ∷ []))
        × (length gap ≡ length ip)
        × (value gap ≡ (value ip + 2 ^ (8 * length ip - ones)) % span (length ip))
  unfolding make_element
  make_element-Interval input ip ones parsed same by host fits short sorts no_ip no_port =
      let a = network ip ones in
      let (gap, computed, len, _, v) = compute_gap_range-value a ones refl same by host fits in
      let addr = new_ip_addr-cidr input.addr ip ones parsed (omega arith) in
      let built = build_element_ranges-single a gap sorts computed in
      (gap, ground (arith, addr, built, no_ip, no_port), len, v)
