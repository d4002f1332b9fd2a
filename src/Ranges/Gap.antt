-- ===== src/Ranges/Gap.antt =====
-- `computeGapRange` of nfranges.go: the first address behind a network.
use Prim.Native.Nat.{bit_or}
use nftableslib.Base.{
  ◌+◌, ◌-◌, ◌%◌, Bool, true, false, [], ◌∷◌, Bytes, Outcome, ok, panic, ◌>>=◌, deref, length, ◌==◌,
  if◌then◌else◌,
}
use nftableslib.Rule.{IpAddr}
use nftableslib.Expressions.Mask.{get_mask}
use nftableslib.Ranges.Collapse.{get_ip}

-- `^mask[i]` on bytes
unfoldable pub get_inverse_mask : Bytes → Bytes
get_inverse_mask [] = []
get_inverse_mask (m ∷ mask) = (255 - m) ∷ get_inverse_mask mask

-- `r := make([]byte, len(ip))`, and `r[i] = ip[i] | mask[i]` for each index of the mask.
unfoldable pub or_mask : Bytes → Bytes → Outcome Bytes
or_mask [] [] = ok []
or_mask [] (m ∷ mask) = panic
or_mask (b ∷ ip) [] = do rest ← or_mask ip []; ok (0 ∷ rest)
or_mask (b ∷ ip) (m ∷ mask) = do rest ← or_mask ip mask; ok (bit_or b m ∷ rest)

-- The loop from the last byte to the first: a byte is counted up if every byte behind it has
-- turned to 0. The second part says that all have.
unfoldable pub increment : Bytes → Bytes × Bool
increment [] = ([], true)
increment (b ∷ bs) =
    let (rest, carry) = increment bs in
    if carry then ((b + 1) % 256 ∷ rest, (b + 1) % 256 == 0) else (b ∷ rest, false)

unfoldable pub add_inverse_mask_plus_one : Bytes → Bytes → Outcome Bytes
unfolding or_mask increment
add_inverse_mask_plus_one ip mask = do r ← or_mask ip mask; ok (increment r).0

unfoldable pub compute_gap_range : IpAddr → Outcome Bytes
unfolding get_inverse_mask add_inverse_mask_plus_one
compute_gap_range e = do
  ml ← deref e.mask
  mask ← get_mask ml (length e.ip)
  add_inverse_mask_plus_one (get_ip e) (get_inverse_mask mask)
