-- ===== src/Tests/Ranges.antt =====
-- nfranges.go at concrete networks.
use nftableslib.Base.{
  ◌+◌, ◌*◌, ◌%◌, ◌^◌, ◌<◌, ◌≤◌, ◌≡◌, refl, true, some, [], ◌∷◌, ◌++◌, Bytes, ok, panic, replicate,
  length, arith,
}
use nftableslib.Rule.{IpAddr}
use nftableslib.Expressions.Mask.{get_mask, build_mask}
use nftableslib.Registers.Ensures.{OnOk}
use nftableslib.Ranges.Coverage.{IsPart, HoldsAll, try_collapse-HoldsAll}
use nftableslib.Ranges.Collapse.{get_ip, is_subnet, try_collapse}
use nftableslib.Ranges.Gap.{compute_gap_range}
use nftableslib.Ranges.Value.{IsBytes, span, value}
use nftableslib.Ranges.GapValue.{compute_gap_range-value, compute_gap_range-panic}
use nftableslib.Ranges.Mask.{prefix_mask, get_mask-eq-prefix_mask}

-- 35.254.0.0/16 of nfranges_test.go
abbrev net16 : IpAddr
net16 = record { ip = 35 ∷ 254 ∷ 0 ∷ 0 ∷ []; cidr = true; mask = some 16 }

-- The same in 16-byte form.
abbrev mapped : IpAddr
mapped = record {
  ip = replicate 10 0 ++ 0xff ∷ 0xff ∷ 35 ∷ 254 ∷ 0 ∷ 0 ∷ [];
  cidr = true;
  mask = some 16;
}

mask19 : get_mask 19 4 ≡ ok (0xff ∷ 0xff ∷ 0xe0 ∷ 0 ∷ [])
unfolding get_mask
mask19 = refl

gap16 : compute_gap_range net16 ≡ ok (35 ∷ 255 ∷ 0 ∷ 0 ∷ [])
unfolding compute_gap_range get_mask get_ip
gap16 = refl

get_mask-eq-prefix_mask_example :
    (19 ≤ 8 * 4 → get_mask 19 4 ≡ ok (prefix_mask 4 19))
    × (8 * 4 < 19 → get_mask 19 4 ≡ panic)
    × (build_mask 4 19 ≡ get_mask 19 4)
get_mask-eq-prefix_mask_example = get_mask-eq-prefix_mask 4 19

compute_gap_range-value_example :
    (gap : Bytes) × (compute_gap_range net16 ≡ ok gap)
    × (length gap ≡ 4)
    × IsBytes gap
    × (value gap ≡ (value (35 ∷ 254 ∷ 0 ∷ 0 ∷ []) + 2 ^ 16) % span 4)
unfolding get_ip
compute_gap_range-value_example =
    compute_gap_range-value net16 16 refl refl (omega arith) (omega arith) (omega arith)

mapped_panics : compute_gap_range mapped ≡ panic
unfolding get_ip
mapped_panics = compute_gap_range-panic mapped 16 refl (omega arith)

-- A part of 35.254.0.0/16.
abbrev net24 : IpAddr
net24 = record { ip = 35 ∷ 254 ∷ 7 ∷ 0 ∷ []; cidr = true; mask = some 24 }

collapsed : try_collapse (net16 ∷ net24 ∷ []) ≡ ok (net16 ∷ [])
unfolding try_collapse is_subnet get_mask
collapsed = refl

try_collapse-HoldsAll_example :
    OnOk
      (λ kept. IsPart kept (net16 ∷ net24 ∷ []) × HoldsAll kept (net16 ∷ net24 ∷ []))
      (try_collapse (net16 ∷ net24 ∷ []))
try_collapse-HoldsAll_example = try_collapse-HoldsAll (net16 ∷ net24 ∷ [])
