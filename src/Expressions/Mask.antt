-- ===== src/Expressions/Mask.antt =====
-- `buildMask` of nfexpressions.go, and its twin `getMask` of nfranges.go.
use Prim.Native.Nat.{bit_xor}
use nftableslib.Base.{
  ℕ, zero, suc, ◌+◌, ◌/◌, ◌%◌, [], ◌∷◌, Bytes, Outcome, ok, panic, ◌>>=◌, replicate, ◌==◌,
  if◌then◌else◌,
}

-- `xs[i]` and `xs[i] = v`, a panic out of range.
unfoldable pub index : Bytes → ℕ → Outcome ℕ
index [] i = panic
index (x ∷ xs) zero = ok x
index (x ∷ xs) (suc i) = index xs i

unfoldable pub assign : Bytes → ℕ → ℕ → Outcome Bytes
assign [] i v = panic
assign (x ∷ xs) zero v = ok (v ∷ xs)
assign (x ∷ xs) (suc i) v = do rest ← assign xs i v; ok (x ∷ rest)

-- `for i := 0; i < fullBytes; i++ { mask[i] = 0xff }`, by the rounds left.
unfoldable pub fill_bytes : ℕ → ℕ → Bytes → Outcome Bytes
fill_bytes zero i mask = ok mask
fill_bytes (suc rounds) i mask = do mask' ← assign mask i 0xff; fill_bytes rounds (suc i) mask'

-- `for i := 0; i < leftBits; i++ { v += m; m = m >> 1 }` on bytes.
unfoldable pub sum_bits : ℕ → ℕ → ℕ → ℕ
sum_bits zero m v = v
sum_bits (suc rounds) m v = sum_bits rounds (m / 2) ((v + m) % 256)

unfoldable pub build_mask : ℕ → ℕ → Outcome Bytes
unfolding index assign fill_bytes sum_bits
build_mask len mask_length = do
  mask ← fill_bytes (mask_length / 8) 0 (replicate len 0)
  if mask_length % 8 == 0 then ok mask else (do
    old ← index mask (mask_length / 8)
    assign mask (mask_length / 8) (bit_xor old (sum_bits (mask_length % 8) 0x80 0)))

unfoldable pub get_mask : ℕ → ℕ → Outcome Bytes
unfolding index assign fill_bytes sum_bits
get_mask ml l = do
  mask ← fill_bytes (ml / 8) 0 (replicate l 0)
  if ml % 8 == 0 then ok mask else (do
    old ← index mask (ml / 8)
    assign mask (ml / 8) (bit_xor old (sum_bits (ml % 8) 0x80 0)))
