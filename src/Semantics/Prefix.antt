-- ===== src/Semantics/Prefix.antt =====
-- Masking an address with the mask of a prefix length, and comparing it with a network's address,
-- compares the bits of the prefix.
use native.Mathlib.Nat.{pow-suc, mul-div_cancel, mod-eq-sub-div-mul, div-mul-le_self}
use Prim.Native.Nat.{bit_and, bit_xor, min}
use nftableslib.Base.{
  ℕ, zero, suc, ◌+◌, ◌-◌, ◌*◌, ◌/◌, ◌%◌, ◌^◌, ◌<◌, ◌≡◌, refl, ◌∙◌, true, false, Bool, inl, inr, [],
  ◌∷◌, Bytes, length, ◌&&◌, both, arith, Bool-cases, replicate, eq_bytes, eq_bytes_iff, ==_iff,
  ◌==◌, leb, if◌then◌else◌, passes_up_to, passes_at,
}
use nftableslib.Ranges.Value.{value, IsBytes, span, value-lt}
use nftableslib.Semantics.Bitwise.{mask_bytes}
use nftableslib.Ranges.Mask.{high_bits, prefix_mask}

-- The first ml bits are the same.
unfoldable pub same_prefix : ℕ → Bytes → Bytes → Bool
same_prefix ml (a ∷ xs) (b ∷ bs) =
    let rest = same_prefix (ml - 8) xs bs in
    if leb 8 ml then a == b && rest else a / 2 ^ (8 - ml) == b / 2 ^ (8 - ml)
same_prefix ml _ _ = true

-- The bits behind the first ml are 0, as in the address that net.ParseCIDR returns.
unfoldable pub is_network : ℕ → Bytes → Bool
is_network ml [] = true
is_network ml (b ∷ bs) =
    let rest = is_network (ml - 8) bs in if leb 8 ml then rest else b % 2 ^ (8 - ml) == 0 && rest

-- A byte under a mask of k bits, for each byte and each k.
masked_byte : ℕ → ℕ → Bool
masked_byte k a = bit_xor (bit_and a (high_bits k)) 0 == a / 2 ^ (8 - k) * 2 ^ (8 - k)

masked_table : passes_up_to (λ k. passes_up_to (masked_byte k) 256) 9 ≡ true
unfolding passes_up_to masked_byte
masked_table = refl

pub masked-eq :
    (k a : ℕ)
    → k < 9
    → a < 256
    → bit_xor (bit_and a (high_bits k)) 0 ≡ a / 2 ^ (8 - k) * 2 ^ (8 - k)
unfolding masked_byte
masked-eq k a hk ha = (==_iff _ _).0 (
    passes_at (masked_byte k) (passes_at (λ k. passes_up_to (masked_byte k) 256) masked_table hk)
      ha)

-- The highest digit and the rest of a number are unique.
digit_unique : (b c s v w : ℕ) → v < s → w < s → b * s + v ≡ c * s + w → (b ≡ c) × (v ≡ w)
digit_unique b c s v w hv hw e = let heads : b ≡ c = grind arith in (heads, grind arith)

value-injective :
    (xs bs : Bytes)
    → IsBytes xs
    → IsBytes bs
    → length xs ≡ length bs
    → value xs ≡ value bs
    → xs ≡ bs
value-injective [] [] ha hb l e = refl
value-injective [] (b ∷ bs) ha hb l e = absurd (omega arith)
value-injective (a ∷ xs) [] ha hb l e = absurd (omega arith)
value-injective (a ∷ xs) (b ∷ bs) (ha, has) (hb, hbs) l e =
    let same : length xs ≡ length bs = omega arith in
    let lt : value xs < span (length bs) = rw same at (value-lt xs has) in
    let whole : a * span (length bs) + value xs ≡ b * span (length bs) + value bs = rw same at e in
    let (heads, tails) =
      digit_unique a b (span (length bs)) (value xs) (value bs) lt (value-lt bs hbs) whole in
    cc (heads, value-injective xs bs has hbs same tails)

-- Numbers are the same where the bytes are.
pub value-eq_bytes :
    (xs bs : Bytes)
    → IsBytes xs
    → IsBytes bs
    → length xs ≡ length bs
    → (value xs == value bs) ≡ eq_bytes xs bs
value-eq_bytes xs bs ha hb l = elim (Bool-cases (eq_bytes xs bs)) [
  | inl same ↦ rw same (rw ((eq_bytes_iff xs bs).0 same) (ground arith))
  | inr other ↦ ground (arith, other, eq_bytes_iff xs bs, value-injective xs bs ha hb l)
]

quotient-eq : (a b d : ℕ) → 0 < d → b % d ≡ 0 → (a / d * d == b) ≡ (a / d == b / d)
quotient-eq a b d pos whole =
    let back : a / d * d / d ≡ a / d = mul-div_cancel (a / d) pos in
    let split : b / d * d ≡ b = grind (arith, mod-eq-sub-div-mul b d, div-mul-le_self b d) in
    ground (arith, back, split)

-- Behind the prefix both are 0.
mask_rest :
    (l : ℕ) (xs bs : Bytes)
    → length xs ≡ l
    → length bs ≡ l
    → IsBytes xs
    → IsBytes bs
    → is_network 0 bs ≡ true
    → eq_bytes (mask_bytes xs (prefix_mask l 0) (replicate l 0)) bs ≡ true
unfolding mask_bytes is_network
mask_rest zero [] [] lx lb hx hb net = refl
mask_rest zero _ (b ∷ bs) lx lb hx hb net = absurd (omega arith)
mask_rest zero (a ∷ xs) [] lx lb hx hb net = absurd (omega arith)
mask_rest (suc l) [] bs lx lb hx hb net = absurd (omega arith)
mask_rest (suc l) (a ∷ xs) [] lx lb hx hb net = absurd (omega arith)
mask_rest (suc l) (a ∷ xs) (b ∷ bs) lx lb (ha, hxs) (hb, hbs) net =
    let (zero_byte, rest) = both (b % 2 ^ 8 == 0) (is_network 0 bs) net in
    let masked = masked-eq 0 a (omega arith) ha in
    let z : b ≡ 0 = ground arith in
    let head : bit_xor (bit_and a (high_bits 0)) 0 ≡ 0 = omega (arith, masked) in
    rw (head, z) (mask_rest l xs bs (omega arith) (omega arith) hxs hbs rest)

pow2_pos : (n : ℕ) → 0 < 2 ^ n
pow2_pos zero = omega arith
pow2_pos (suc n) = rw (pow-suc 2 n) (omega (arith, pow2_pos n))

and_true : (b : Bool) → (b && true) ≡ b
and_true true = refl
and_true false = refl

pub eq_bytes-mask :
    (l ml : ℕ) (xs bs : Bytes)
    → length xs ≡ l
    → length bs ≡ l
    → IsBytes xs
    → IsBytes bs
    → is_network ml bs ≡ true
    → eq_bytes (mask_bytes xs (prefix_mask l ml) (replicate l 0)) bs ≡ same_prefix ml xs bs
unfolding mask_bytes is_network same_prefix
eq_bytes-mask zero ml [] [] lx lb hx hb net = refl
eq_bytes-mask zero ml _ (b ∷ bs) lx lb hx hb net = absurd (omega arith)
eq_bytes-mask zero ml (a ∷ xs) [] lx lb hx hb net = absurd (omega arith)
eq_bytes-mask (suc l) ml [] bs lx lb hx hb net = absurd (omega arith)
eq_bytes-mask (suc l) ml (a ∷ xs) [] lx lb hx hb net = absurd (omega arith)
eq_bytes-mask (suc l) ml (a ∷ xs) (b ∷ bs) lx lb (ha, hxs) (hb, hbs) net =
    elim (Bool-cases (leb 8 ml)) [
      | inl full ↦
          let m : min 8 ml ≡ 8 = ground arith in
          let masked = masked-eq 8 a (omega arith) ha in
          let head : bit_xor (bit_and a (high_bits 8)) 0 ≡ a = omega (arith, masked) in
          rw
            (
              m,
              full,
              head,
              eq_bytes-mask l (ml - 8) xs bs (omega arith) (omega arith) hxs hbs (rw full at net),
            )
            refl
      | inr partial ↦
          let m : min 8 ml ≡ ml = ground arith in
          let none : ml - 8 ≡ 0 = ground arith in
          let (zeros, rest) =
            both (b % 2 ^ (8 - ml) == 0) (is_network (ml - 8) bs) (rw partial at net) in
          let rest' : is_network 0 bs ≡ true = rw none at rest in
          let whole : b % 2 ^ (8 - ml) ≡ 0 = (==_iff _ _).0 zeros in
          let masked = masked-eq ml a (ground arith) ha in
          rw (m, none, partial, masked, mask_rest l xs bs (omega arith) (omega arith) hxs hbs rest')
            (and_true (a / 2 ^ (8 - ml) * 2 ^ (8 - ml) == b)
              ∙ quotient-eq a b (2 ^ (8 - ml)) (pow2_pos (8 - ml)) whole)
    ]

pub mask_bytes-IsBytes :
    (l ml : ℕ) (xs : Bytes)
    → length xs ≡ l
    → IsBytes xs
    → IsBytes (mask_bytes xs (prefix_mask l ml) (replicate l 0))
      × (length (mask_bytes xs (prefix_mask l ml) (replicate l 0)) ≡ l)
unfolding mask_bytes
mask_bytes-IsBytes zero ml [] lx h = (tt, refl)
mask_bytes-IsBytes zero ml (a ∷ xs) lx h = absurd (omega arith)
mask_bytes-IsBytes (suc l) ml [] lx h = absurd (omega arith)
mask_bytes-IsBytes (suc l) ml (a ∷ xs) lx (ha, hxs) =
    let (rest, len) = mask_bytes-IsBytes l (ml - 8) xs (omega arith) hxs in
    let k = min 8 ml in
    let masked = masked-eq k a (omega arith) ha in
    ((omega (arith, masked, div-mul-le_self a (2 ^ (8 - k))), rest), omega (arith, len))
