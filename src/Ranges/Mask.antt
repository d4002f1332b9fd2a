-- ===== src/Ranges/Mask.antt =====
-- `getMask` of nfranges.go and `buildMask` of nfexpressions.go against the mask of a prefix length.
use Prim.Native.Nat.{bit_xor, min}
use nftableslib.Base.{
  ℕ, zero, suc, ◌+◌, ◌-◌, ◌*◌, ◌/◌, ◌%◌, ◌^◌, ◌≤◌, ◌<◌, ◌≡◌, refl, ap, sym, ◌∙◌, true, false, inl,
  inr, [], ◌∷◌, Bytes, Outcome, ok, err, panic, blocked, ◌>>=◌, replicate, arith, Bool-cases,
  ==_iff, ◌==◌, ltb, if◌then◌else◌, passes_up_to, passes_at,
}
use nftableslib.Expressions.Mask.{index, assign, fill_bytes, sum_bits, build_mask, get_mask}

-- The byte whose highest k bits are 1, for k up to 8.
abbrev pub high_bits : ℕ → ℕ
high_bits k = 256 - 2 ^ (8 - k)

-- The first ml bits are 1, the others 0.
abbrev pub prefix_mask : ℕ → ℕ → Bytes
prefix_mask zero ml = []
prefix_mask (suc l) ml = high_bits (min 8 ml) ∷ prefix_mask l (ml - 8)

abbrev cons_ok : ℕ → Outcome Bytes → Outcome Bytes
cons_ok x o = o >>= λ r. ok (x ∷ r)

fill_bytes-cons :
    (n i x : ℕ) (xs : Bytes) → fill_bytes n (suc i) (x ∷ xs) ≡ cons_ok x (fill_bytes n i xs)
unfolding fill_bytes assign
fill_bytes-cons zero i x xs = refl
fill_bytes-cons (suc n) i x xs = after (fill_bytes-cons n (suc i) x) (assign xs i 0xff)
  where
    after :
        ((r : Bytes) → fill_bytes n (suc (suc i)) (x ∷ r) ≡ cons_ok x (fill_bytes n (suc i) r))
        → (o : Outcome Bytes)
        → ((o >>= λ rest. ok (x ∷ rest)) >>= fill_bytes n (suc (suc i)))
          ≡ cons_ok x (o >>= fill_bytes n (suc i))
    after ih (ok r) = ih r
    after ih (err e) = refl
    after ih panic = refl
    after ih blocked = refl

-- What `getMask` does behind its first loop, for q full bytes and k bits left.
last_byte : ℕ → ℕ → Bytes → Outcome Bytes
unfolding index assign
last_byte q k mask =
    if k == 0
    then ok mask
    else (index mask q >>= λ old. assign mask q (bit_xor old (sum_bits k 0x80 0)))

last_byte-cons :
    (q k x : ℕ) (mask : Bytes) → last_byte (suc q) k (x ∷ mask) ≡ cons_ok x (last_byte q k mask)
unfolding last_byte
last_byte-cons q k x mask = elim (Bool-cases (k == 0)) [
  | inl none_left ↦ rw none_left
  | inr left ↦ rw left (after (index mask q))
]
  where
    after :
        (o : Outcome ℕ)
        → (o >>= λ old. assign (x ∷ mask) (suc q) (bit_xor old (sum_bits k 0x80 0)))
          ≡ cons_ok x (o >>= λ old. assign mask q (bit_xor old (sum_bits k 0x80 0)))
    after (ok old) = refl
    after (err e) = refl
    after panic = refl
    after blocked = refl

-- One byte more in front of the mask is one byte of ones.
get_mask-cons : (m l : ℕ) → get_mask (m + 8) (suc l) ≡ cons_ok 0xff (get_mask m l)
unfolding get_mask last_byte
get_mask-cons m l =
    let d : (m + 8) / 8 ≡ suc (m / 8) = omega arith in
    let r : (m + 8) % 8 ≡ m % 8 = omega arith in
    rw (d, r)
      (rw (fill_bytes-cons (m / 8) 0 0xff (replicate l 0))
        (after (fill_bytes (m / 8) 0 (replicate l 0))))
  where
    after :
        (o : Outcome Bytes)
        → (cons_ok 0xff o >>= last_byte (suc (m / 8)) (m % 8))
          ≡ cons_ok 0xff (o >>= last_byte (m / 8) (m % 8))
    after (ok mask) = last_byte-cons (m / 8) (m % 8) 0xff mask
    after (err e) = refl
    after panic = refl
    after blocked = refl

-- Fewer than 8 bits: the loop's sum of bits is the byte of so many high bits.
bits_table : passes_up_to (λ k. bit_xor 0 (sum_bits k 0x80 0) == high_bits k) 8 ≡ true
unfolding passes_up_to sum_bits
bits_table = refl

prefix_mask-zero : (l : ℕ) → prefix_mask l 0 ≡ replicate l 0
prefix_mask-zero zero = refl
prefix_mask-zero (suc l) = ap (λ r. 0 ∷ r) (prefix_mask-zero l)

get_mask-lt : (m l : ℕ) → m < 8 → get_mask m (suc l) ≡ ok (prefix_mask (suc l) m)
unfolding get_mask fill_bytes assign index
get_mask-lt m l h =
    let d : m / 8 ≡ 0 = omega arith in
    let r : m % 8 ≡ m = omega arith in
    let z : m - 8 ≡ 0 = omega arith in
    let n : min 8 m ≡ m = omega arith in
    rw (d, r, z, n, prefix_mask-zero l)
      (elim (Bool-cases (m == 0)) [
        | inl none_left ↦
            rw none_left (ap (λ b. ok (b ∷ replicate l 0)) (rw ((==_iff m 0).0 none_left)))
        | inr left ↦ rw left (
            ap (λ b. ok (b ∷ replicate l 0))
              ((==_iff _ _).0
                (passes_at (λ k. bit_xor 0 (sum_bits k 0x80 0) == high_bits k) bits_table h)))
      ])

eight_more : (ml : ℕ) → 8 ≤ ml → ml ≡ ml - 8 + 8
eight_more ml h = omega arith

full_byte : (l ml : ℕ) → 8 ≤ ml → prefix_mask (suc l) ml ≡ 0xff ∷ prefix_mask l (ml - 8)
full_byte l ml h = let n : min 8 ml ≡ 8 = omega arith in rw n

get_mask-fits : (l ml : ℕ) → ml ≤ 8 * l → get_mask ml l ≡ ok (prefix_mask l ml)
unfolding get_mask fill_bytes
get_mask-fits zero ml h = let z : ml ≡ 0 = omega arith in rw z
get_mask-fits (suc l) ml h = elim (Bool-cases (ltb ml 8)) [
  | inl few ↦ get_mask-lt ml l (ground arith)
  | inr many ↦
      ap (λ m. get_mask m (suc l)) (eight_more ml (ground arith))
      ∙ (get_mask-cons (ml - 8) l
          ∙ (ap (cons_ok 0xff) (get_mask-fits l (ml - 8) (ground arith))
              ∙ ap ok (sym (full_byte l ml (ground arith)))))
]

get_mask-nil : (ml : ℕ) → 0 < ml → get_mask ml 0 ≡ panic
unfolding get_mask fill_bytes assign index
get_mask-nil ml h = elim (Bool-cases (ml / 8 == 0)) [
  | inl few ↦
      let d : ml / 8 ≡ 0 = (==_iff _ _).0 few in
      let r : (ml % 8 == 0) ≡ false = ground arith in rw (d, r)
  | inr many ↦ let d : ml / 8 ≡ suc (ml / 8 - 1) = ground arith in rw d
]

get_mask-short : (l ml : ℕ) → 8 * l < ml → get_mask ml l ≡ panic
get_mask-short zero ml h = get_mask-nil ml h
get_mask-short (suc l) ml h =
    ap (λ m. get_mask m (suc l)) (eight_more ml (omega arith))
    ∙ (get_mask-cons (ml - 8) l ∙ ap (cons_ok 0xff) (get_mask-short l (ml - 8) (omega arith)))

build_mask-eq-get_mask : (l ml : ℕ) → build_mask l ml ≡ get_mask ml l
unfolding build_mask get_mask
build_mask-eq-get_mask l ml = refl

-- A mask length that fits the address gives the mask with that many leading ones, and a longer one
-- panics; `buildMask` is the same function.
pub get_mask-eq-prefix_mask :
    (l ml : ℕ)
    → (ml ≤ 8 * l → get_mask ml l ≡ ok (prefix_mask l ml))
      × (8 * l < ml → get_mask ml l ≡ panic)
      × (build_mask l ml ≡ get_mask ml l)
get_mask-eq-prefix_mask l ml =
    (get_mask-fits l ml, get_mask-short l ml, build_mask-eq-get_mask l ml)
