-- ===== src/Ranges/GapValue.antt =====
-- `computeGapRange` of nfranges.go computes the address behind the last one of a network.
use Prim.Native.Nat.{bit_or, min}
use native.Mathlib.Nat.{mod-eq_of_lt, mod_self, one-le-pow}
use nftableslib.Base.{
  ℕ, zero, suc, ◌+◌, ◌-◌, ◌*◌, ◌%◌, ◌^◌, ◌≤◌, ◌<◌, ◌≡◌, refl, ap, sym, ◌∙◌, Bool, true, false, ◌&&◌,
  inl, inr, some, [], ◌∷◌, Bytes, ok, panic, ◌>>=◌, deref, length, arith, Bool-cases, ==_iff, ◌==◌,
  ltb, if◌then◌else◌, passes_up_to, passes_at,
}
use nftableslib.Rule.{IpAddr}
use nftableslib.Expressions.Mask.{get_mask}
use nftableslib.Ranges.Collapse.{get_ip}
use nftableslib.Ranges.Gap.{
  get_inverse_mask, or_mask, increment, add_inverse_mask_plus_one, compute_gap_range,
}
use nftableslib.Ranges.Mask.{high_bits, prefix_mask, get_mask-eq-prefix_mask}
use nftableslib.Ranges.Value.{IsBytes, span, value, span-suc, pow-add, value-lt}

-- Counting up by one, with the carry that leaves the slice.
carried : Bool → ℕ → ℕ
carried true n = n
carried false n = 0

abbrev Counted : Bytes → Bytes × Bool → Type 0
Counted bs r =
    (value r.0 + carried r.1 (span (length bs)) ≡ value bs + 1)
    × (length r.0 ≡ length bs)
    × IsBytes r.0

increment-Counted : (bs : Bytes) → IsBytes bs → Counted bs (increment bs)
unfolding increment carried
increment-Counted [] h = (omega arith, refl, tt)
increment-Counted (b ∷ bs) h = after (increment bs) (increment-Counted bs h.1)
  where
    after :
        (r : Bytes × Bool)
        → Counted bs r
        → Counted
            (b ∷ bs)
            (if r.1 then ((b + 1) % 256 ∷ r.0, (b + 1) % 256 == 0) else (b ∷ r.0, false))
    after (rest, false) k = (rw (k.1) (omega (arith, k.0)), omega (arith, k.1), (h.0, k.2))
    after (rest, true) k = elim (Bool-cases ((b + 1) % 256 == 0)) [
      | inl wraps ↦
          let z : (b + 1) % 256 ≡ 0 = (==_iff _ _).0 wraps in
          let top : b ≡ 255 = omega arith in
          rw (z, top)
            (omega (arith, k.0, span-suc (length bs)), omega (arith, k.1), (omega arith, k.2))
      | inr grows ↦
          let n : (b + 1) % 256 ≡ b + 1 = ground arith in
          rw (grows, n, k.1) (omega (arith, k.0), omega (arith, k.1), (ground arith, k.2))
    ]

increment_mod :
    (bs : Bytes) (r : Bytes) (c : Bool)
    → IsBytes bs
    → Counted bs (r, c)
    → value r ≡ (value bs + 1) % span (length bs)
unfolding carried
increment_mod bs r false h k =
    let small : value r < span (length bs) = rw (← k.1) (value-lt r k.2) in
    sym (ap (λ t. t % span (length bs)) (omega (arith, k.0)) ∙ mod-eq_of_lt small)
increment_mod bs r true h k =
    let top : value bs < span (length bs) = value-lt bs h in
    let zero_value : value r ≡ 0 = omega (arith, k.0) in
    let full : value bs + 1 ≡ span (length bs) = omega (arith, k.0) in
    rw (zero_value, full) (sym (mod_self (span (length bs))))

-- The bits behind the first ml ones are 0 in each byte.
abbrev pub IsNetwork : Bytes → ℕ → Type 0
IsNetwork [] ml = Unit
IsNetwork (b ∷ bs) ml = (b % 2 ^ (8 - min 8 ml) ≡ 0) × IsNetwork bs (ml - 8)

-- A byte whose low bits are 0, and what `|` with the inverse mask makes of it.
abbrev host_byte : ℕ → ℕ → Bool
host_byte k b =
    if b % 2 ^ (8 - k) == 0
    then (bit_or b (255 - high_bits k) == b + 2 ^ (8 - k) - 1) && ltb (b + 2 ^ (8 - k) - 1) 256
    else true

or_table : passes_up_to (λ k. passes_up_to (host_byte k) 256) 9 ≡ true
unfolding passes_up_to
or_table = refl

or_byte :
    (k b : ℕ)
    → k < 9
    → b < 256
    → b % 2 ^ (8 - k) ≡ 0
    → (bit_or b (255 - high_bits k) ≡ b + 2 ^ (8 - k) - 1) × (b + 2 ^ (8 - k) - 1 < 256)
or_byte k b hk hb z =
    let row : passes_up_to (host_byte k) 256 ≡ true =
      passes_at (λ j. passes_up_to (host_byte j) 256) or_table hk in
    let cell : host_byte k b ≡ true = passes_at (host_byte k) row hb in ground arith

-- The number of the first k bits of a byte is the size of the rest of a network.
split_size : (n k : ℕ) → k < 8 → 2 ^ (8 * suc n - k) ≡ 2 ^ (8 - k) * span n
split_size n k h =
    let e : 8 * suc n - k ≡ 8 - k + 8 * n = omega arith in rw e (pow-add (8 - k) (8 * n))

full_size : (n k : ℕ) → 8 ≤ k → 2 ^ (8 * suc n - k) ≡ 2 ^ (8 * n - (k - 8))
full_size n k h = let e : 8 * suc n - k ≡ 8 * n - (k - 8) = omega arith in rw e

size_pos : (k : ℕ) → 1 ≤ 2 ^ k
size_pos k = one-le-pow k 2 (omega arith)

abbrev LastPlusOne : Bytes → ℕ → Bytes → Type 0
LastPlusOne bs ml r =
    (value r + 1 ≡ value bs + 2 ^ (8 * length bs - ml)) × (length r ≡ length bs) × IsBytes r

few_bits : (p b s v w : ℕ) → 1 ≤ p → v + 1 ≡ w + s → (b + p - 1) * s + v + 1 ≡ b * s + w + p * s
few_bits zero b s v w h e = absurd (omega arith)
few_bits (suc q) b s v w h e = let d : b + suc q - 1 ≡ b + q = omega arith in rw d (omega arith)

-- One byte more in front.
LastPlusOne-cons :
    (b : ℕ) (bs r : Bytes) (ml : ℕ)
    → b < 256
    → b % 2 ^ (8 - min 8 ml) ≡ 0
    → LastPlusOne bs (ml - 8) r
    → LastPlusOne (b ∷ bs) ml (bit_or b (255 - high_bits (min 8 ml)) ∷ r)
LastPlusOne-cons b bs r ml hb z (v, len, by) =
    let (or_eq, small) = or_byte (min 8 ml) b (omega arith) hb z in
    rw (or_eq, len)
      (elim (Bool-cases (ltb ml 8)) [
        | inl few ↦
            let lt : ml < 8 = ground arith in
            let m : min 8 ml ≡ ml = omega arith in
            let e : 8 * length bs - (ml - 8) ≡ 8 * length bs = omega arith in
            (
              rw (split_size (length bs) ml lt, m)
                  (few_bits (2 ^ (8 - ml)) b (span (length bs)) (value r) (value bs)
                    (size_pos (8 - ml)) (rw e at v)),
              refl,
              (small, by),
            )
        | inr many ↦
            let ge : 8 ≤ ml = ground arith in
            let m : min 8 ml ≡ 8 = omega arith in
            let one : b + 2 ^ (8 - 8) - 1 ≡ b = omega arith in
            (rw (full_size (length bs) ml ge, m, one) (omega (arith, v)), refl, (small, by))
      ])

-- The last address of the network, plus one.
or_mask-value :
    (bs : Bytes) (ml : ℕ)
    → IsBytes bs
    → IsNetwork bs ml
    → (r : Bytes) × (or_mask bs (get_inverse_mask (prefix_mask (length bs) ml)) ≡ ok r)
      × LastPlusOne bs ml r
unfolding or_mask get_inverse_mask
or_mask-value [] ml h n = let e : 0 - ml ≡ 0 = omega arith in ([], refl, (rw e, refl, tt))
or_mask-value (b ∷ bs) ml h n =
    let (r, e, last) = or_mask-value bs (ml - 8) h.1 n.1 in
    (bit_or b (255 - high_bits (min 8 ml)) ∷ r, rw e, LastPlusOne-cons b bs r ml h.0 n.0 last)

-- For a network of n bytes whose host bits are 0, whose mask length fits, and whose address getIP
-- reads as it is held (which leaves out an IPv4 address held in 16 bytes), computeGapRange returns
-- n bytes whose value is the network's address plus the number of its addresses, modulo the size of
-- the address space: the address behind the network's last one.
pub compute_gap_range-value :
    (e : IpAddr) (ml : ℕ)
    → e.mask ≡ some ml
    → get_ip e ≡ e.ip
    → IsBytes e.ip
    → IsNetwork e.ip ml
    → ml ≤ 8 * length e.ip
    → (gap : Bytes) × (compute_gap_range e ≡ ok gap)
      × (length gap ≡ length e.ip)
      × IsBytes gap
      × (value gap ≡ (value e.ip + 2 ^ (8 * length e.ip - ml)) % span (length e.ip))
unfolding compute_gap_range
compute_gap_range-value e ml m same by net fits =
    let (r, made, (v, len, by')) = or_mask-value e.ip ml by net in
    let counted = increment-Counted r by' in
    (
      (increment r).0,
      rw (same, m, (get_mask-eq-prefix_mask (length e.ip) ml).0 fits, made),
      counted.1 ∙ len,
      counted.2,
      increment_mod r (increment r).0 (increment r).1 by' counted ∙ rw (len, v),
    )

or_mask-longer : (ip mask : Bytes) → length ip < length mask → or_mask ip mask ≡ panic
unfolding or_mask
or_mask-longer [] [] h = absurd (omega arith)
or_mask-longer [] (m ∷ mask) h = refl
or_mask-longer (b ∷ ip) [] h = absurd (omega arith)
or_mask-longer (b ∷ ip) (m ∷ mask) h = rw (or_mask-longer ip mask (omega arith))

length-inverse : (n ml : ℕ) → length (get_inverse_mask (prefix_mask n ml)) ≡ n
unfolding get_inverse_mask
length-inverse zero ml = refl
length-inverse (suc n) ml = ap suc (length-inverse n (ml - 8))

-- An IPv4 address that is held in its 16-byte form has no interval: the mask is made for 16 bytes,
-- the address is read as 4, and the code panics, whatever the mask length.
pub compute_gap_range-panic :
    (e : IpAddr) (ml : ℕ)
    → e.mask ≡ some ml
    → length (get_ip e) < length e.ip
    → compute_gap_range e ≡ panic
unfolding compute_gap_range
compute_gap_range-panic e ml m short = elim (Bool-cases (ltb (8 * length e.ip) ml)) [
  | inl long ↦
      ap
        (λ o. deref o >>= λ l. get_mask l (length e.ip) >>= λ k.
          add_inverse_mask_plus_one (get_ip e) (get_inverse_mask k))
        m
      ∙ rw ((get_mask-eq-prefix_mask (length e.ip) ml).1 (ground arith))
  | inr fits ↦
      ap
        (λ o. deref o >>= λ l. get_mask l (length e.ip) >>= λ k.
          add_inverse_mask_plus_one (get_ip e) (get_inverse_mask k))
        m
      ∙ rw (
        (get_mask-eq-prefix_mask (length e.ip) ml).0 (ground arith),
        or_mask-longer (get_ip e) (get_inverse_mask (prefix_mask (length e.ip) ml))
            (rw (length-inverse (length e.ip) ml) short),
      )
]
