-- ===== src/Ranges/Value.antt =====
-- Byte slices as big-endian numbers.
use native.Mathlib.Nat.{pow-suc}
use nftableslib.Base.{ℕ, zero, suc, ◌+◌, ◌*◌, ◌^◌, ◌<◌, ◌≡◌, ap, [], ◌∷◌, Bytes, length, arith}

abbrev pub IsBytes : Bytes → Type 0
IsBytes [] = Unit
IsBytes (b ∷ bs) = (b < 256) × IsBytes bs

-- The number of values of n bytes.
abbrev pub span : ℕ → ℕ
span n = 2 ^ (8 * n)

abbrev pub value : Bytes → ℕ
value [] = 0
value (b ∷ bs) = b * span (length bs) + value bs

pub pow-add : (a b : ℕ) → 2 ^ (a + b) ≡ 2 ^ a * 2 ^ b
pow-add a zero = let e : a + 0 ≡ a = omega arith in rw e (omega arith)
pow-add a (suc b) =
    let e : a + suc b ≡ suc (a + b) = omega arith in
    rw (e, pow-suc 2 (a + b), pow-suc 2 b) (omega (arith, ap (λ (t : ℕ). t * 2) (pow-add a b)))

pub span-suc : (n : ℕ) → span (suc n) ≡ 256 * span n
span-suc n = let e : 8 * suc n ≡ 8 + 8 * n = omega arith in rw e (pow-add 8 (8 * n))

pub value-lt : (bs : Bytes) → IsBytes bs → value bs < span (length bs)
value-lt [] h = omega arith
value-lt (b ∷ bs) h = grind (arith, span-suc (length bs), value-lt bs h.1)
