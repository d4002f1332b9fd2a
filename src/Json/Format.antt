-- ===== src/Json/Format.antt =====
-- What the package uses of Go's `fmt`: `%d`, `%x`, `%02x`, `%#x` and `%t`, as the bytes written.
use Prim.Native.Char.{code}
use Prim.Native.String.{String}
use nftableslib.Base.{
  ℕ, zero, suc, ◌+◌, ◌/◌, ◌%◌, ◌<◌, ◌≤◌, ◌≡◌, refl, ◌⊎◌, inl, inr, Bool, true, false, [], ◌∷◌, ◌++◌,
  Bytes, arith, ltb, if◌then◌else◌, Bool-cases,
}

-- The bytes of a literal.
abbrev pub codes : String → Bytes
codes (String.◌∷◌ letter letters) = code letter ∷ codes letters
codes String.[] = []

unfoldable pub digit : ℕ → ℕ
digit d = if ltb d 10 then 48 + d else 87 + d

-- On fuel above the number, which each division makes smaller.
unfoldable pub digits : (fuel base n : ℕ) → Bytes
unfolding digit
digits zero base n = []
digits (suc f) base n = elim (ltb n base) [
  | true ↦ digit n ∷ []
  | false ↦ digits f base (n / base) ++ digit (n % base) ∷ []
]

-- The digits of a number: its one digit, or those of the quotient and the last one.
pub digits-cases :
    (f base n : ℕ)
    → ((n < base) × (digits (suc f) base n ≡ digit n ∷ []))
      ⊎ ((base ≤ n) × (digits (suc f) base n ≡ digits f base (n / base) ++ digit (n % base) ∷ []))
unfolding digits
digits-cases f base n = elim (Bool-cases (ltb n base)) [
  | inl small ↦ inl (ground arith, ground (arith, small))
  | inr large ↦ inr (ground arith, ground (arith, large))
]

-- `%d`
unfoldable pub decimal : ℕ → Bytes
unfolding digits
decimal n = digits (suc n) 10 n

-- `%x`
unfoldable pub hex : ℕ → Bytes
unfolding digits
hex n = digits (suc n) 16 n

-- `%02x` of a byte
unfoldable pub hex2 : ℕ → Bytes
unfolding digit
hex2 n = digit (n / 16) ∷ digit (n % 16) ∷ []

-- `%#x`
unfoldable pub sharp_hex : ℕ → Bytes
unfolding hex
sharp_hex n = codes "0x" ++ hex n

-- `%t`
abbrev pub bool_text : Bool → Bytes
bool_text true = codes "true"
bool_text false = codes "false"

-- `\"%s\"`
abbrev pub quote : Bytes → Bytes
quote text = codes "\"" ++ (text ++ codes "\"")

decimal_65535 : decimal 65535 ≡ codes "65535"
unfolding decimal
decimal_65535 = refl

sharp_hex_4000 : sharp_hex 0xfb0 ≡ codes "0xfb0"
unfolding sharp_hex
sharp_hex_4000 = refl
