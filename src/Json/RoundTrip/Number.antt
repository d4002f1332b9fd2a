-- ===== src/Json/RoundTrip/Number.antt =====
-- The reader takes a printed number back.
use mathlib.Core.List.{append_assoc}
use nftableslib.Base.{
  ℕ, zero, suc, ◌+◌, ◌-◌, ◌*◌, ◌/◌, ◌%◌, ◌<◌, ◌≡◌, refl, ap, ◌∙◌, ◌⊎◌, inl, inr, Bool, true, false,
  not, some, [], ◌∷◌, ◌++◌, Bytes, arith, ◌==◌, length,
}
use nftableslib.Json.Format.{digit, digits, digits-cases, decimal}
use nftableslib.Json.Tree.{number}
use nftableslib.Json.Reader.{is_digit, starts, read_digits, read_number, Kind, kind_of}

-- A text that does not go on with a digit.
unfoldable pub ends_number : Bytes → Bool
ends_number [] = true
ends_number (c ∷ s) = not (is_digit c)

digit-IsDigit : (d : ℕ) → d < 10 → is_digit (digit d) ≡ true
unfolding digit
digit-IsDigit d h = ground arith

digit-value : (d : ℕ) → d < 10 → digit d - 48 ≡ d
unfolding digit
digit-value d h = ground arith

read_digits-end : (n : ℕ) (rest : Bytes) → ends_number rest ≡ true → read_digits n rest ≡ (n, rest)
unfolding read_digits ends_number
read_digits-end n [] h = refl
read_digits-end n (c ∷ s) h = ground arith

read_digits-digit :
    (sum d : ℕ) (rest : Bytes)
    → d < 10
    → read_digits sum (digit d ∷ rest) ≡ read_digits (sum * 10 + d) rest
unfolding read_digits
read_digits-digit sum d rest h = rw (digit-IsDigit d h, digit-value d h) refl

read_digits-digits :
    (f n : ℕ) (rest : Bytes) → n < f → read_digits 0 (digits f 10 n ++ rest) ≡ read_digits n rest
read_digits-digits zero n rest h = absurd (omega arith)
read_digits-digits (suc f) n rest h = elim (digits-cases f 10 n) [
  | inl (small, e) ↦
      let whole : 0 * 10 + n ≡ n = omega arith in
      rw (e, read_digits-digit 0 n rest small, whole) refl
  | inr (large, e) ↦
      let whole : n / 10 * 10 + n % 10 ≡ n = omega arith in
      rw
        (
          e,
          append_assoc,
          read_digits-digits f (n / 10) (digit (n % 10) ∷ rest) (omega arith),
          read_digits-digit (n / 10) (n % 10) rest (omega arith),
          whole,
        )
        refl
]

first_digit : (n : ℕ) → n < 10 → ((n ≡ 0) × (◌≡◌ {A = Bytes} [] [])) ⊎ ((digit n == 48) ≡ false)
unfolding digit
first_digit zero h = inl (refl, refl)
first_digit (suc n) h = inr (ground arith)

-- The first digit, which is 0 in the text of 0 only.
digits-head :
    (f n : ℕ)
    → n < f
    → (c : ℕ) × (s : Bytes) × (digits f 10 n ≡ c ∷ s)
      × (is_digit c ≡ true)
      × (((n ≡ 0) × (s ≡ [])) ⊎ ((c == 48) ≡ false))
digits-head zero n h = absurd (omega arith)
digits-head (suc f) n h = elim (digits-cases f 10 n) [
  | inl (small, e) ↦ (digit n, [], e, digit-IsDigit n small, first_digit n small)
  | inr (large, e) ↦
      let (c, s, e', d, z) = digits-head f (n / 10) (omega arith) in
      (
        c,
        s ++ digit (n % 10) ∷ [],
        e ∙ ap (λ t. t ++ digit (n % 10) ∷ []) e',
        d,
        elim z [ inl (none, short) ↦ absurd (omega arith) | inr nonzero ↦ inr nonzero ],
      )
]

pub kind_of-decimal : (n : ℕ) (rest : Bytes) → kind_of (decimal n ++ rest) ≡ Kind.digit_kind
unfolding kind_of decimal
kind_of-decimal n rest =
    let (c, s, e, d, z) = digits-head (suc n) n (omega arith) in rw e (ground arith)

read_number-digits :
    (n : ℕ) (rest : Bytes) (c : ℕ) (s : Bytes)
    → digits (suc n) 10 n ≡ c ∷ s
    → ((n ≡ 0) × (s ≡ [])) ⊎ ((c == 48) ≡ false)
    → ends_number rest ≡ true
    → read_number (digits (suc n) 10 n ++ rest) ≡ some (number n, rest)
unfolding read_number digits digit
read_number-digits n rest c s e (inl (none, short)) h = rw none refl
read_number-digits n rest c s e (inr nonzero) h =
    let read : read_digits 0 (c ∷ (s ++ rest)) ≡ (n, rest) =
      rw e at (read_digits-digits (suc n) n rest (omega arith) ∙ read_digits-end n rest h) in
    rw (e, nonzero, read) refl

-- A printed number does not look like a closing bracket.
pub starts-decimal :
    (c n : ℕ) (rest : Bytes) → is_digit c ≡ false → starts c (decimal n ++ rest) ≡ false
unfolding decimal
starts-decimal c n rest h =
    let (d, s, e, digit, z) = digits-head (suc n) n (omega arith) in rw e (ground arith)

pub length-decimal_pos : (n : ℕ) → 0 < length (decimal n)
unfolding decimal
length-decimal_pos n =
    let (c, s, e, d, z) = digits-head (suc n) n (omega arith) in rw e (omega arith)

pub read_number-decimal :
    (n : ℕ) (rest : Bytes)
    → ends_number rest ≡ true
    → read_number (decimal n ++ rest) ≡ some (number n, rest)
unfolding decimal
read_number-decimal n rest h =
    let (c, s, e, d, z) = digits-head (suc n) n (omega arith) in read_number-digits n rest c s e z h
