-- ===== src/Json/Reader.antt =====
-- A reader of JSON text (RFC 8259, without escapes, fractions and spaces). It says independently of
-- the code that prints what a text stands for.
use nftableslib.Base.{
  ℕ, zero, suc, ◌+◌, ◌-◌, ◌*◌, Bool, true, false, ◌&&◌, ◌||◌, Option, none, some, [], ◌∷◌, Bytes,
  ltb, leb, length, ◌==◌, if◌then◌else◌,
}
use nftableslib.Json.Tree.{
  Json, Items, Fields, null, bool, number, text, array, object, no_items, item, no_fields, field,
}

infixl 5 ◌>>=◌
abbrev pub ◌>>=◌ : {A B : Type 0} → Option A → (A → Option B) → Option B
(some read) >>= next = next read
none >>= next = none

abbrev pub is_digit : ℕ → Bool
is_digit c = leb 48 c && leb c 57

abbrev pub starts : ℕ → Bytes → Bool
starts c [] = false
starts c (d ∷ s) = d == c

abbrev pub tail : Bytes → Bytes
tail [] = []
tail (c ∷ s) = s

abbrev pub expect : ℕ → Bytes → Option Bytes
expect c [] = none
expect c (d ∷ s) = if d == c then some s else none

-- The comma before every item but the first.
abbrev pub expect_comma : (first : Bool) → Bytes → Option Bytes
expect_comma first s = if first then some s else expect 44 s

-- What is left of a text, up to the quote that closes it.
unfoldable pub read_text : Bytes → Option (Bytes × Bytes)
read_text [] = none
read_text (c ∷ s) =
    let more = (read_text s >>= λ (t, rest). some (c ∷ t, rest)) in
    if c == 34 then some ([], s) else if c == 92 || ltb c 32 then none else more

unfoldable pub read_digits : (sum : ℕ) → Bytes → ℕ × Bytes
read_digits sum [] = (sum, [])
read_digits sum (c ∷ s) =
    let more = read_digits (sum * 10 + (c - 48)) s in if is_digit c then more else (sum, c ∷ s)

-- No number but 0 starts with the digit 0.
unfoldable pub read_number : Bytes → Option (Json × Bytes)
unfolding read_digits
read_number [] = none
read_number (c ∷ s) =
    if c == 48
    then some (number 0, s)
    else (let (n, rest) = read_digits 0 (c ∷ s) in some (number n, rest))

-- What the first byte says of the value.
pub data Kind : Type 0 where
  quote_kind array_kind object_kind null_kind true_kind false_kind digit_kind no_kind : Kind

unfoldable pub kind_of : Bytes → Kind
kind_of [] = Kind.no_kind
kind_of (c ∷ s) =
    if c == 34
    then Kind.quote_kind
    else if c == 91
    then Kind.array_kind
    else if c == 123
    then Kind.object_kind
    else if c == 110
    then Kind.null_kind
    else if c == 116
    then Kind.true_kind
    else if c == 102
    then Kind.false_kind
    else if is_digit c
    then Kind.digit_kind
    else Kind.no_kind

-- The literals `null`, `true` and `false`, letter by letter.
unfoldable pub expect_all : Bytes → Bytes → Option Bytes
expect_all [] s = some s
expect_all (c ∷ cs) s = expect c s >>= expect_all cs

unfoldable mutual
  pub read_value : (fuel : ℕ) → Bytes → Option (Json × Bytes)
  read_value zero s = none
  read_value (suc f) s = elim (kind_of s) [
    | quote_kind ↦ read_text (tail s) >>= λ (t, rest). some (text t, rest)
    | array_kind ↦ read_items f true (tail s) >>= λ (xs, rest). some (array xs, rest)
    | object_kind ↦ read_fields f true (tail s) >>= λ (fs, rest). some (object fs, rest)
    | null_kind ↦ expect_all (110 ∷ 117 ∷ 108 ∷ 108 ∷ []) s >>= λ rest. some (null, rest)
    | true_kind ↦ expect_all (116 ∷ 114 ∷ 117 ∷ 101 ∷ []) s >>= λ rest. some (bool true, rest)
    | false_kind ↦
        expect_all (102 ∷ 97 ∷ 108 ∷ 115 ∷ 101 ∷ []) s >>= λ rest. some (bool false, rest)
    | digit_kind ↦ read_number s
    | no_kind ↦ none
  ]

  pub read_items : (fuel : ℕ) (first : Bool) → Bytes → Option (Items × Bytes)
  read_items zero first s = none
  read_items (suc f) first s = elim (starts 93 s) [
    | true ↦ some (no_items, tail s)
    | false ↦ expect_comma first s >>= λ s₁. read_value f s₁ >>= λ (v, s₂).
        read_items f false s₂ >>= λ (xs, rest). some (item v xs, rest)
  ]

  pub read_fields : (fuel : ℕ) (first : Bool) → Bytes → Option (Fields × Bytes)
  read_fields zero first s = none
  read_fields (suc f) first s = elim (starts 125 s) [
    | true ↦ some (no_fields, tail s)
    | false ↦ expect_comma first s >>= λ s₁. expect 34 s₁ >>= λ s₂. read_text s₂ >>= λ (k, s₃).
        expect 58 s₃ >>= λ s₄. read_value f s₄ >>= λ (v, s₅).
        read_fields f false s₅ >>= λ (fs, rest). some (field k v fs, rest)
  ]

-- The value that a whole text stands for.
unfoldable pub read_json : Bytes → Option Json
unfolding read_value
read_json s =
    read_value (2 * length s + 1) s >>= λ (v, rest). elim rest [ [] ↦ some v | c ∷ s' ↦ none ]
