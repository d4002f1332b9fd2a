-- ===== src/Json/Plain.antt =====
-- The names, numbers and bytes that are written between quotes stand for themselves.
use nftableslib.Base.{
  ℕ, zero, suc, ◌/◌, ◌%◌, ◌≡◌, refl, inl, inr, Bool, true, false, ◌&&◌, List, [], ◌∷◌, ◌++◌, Bytes,
  arith,
}
use nftableslib.Nft.{CmpOp, PayloadBase}
use nftableslib.Json.Format.{digit, digits, digits-cases, decimal, hex, hex2, sharp_hex, bool_text}
use nftableslib.Json.Tree.{is_plain, are_clean_items, is_clean}
use nftableslib.Json.Names.{name_at, meta_key_names, meta_key_name, cmp_op_name, base_name}
use nftableslib.Json.ExpressionTree.{byte_texts}

pub is_plain-append :
    (s t : Bytes) → is_plain s ≡ true → is_plain t ≡ true → is_plain (s ++ t) ≡ true
unfolding is_plain
is_plain-append [] t hs ht = ht
is_plain-append (c ∷ s) t hs ht = ground (arith, is_plain-append s t)

digit-IsPlain : (d : ℕ) → is_plain (digit d ∷ []) ≡ true
unfolding is_plain digit
digit-IsPlain d = ground arith

digits-IsPlain : (f base n : ℕ) → is_plain (digits f base n) ≡ true
unfolding digits is_plain
digits-IsPlain zero base n = refl
digits-IsPlain (suc f) base n = elim (digits-cases f base n) [
  | inl (small, e) ↦ rw e (digit-IsPlain n)
  | inr (large, e) ↦ rw e (
      is_plain-append (digits f base (n / base)) (digit (n % base) ∷ [])
        (digits-IsPlain f base (n / base)) (digit-IsPlain (n % base)))
]

pub decimal-IsPlain : (n : ℕ) → is_plain (decimal n) ≡ true
unfolding decimal
decimal-IsPlain n = digits-IsPlain (suc n) 10 n

pub hex-IsPlain : (n : ℕ) → is_plain (hex n) ≡ true
unfolding hex
hex-IsPlain n = digits-IsPlain (suc n) 16 n

pub hex2-IsPlain : (n : ℕ) → is_plain (hex2 n) ≡ true
unfolding hex2
hex2-IsPlain n =
    is_plain-append (digit (n / 16) ∷ []) (digit (n % 16) ∷ []) (digit-IsPlain (n / 16))
      (digit-IsPlain (n % 16))

pub sharp_hex-IsPlain : (n : ℕ) → is_plain (sharp_hex n) ≡ true
unfolding sharp_hex is_plain
sharp_hex-IsPlain n = hex-IsPlain n

pub byte_texts-IsClean : (bs : Bytes) → are_clean_items (byte_texts bs) ≡ true
unfolding byte_texts is_clean
byte_texts-IsClean [] = refl
byte_texts-IsClean (b ∷ bs) = rw (sharp_hex-IsPlain b) (byte_texts-IsClean bs)

unfoldable pub are_plain : List Bytes → Bool
are_plain [] = true
are_plain (s ∷ ss) = is_plain s && are_plain ss

name_at-IsPlain :
    (names : List Bytes) (key : ℕ) → are_plain names ≡ true → is_plain (name_at names key) ≡ true
unfolding name_at are_plain is_plain
name_at-IsPlain [] key h = refl
name_at-IsPlain (name ∷ names) zero h = ground arith
name_at-IsPlain (name ∷ names) (suc key) h = name_at-IsPlain names key (ground arith)

pub meta_key_name-IsPlain : (key : ℕ) → is_plain (meta_key_name key) ≡ true
unfolding meta_key_name are_plain is_plain
meta_key_name-IsPlain key = name_at-IsPlain meta_key_names key refl

pub cmp_op_name-IsPlain : (op : CmpOp) → is_plain (cmp_op_name op) ≡ true
unfolding cmp_op_name is_plain
cmp_op_name-IsPlain CmpOp.eq = refl
cmp_op_name-IsPlain _ = refl

pub base_name-IsPlain : (base : PayloadBase) → is_plain (base_name base) ≡ true
unfolding base_name is_plain
base_name-IsPlain PayloadBase.link_layer = refl
base_name-IsPlain _ = refl

pub bool_text-IsPlain : (b : Bool) → is_plain (bool_text b) ≡ true
unfolding is_plain
bool_text-IsPlain true = refl
bool_text-IsPlain false = refl
