-- ===== src/Json/Tree.antt =====
-- JSON values, and the text without spaces that stands for one (RFC 8259, without escapes).
use nftableslib.Base.{
  ℕ, Bool, true, false, not, ◌&&◌, ◌||◌, [], ◌∷◌, ◌++◌, Bytes, ltb, ◌==◌, if◌then◌else◌,
}
use nftableslib.Json.Format.{codes, quote, decimal}

mutual
  pub data Json : Type 0 where
    null : Json
    bool : Bool → Json
    number : ℕ → Json
    text : Bytes → Json
    array : Items → Json
    object : Fields → Json

  pub data Items : Type 0 where
    no_items : Items
    item : Json → Items → Items

  pub data Fields : Type 0 where
    no_fields : Fields
    field : (key : Bytes) → Json → Fields → Fields

abbrev pub comma_unless : Bool → Bytes
comma_unless first = if first then [] else 44 ∷ []

unfoldable mutual
  pub render : Json → Bytes
  render null = codes "null"
  render (bool b) = if b then codes "true" else codes "false"
  render (number n) = decimal n
  render (text s) = quote s
  render (array xs) = 91 ∷ render_items xs true
  render (object fs) = 123 ∷ render_fields fs true

  pub render_items : Items → (first : Bool) → Bytes
  render_items no_items first = 93 ∷ []
  render_items (item v xs) first = comma_unless first ++ (render v ++ render_items xs false)

  pub render_fields : Fields → (first : Bool) → Bytes
  render_fields no_fields first = 125 ∷ []
  render_fields (field k v fs) first =
      comma_unless first ++ (quote k ++ (58 ∷ (render v ++ render_fields fs false)))

-- A text that stands for itself between quotes: no quote, no backslash, no control character.
unfoldable pub is_plain : Bytes → Bool
is_plain [] = true
is_plain (c ∷ s) = not (c == 34 || (c == 92 || ltb c 32)) && is_plain s

unfoldable mutual
  pub is_clean : Json → Bool
  is_clean null = true
  is_clean (bool b) = true
  is_clean (number n) = true
  is_clean (text s) = is_plain s
  is_clean (array xs) = are_clean_items xs
  is_clean (object fs) = are_clean_fields fs

  pub are_clean_items : Items → Bool
  are_clean_items no_items = true
  are_clean_items (item v xs) = is_clean v && are_clean_items xs

  pub are_clean_fields : Fields → Bool
  are_clean_fields no_fields = true
  are_clean_fields (field k v fs) = is_plain k && (is_clean v && are_clean_fields fs)
