-- ===== src/Json/RoundTrip.antt =====
-- The reader takes a rendered value back.
mod Number
mod Steps
use mathlib.Core.List.{append_assoc, append-nil}
use nftableslib.Base.{
  ℕ, zero, suc, ◌+◌, ◌*◌, ◌<◌, ◌≤◌, ◌≡◌, refl, Bool, true, false, Option, some, List, [], ◌∷◌, ◌++◌,
  ◌&&◌, Bytes, arith, ltb, ◌==◌, length, length-append, both, if◌then◌else◌,
}
use nftableslib.Json.Format.{quote, decimal}
use nftableslib.Json.Tree.{
  Json, Items, Fields, null, bool, number, text, array, object, no_items, item, no_fields, field,
  comma_unless, render, render_items, render_fields, is_plain, is_clean, are_clean_items,
  are_clean_fields,
}
use nftableslib.Json.Reader.{
  starts, expect_comma, read_text, read_number, Kind, kind_of, expect_all, read_value, read_items,
  read_fields, read_json,
}
use nftableslib.Json.RoundTrip.Number.{
  length-decimal_pos, ends_number, starts-decimal, kind_of-decimal, read_number-decimal,
}
use nftableslib.Json.RoundTrip.Steps.{
  read_text-plain, ends_number-items, ends_number-fields, length-item, render_items-item,
  render_fields-field, read_value-null, read_value-bool, length-field, read_items-item,
  read_fields-field,
}

abbrev Ends : Bytes → Type 0
Ends rest = ends_number rest ≡ true

-- A value, the items of an array and the fields of an object are read off the front of a text that
-- does not go on with a digit, with twice as much fuel as they have bytes.
mutual
  unfolding read_value render is_clean kind_of expect_all

  value-read :
      (v : Json) (f : ℕ) (rest : Bytes)
      → is_clean v ≡ true
      → Ends rest
      → 2 * length (render v) < f
      → read_value f (render v ++ rest) ≡ some (v, rest)
  value-read v zero rest clean ends fuel = absurd (omega arith)
  value-read null (suc f) rest clean ends fuel = read_value-null f rest
  value-read (bool b) (suc f) rest clean ends fuel = read_value-bool b f rest
  value-read (number n) (suc f) rest clean ends fuel =
      rw (read_value, kind_of-decimal n rest) (read_number-decimal n rest ends)
  value-read (text s) (suc f) rest clean ends fuel =
      rw (append_assoc, read_text-plain s rest clean) refl
  value-read (array xs) (suc f) rest clean ends fuel =
      rw (items-read xs f true rest clean ends (omega arith)) refl
  value-read (object fs) (suc f) rest clean ends fuel =
      rw (fields-read fs f true rest clean ends (omega arith)) refl

  items-read :
      (xs : Items) (f : ℕ) (first : Bool) (rest : Bytes)
      → are_clean_items xs ≡ true
      → Ends rest
      → suc (2 * length (render_items xs first)) < f
      → read_items f first (render_items xs first ++ rest) ≡ some (xs, rest)
  items-read xs zero first rest clean ends fuel = absurd (omega arith)
  items-read no_items (suc f) first rest clean ends fuel = refl
  items-read (item v xs) (suc f) first rest clean ends fuel =
      let (head, tail) = both (is_clean v) (are_clean_items xs) clean in
      let after = render_items xs false ++ rest in
      let longer = length-item first v xs in
      let reads = value-read v f after head (ends_number-items xs rest) (omega (arith, longer)) in
      let more = items-read xs f false rest tail ends (omega (arith, longer)) in
      rw (render_items-item first v xs rest) (read_items-item first v xs after rest f reads more)

  fields-read :
      (fs : Fields) (f : ℕ) (first : Bool) (rest : Bytes)
      → are_clean_fields fs ≡ true
      → Ends rest
      → suc (2 * length (render_fields fs first)) < f
      → read_fields f first (render_fields fs first ++ rest) ≡ some (fs, rest)
  fields-read fs zero first rest clean ends fuel = absurd (omega arith)
  fields-read no_fields (suc f) first rest clean ends fuel = refl
  fields-read (field k v fs) (suc f) first rest clean ends fuel =
      let (plain, others) = both (is_plain k) (is_clean v && are_clean_fields fs) clean in
      let (head, tail) = both (is_clean v) (are_clean_fields fs) others in
      let after = render_fields fs false ++ rest in
      let longer = length-field first k v fs in
      let reads = value-read v f after head (ends_number-fields fs rest) (omega (arith, longer)) in
      let more = fields-read fs f false rest tail ends (omega (arith, longer)) in
      rw (render_fields-field first k v fs rest)
        (read_fields-field first k v fs after rest f plain reads more)

-- Reading the text of a clean value gives that value.
pub read_json-render : (v : Json) → is_clean v ≡ true → read_json (render v) ≡ some v
unfolding read_json ends_number
read_json-render v clean =
    let read = value-read v (2 * length (render v) + 1) [] clean refl (omega arith) in
    let whole : read_value (2 * length (render v) + 1) (render v) ≡ some (v, []) =
      rw append-nil at read in
    rw whole refl
