-- ===== src/Json/RoundTrip/Steps.antt =====
-- The steps of the reader over the pieces of a rendered value.
use mathlib.Core.List.{append_assoc}
use nftableslib.Base.{
  ℕ, suc, ◌+◌, ◌<◌, ◌≤◌, ◌≡◌, refl, Bool, true, false, some, [], ◌∷◌, ◌++◌, Bytes, arith, ltb, ◌==◌,
  length, length-append,
}
use nftableslib.Json.Format.{quote}
use nftableslib.Json.Tree.{
  Json, Items, Fields, null, bool, number, no_items, item, no_fields, field, comma_unless, render,
  render_items, render_fields, is_plain,
}
use nftableslib.Json.Reader.{
  starts, expect_comma, read_text, kind_of, expect_all, read_value, read_items, read_fields,
}
use nftableslib.Json.RoundTrip.Number.{length-decimal_pos, ends_number, starts-decimal}

pub read_text-plain :
    (t rest : Bytes) → is_plain t ≡ true → read_text (t ++ 34 ∷ rest) ≡ some (t, rest)
unfolding read_text is_plain
read_text-plain [] rest h = refl
read_text-plain (c ∷ t) rest h =
    let q : (c == 34) ≡ false = ground arith in
    let b : (c == 92) ≡ false = ground arith in
    let k : ltb c 32 ≡ false = ground arith in
    rw (read_text-plain t rest (ground arith), q, b, k) refl

expect_comma-comma :
    (first : Bool) (s : Bytes) → expect_comma first (comma_unless first ++ s) ≡ some s
expect_comma-comma true s = refl
expect_comma-comma false s = refl

starts-item :
    (first : Bool) (v : Json) (ts : Bytes)
    → starts 93 (comma_unless first ++ (render v ++ ts)) ≡ false
unfolding render
starts-item false v ts = refl
starts-item true (bool true) ts = refl
starts-item true (bool false) ts = refl
starts-item true (number n) ts = starts-decimal 93 n ts refl
starts-item true _ ts = refl

starts-field :
    (first : Bool) (k ts : Bytes) → starts 125 (comma_unless first ++ (quote k ++ ts)) ≡ false
starts-field true k ts = refl
starts-field false k ts = refl

pub ends_number-items :
    (xs : Items) (rest : Bytes) → ends_number (render_items xs false ++ rest) ≡ true
unfolding ends_number render
ends_number-items no_items rest = refl
ends_number-items (item v xs) rest = refl

pub ends_number-fields :
    (fs : Fields) (rest : Bytes) → ends_number (render_fields fs false ++ rest) ≡ true
unfolding ends_number render
ends_number-fields no_fields rest = refl
ends_number-fields (field k v fs) rest = refl

length-render_pos : (v : Json) → 0 < length (render v)
unfolding render
length-render_pos (bool true) = omega arith
length-render_pos (bool false) = omega arith
length-render_pos (number n) = length-decimal_pos n
length-render_pos _ = omega arith

pub read_value-null :
    (f : ℕ) (rest : Bytes) → read_value (suc f) (render null ++ rest) ≡ some (null, rest)
unfolding read_value render kind_of expect_all
read_value-null f rest = refl

pub read_value-bool :
    (b : Bool) (f : ℕ) (rest : Bytes)
    → read_value (suc f) (render (bool b) ++ rest) ≡ some (bool b, rest)
unfolding read_value render kind_of expect_all
read_value-bool true f rest = refl
read_value-bool false f rest = refl

-- What is left to read of a list with an item, and of a list with a field.
pub render_items-item :
    (first : Bool) (v : Json) (xs : Items) (rest : Bytes)
    → render_items (item v xs) first ++ rest
      ≡ comma_unless first ++ (render v ++ (render_items xs false ++ rest))
unfolding render
render_items-item first v xs rest = rw (append_assoc, append_assoc) refl

pub render_fields-field :
    (first : Bool) (k : Bytes) (v : Json) (fs : Fields) (rest : Bytes)
    → render_fields (field k v fs) first ++ rest
      ≡ comma_unless first ++ (quote k ++ (58 ∷ (render v ++ (render_fields fs false ++ rest))))
unfolding render
render_fields-field first k v fs rest = simp append_assoc

pub length-item :
    (first : Bool) (v : Json) (xs : Items)
    → (length (render v) + length (render_items xs false) ≤ length (render_items (item v xs) first))
      × (0 < length (render v))
unfolding render
length-item first v xs =
    let e1 = length-append (comma_unless first) (render v ++ render_items xs false) in
    let e2 = length-append (render v) (render_items xs false) in
    (omega (arith, e1, e2), length-render_pos v)

pub length-field :
    (first : Bool) (k : Bytes) (v : Json) (fs : Fields)
    → length (render v) + length (render_fields fs false) + 1
      < length (render_fields (field k v fs) first)
unfolding render
length-field first k v fs =
    let colon = 58 ∷ (render v ++ render_fields fs false) in
    let e1 = length-append (comma_unless first) (quote k ++ colon) in
    let e2 = length-append (quote k) colon in
    let e3 = length-append (render v) (render_fields fs false) in omega (arith, e1, e2, e3)

pub read_items-item :
    (first : Bool) (v : Json) (xs : Items) (after rest : Bytes) (f : ℕ)
    → read_value f (render v ++ after) ≡ some (v, after)
    → read_items f false after ≡ some (xs, rest)
    → read_items (suc f) first (comma_unless first ++ (render v ++ after)) ≡ some (item v xs, rest)
unfolding read_value
read_items-item first v xs after rest f read reads =
    rw (read_items, starts-item first v after, expect_comma-comma, read, reads) refl

pub read_fields-field :
    (first : Bool) (k : Bytes) (v : Json) (fs : Fields) (after rest : Bytes) (f : ℕ)
    → is_plain k ≡ true
    → read_value f (render v ++ after) ≡ some (v, after)
    → read_fields f false after ≡ some (fs, rest)
    → read_fields (suc f) first (comma_unless first ++ (quote k ++ (58 ∷ (render v ++ after))))
      ≡ some (field k v fs, rest)
unfolding read_value
read_fields-field first k v fs after rest f plain read reads =
    let colon = 58 ∷ (render v ++ after) in
    rw
      (
        read_fields,
        starts-field first k colon,
        expect_comma-comma first (quote k ++ colon),
        append_assoc,
        read_text-plain k colon plain,
        read,
        reads,
      )
      refl
