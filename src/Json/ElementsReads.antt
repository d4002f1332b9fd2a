-- ===== src/Json/ElementsReads.antt =====
-- The elements of a set have a text, which is that of a JSON array.
use nftableslib.Base.{
  ℕ, ◌≡◌, refl, inl, inr, Bool, true, false, List, [], ◌∷◌, ◌++◌, Bytes, ok, arith, length, ◌==◌,
  if◌then◌else◌, Bool-cases,
}
use nftableslib.Nft.{SetElement}
use nftableslib.Host.{BinaryUtil}
use nftableslib.Json.Format.{codes, decimal, bool_text}
use nftableslib.Json.Names.{append_all}
use nftableslib.Json.Tree.{
  Json, Items, bool, text, array, object, no_items, item, no_fields, field, render, is_plain,
  is_clean, are_clean_items,
}
use nftableslib.Json.ExpressionTree.{bytes_json}
use nftableslib.Json.Plain.{is_plain-append, decimal-IsPlain, byte_texts-IsClean}
use nftableslib.Json.AddressPlain.{build_ipv6_string-ok}
use nftableslib.Json.Address.{build_ipv6_string}
use nftableslib.Json.Elements.{spaced, key_text, marshal_element, marshal_set_elements}
use nftableslib.Json.Marshals.{byte_items-render}
use nftableslib.Json.Joined.{AreWritten, join_commas-render}

spaced-IsPlain : (bs : Bytes) → is_plain (spaced bs) ≡ true
unfolding spaced is_plain
spaced-IsPlain [] = refl
spaced-IsPlain (b ∷ []) = decimal-IsPlain b
spaced-IsPlain (b ∷ c ∷ bs) =
    is_plain-append (decimal b) (32 ∷ spaced (c ∷ bs)) (decimal-IsPlain b) (spaced-IsPlain (c ∷ bs))

dotted-IsPlain : (n : ℕ) (t : Bytes) → is_plain t ≡ true → is_plain (decimal n ++ (46 ∷ t)) ≡ true
unfolding is_plain
dotted-IsPlain n t h = is_plain-append (decimal n) (46 ∷ t) (decimal-IsPlain n) h

abbrev element_json : SetElement → Bytes → Json
element_json e key = object (
    field (codes "Key") (text key) (
      field (codes "IntervalEnd") (bool e.interval_end)
        (field (codes "Val") (bytes_json e.value) no_fields)))

unfoldable pub elements_json : List (SetElement × Bytes) → Items
elements_json [] = no_items
elements_json ((e, key) ∷ es) = item (element_json e key) (elements_json es)

bool_text-render : (b : Bool) → bool_text b ≡ render (bool b)
unfolding render
bool_text-render true = refl
bool_text-render false = refl

module _ ⦃bin : BinaryUtil⦄ where
  other_key-ok :
      (key : Bytes)
      → (t : Bytes) × ((if length key == 16
            then build_ipv6_string key
            else ok (append_all (codes "[" ∷ spaced key ∷ codes "]" ∷ [])))
          ≡ ok t)
        × (is_plain t ≡ true)
  unfolding is_plain
  other_key-ok key = elim (Bool-cases (length key == 16)) [
    | inl long ↦
        let (t, e, plain) = build_ipv6_string-ok key (ground arith) in (t, rw long e, plain)
    | inr other ↦ (
      91 ∷ (spaced key ++ 93 ∷ []),
      rw other refl,
      is_plain-append (spaced key) (93 ∷ []) (spaced-IsPlain key) refl,
    )
  ]

  -- Every key has a text, which stands for itself between quotes.
  pub key_text-ok : (key : Bytes) → (t : Bytes) × (key_text key ≡ ok t) × (is_plain t ≡ true)
  unfolding key_text is_plain
  key_text-ok [] = other_key-ok []
  key_text-ok (a ∷ []) = other_key-ok (a ∷ [])
  key_text-ok (a ∷ b ∷ []) = (_, refl, decimal-IsPlain (bin.be_uint32 (0 ∷ 0 ∷ a ∷ b ∷ [])))
  key_text-ok (a ∷ b ∷ c ∷ []) = other_key-ok (a ∷ b ∷ c ∷ [])
  key_text-ok (a ∷ b ∷ c ∷ d ∷ []) = (
    _,
    refl,
    dotted-IsPlain a _ (
        dotted-IsPlain b _
          (dotted-IsPlain c _ (is_plain-append (decimal d) [] (decimal-IsPlain d) refl))),
  )
  key_text-ok (a ∷ b ∷ c ∷ d ∷ e ∷ key) = other_key-ok (a ∷ b ∷ c ∷ d ∷ e ∷ key)

  -- The keys with their texts.
  abbrev pub AreKeyed : List SetElement → List (SetElement × Bytes) → Type 0
  AreKeyed [] [] = Unit {0}
  AreKeyed (e ∷ es) ((e', key) ∷ ks) = (e ≡ e') × (key_text e.key ≡ ok key) × AreKeyed es ks
  AreKeyed _ _ = true ≡ false

  marshal_element-render :
      (e : SetElement) (key : Bytes)
      → key_text e.key ≡ ok key
      → marshal_element e ≡ ok (render (element_json e key))
  unfolding marshal_element render
  marshal_element-render e key read =
      rw (read, bool_text-render e.interval_end, byte_items-render e.value) refl

  element_json-IsClean :
      (e : SetElement) (key : Bytes) → is_plain key ≡ true → is_clean (element_json e key) ≡ true
  unfolding is_clean is_plain
  element_json-IsClean e key plain = rw (plain, byte_texts-IsClean e.value) refl

  elements-AreWritten :
      (es : List SetElement)
      → (ks : List (SetElement × Bytes)) × AreKeyed es ks
        × AreWritten marshal_element es (elements_json ks)
        × (are_clean_items (elements_json ks) ≡ true)
  unfolding elements_json is_clean
  elements-AreWritten [] = ([], tt, tt, refl)
  elements-AreWritten (e ∷ es) =
      let (key, read, plain) = key_text-ok e.key in
      let (ks, keyed, written, clean) = elements-AreWritten es in
      (
        (e, key) ∷ ks,
        (refl, read, keyed),
        (marshal_element-render e key read, written),
        rw (element_json-IsClean e key plain) clean,
      )

  -- The text of the elements is that of an array with the text of each key.
  pub marshal_set_elements-render :
      (es : List SetElement)
      → (ks : List (SetElement × Bytes)) × AreKeyed es ks
        × (marshal_set_elements es ≡ ok (render (array (elements_json ks))))
        × (are_clean_items (elements_json ks) ≡ true)
  unfolding marshal_set_elements
  marshal_set_elements-render es =
      let (ks, keyed, written, clean) = elements-AreWritten es in
      let (t, e, whole) = join_commas-render marshal_element es (elements_json ks) written in
      (ks, keyed, rw (e, whole) refl, clean)
