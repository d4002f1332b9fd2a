-- ===== src/Sets/KeySize.antt =====
-- The keys that `MakeConcatElement` makes have the size that `GenSetKeyType` computes.
use nftableslib.Base.{
  ℕ, suc, ◌+◌, ◌^◌, ◌<◌, ◌≡◌, refl, ap, ◌∙◌, some, List, [], ◌∷◌, ◌++◌, Bytes, ok, length, copy,
  length-append, length-replicate, arith, false,
}
use nftableslib.Nft.{SetElement, SetDatatype}
use nftableslib.Host.{BinaryUtil}
use nftableslib.Rule.{RuleAction}
use nftableslib.Sets.Element.{
  ElementValue, aligned, padded, element_bytes, process_element_value, concat_key,
  make_concat_element,
}
use nftableslib.Sets.KeyType.{
  DatatypeFields, Datatypes, add_types, add_type, add_size, single_size, concat_start,
  gen_set_key_type,
}

length-copy : (d s : Bytes) → length (copy d s) ≡ length d
length-copy [] s = refl
length-copy (x ∷ d) [] = refl
length-copy (x ∷ d) (y ∷ s) = ap suc (length-copy d s)

length-padded : (b : Bytes) → length (padded b) ≡ aligned (length b)
length-padded b = length-copy _ b ∙ length-replicate (aligned (length b)) 0

aligned_sum : (m n : ℕ) → aligned (aligned m + aligned n) ≡ aligned m + aligned n
aligned_sum m n = ground arith

add_size-aligned :
    (b size : ℕ) → 0 < size → b + aligned size < 2 ^ 32 → add_size b size ≡ b + aligned size
add_size-aligned b size h k = ground arith

single_size-aligned :
    (size : ℕ) → 0 < size → aligned size < 2 ^ 32 → single_size size ≡ aligned size
single_size-aligned size h k = ground arith

module _ ⦃types : Datatypes⦄ ⦃bin : BinaryUtil⦄ where
  abbrev pub size_of : SetDatatype → ℕ
  size_of t = (types.fields t).bytes

  -- The sum of the aligned sizes of the types.
  abbrev pub total_size : List SetDatatype → ℕ
  total_size [] = 0
  total_size (t ∷ ts) = aligned (size_of t) + total_size ts

  -- Each key has its value, of the size that the type has.
  abbrev pub HasValues : List SetDatatype → List ElementValue → Type 0
  HasValues [] [] = Unit
  HasValues [] (v ∷ vs) = ⊥
  HasValues (t ∷ ts) [] = ⊥
  HasValues (t ∷ ts) (v ∷ vs) =
      ((b : Bytes) × (element_bytes t v ≡ ok b) × (length b ≡ size_of t) × (0 < size_of t))
      × HasValues ts vs

  add_types-bytes :
      (sum : DatatypeFields) (ts : List SetDatatype) (vs : List ElementValue)
      → HasValues ts vs
      → sum.bytes + total_size ts < 2 ^ 32
      → (add_types sum ts).bytes ≡ sum.bytes + total_size ts
  unfolding add_types
  add_types-bytes sum [] [] h small = omega arith
  add_types-bytes sum [] (v ∷ vs) h small = elim h [ ]
  add_types-bytes sum (t ∷ ts) [] h small = elim h [ ]
  add_types-bytes sum (t ∷ ts) (v ∷ vs) ((b, _, _, positive), h) small =
      let step = add_size-aligned sum.bytes (size_of t) positive (omega arith) in
      add_types-bytes (add_type sum t) ts vs h (omega (arith, step)) ∙ omega (arith, step)

  aligned-total_size : (ts : List SetDatatype) → aligned (total_size ts) ≡ total_size ts
  aligned-total_size [] = refl
  aligned-total_size (t ∷ ts) =
      ground (arith, aligned-total_size ts, aligned_sum (size_of t) (total_size ts))

  concat_key-length :
      (ts : List SetDatatype) (vs : List ElementValue)
      → HasValues ts vs
      → (key : Bytes) × (concat_key ts vs ≡ ok key) × (length key ≡ total_size ts)
  unfolding concat_key process_element_value
  concat_key-length [] [] h = ([], refl, refl)
  concat_key-length [] (v ∷ vs) h = elim h [ ]
  concat_key-length (t ∷ ts) [] h = elim h [ ]
  concat_key-length (t ∷ ts) (v ∷ vs) ((b, made, size, _), h) =
      let (key, e, n) = concat_key-length ts vs h in
      (
        padded b ++ key,
        rw made (rw e refl),
        omega (arith, length-append (padded b) key, length-padded b, n, ap aligned size),
      )

  gen_set_key_type-size :
      (ts : List SetDatatype) (vs : List ElementValue)
      → HasValues ts vs
      → 0 < length ts
      → total_size ts < 2 ^ 32
      → (gen_set_key_type ts).bytes ≡ total_size ts
  unfolding gen_set_key_type
  gen_set_key_type-size [] vs h k small = omega arith
  gen_set_key_type-size (t ∷ []) [] h k small = elim h [ ]
  gen_set_key_type-size (t ∷ []) (v ∷ vs) ((b, _, _, positive), h) k small =
      single_size-aligned (size_of t) positive (omega arith) ∙ omega arith
  gen_set_key_type-size (t ∷ t' ∷ ts) vs h k small =
      add_types-bytes concat_start (t ∷ t' ∷ ts) vs h (omega arith) ∙ omega arith

  HasValues-length :
      (ts : List SetDatatype) (vs : List ElementValue) → HasValues ts vs → length ts ≡ length vs
  HasValues-length [] [] h = refl
  HasValues-length [] (v ∷ vs) h = elim h [ ]
  HasValues-length (t ∷ ts) [] h = elim h [ ]
  HasValues-length (t ∷ ts) (v ∷ vs) (_, h) = ap suc (HasValues-length ts vs h)

  -- Where each of the keys, at least one, has a value of its type's size, which is not 0, and the
  -- aligned sizes have a sum below 2^32, MakeConcatElement returns an element with the action's
  -- verdict, and its key has as many bytes as the type that GenSetKeyType makes of the keys.
  pub make_concat_element-key_type :
      (keys : List SetDatatype) (vals : List ElementValue) (action : RuleAction)
      → HasValues keys vals
      → 0 < length keys
      → total_size keys < 2 ^ 32
      → (e : SetElement) × (make_concat_element keys vals (some action) ≡ ok e)
        × (length e.key ≡ (gen_set_key_type keys).bytes)
        × (e.verdict_data ≡ action.verdict)
  unfolding make_concat_element
  make_concat_element-key_type keys vals action h k small =
      let (key, e, n) = concat_key-length keys vals h in
      let count = HasValues-length keys vals h in
      (
        record {
          key = padded key;
          value = [];
          interval_end = false;
          verdict_data = action.verdict;
        },
        ground (arith, e, count, k),
        omega (
          arith,
          length-padded key,
          n,
          ap aligned n,
          aligned-total_size keys,
          gen_set_key_type-size keys vals h k small,
        ),
        refl,
      )
