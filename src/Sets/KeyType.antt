-- ===== src/Sets/KeyType.antt =====
-- `GenSetKeyType`: the type of a key that is a concatenation.
use Prim.Native.Nat.{bit_or}
use nftableslib.Base.{
  ℕ, ◌+◌, ◌-◌, ◌*◌, ◌%◌, ◌^◌, List, [], ◌∷◌, ◌++◌, Bytes, leb, ◌==◌, if◌then◌else◌,
}
use nftableslib.Nft.{SetDatatype}

-- The fields of `nftables.SetDatatype`; the numbers have 32 bits.
pub record DatatypeFields : Type 0 where
  pub name : Bytes
  pub bytes : ℕ
  pub magic : ℕ

-- That library's table of the fields of its types, and `SetConcatTypeBits`.
pub record Datatypes : Type 0 where
  pub fields : SetDatatype → DatatypeFields
  pub concat_type_bits : ℕ

-- What a type adds to the sum of the bytes: at least 4, and a multiple of 4.
abbrev pub add_size : ℕ → ℕ → ℕ
add_size b size =
    if leb size 4
    then (b + 4) % 2 ^ 32
    else if size % 4 == 0
    then (b + size) % 2 ^ 32
    else ((b + size) % 2 ^ 32 + (4 - size % 4)) % 2 ^ 32

-- The size of a single type.
abbrev pub single_size : ℕ → ℕ
single_size size =
    if leb size 4 then 4 else if size % 4 == 0 then size else (size + (4 - size % 4)) % 2 ^ 32

-- `name += "_" + types[i].Name`, and then the name and "_" again: `i < len(types)` always holds.
abbrev pub add_name : Bytes → Bytes → Bytes
add_name name part = (name ++ (b'_' ∷ part)) ++ part ++ b'_' ∷ []

module _ ⦃types : Datatypes⦄ where
  -- `c<<SetConcatTypeBits | types[i].GetNFTMagic()`
  abbrev pub add_magic : ℕ → ℕ → ℕ
  add_magic c magic = bit_or ((c * 2 ^ types.concat_type_bits) % 2 ^ 32) magic

  -- One round of the loop, for name, b and c.
  abbrev pub add_type : DatatypeFields → SetDatatype → DatatypeFields
  add_type sum t = record {
    name = add_name sum.name (types.fields t).name;
    bytes = add_size sum.bytes (types.fields t).bytes;
    magic = add_magic sum.magic (types.fields t).magic;
  }

  unfoldable pub add_types : DatatypeFields → List SetDatatype → DatatypeFields
  add_types sum [] = sum
  add_types sum (t ∷ ts) = add_types (add_type sum t) ts

  abbrev pub concat_start : DatatypeFields
  concat_start = record {
    name = b'c' ∷ b'o' ∷ b'n' ∷ b'c' ∷ b'a' ∷ b't' ∷ [];
    bytes = 0;
    magic = 0;
  }

  -- `GenSetKeyType`
  unfoldable pub gen_set_key_type : List SetDatatype → DatatypeFields
  unfolding add_types
  gen_set_key_type [] = types.fields SetDatatype.invalid_type
  gen_set_key_type (t ∷ []) = record (types.fields t) { bytes = single_size (types.fields t).bytes }
  gen_set_key_type (t ∷ t' ∷ ts) = add_types concat_start (t ∷ t' ∷ ts)
