-- ===== src/Json/Names.antt =====
-- What `marshalExpression` writes for the numbers and the operators of an expression, and its loop
-- over the bytes of one.
use nftableslib.Base.{ℕ, zero, suc, List, [], ◌∷◌, ◌++◌, Bytes, Outcome, ok, ◌>>=◌}
use nftableslib.Nft.{CmpOp, PayloadBase}
use nftableslib.Json.Format.{codes, quote, sharp_hex}

-- The appends to one slice, in their order.
abbrev pub append_all : List Bytes → Bytes
append_all [] = []
append_all (piece ∷ pieces) = piece ++ append_all pieces

-- A loop that appends the text of each item, and a comma unless it is the last.
unfoldable pub join_commas {ℓ} : {A : Type ℓ} → (A → Outcome Bytes) → List A → Outcome Bytes
join_commas marshal [] = ok []
join_commas marshal (x ∷ []) = marshal x
join_commas marshal (x ∷ y ∷ xs) = do
  text ← marshal x
  rest ← join_commas marshal (y ∷ xs)
  ok (text ++ (codes "," ++ rest))

-- A comma follows each byte but the last.
unfoldable pub byte_items : Bytes → Bytes
byte_items [] = []
byte_items (b ∷ []) = quote (sharp_hex b)
byte_items (b ∷ c ∷ bs) = quote (sharp_hex b) ++ (codes "," ++ byte_items (c ∷ bs))

abbrev pub byte_array : Bytes → Bytes
byte_array bs = append_all (codes "[" ∷ byte_items bs ∷ codes "]" ∷ [])

-- The names of expr.MetaKeyLEN (0) to expr.MetaKeyPRANDOM (24).
abbrev pub meta_key_names : List Bytes
meta_key_names =
    codes "expr.MetaKeyLEN"
    ∷ codes "expr.MetaKeyPROTOCOL"
    ∷ codes "expr.MetaKeyPRIORITY"
    ∷ codes "expr.MetaKeyMARK"
    ∷ codes "expr.MetaKeyIIF"
    ∷ codes "expr.MetaKeyOIF"
    ∷ codes "expr.MetaKeyIIFNAME"
    ∷ codes "expr.MetaKeyOIFNAME"
    ∷ codes "expr.MetaKeyIIFTYPE"
    ∷ codes "expr.MetaKeyOIFTYPE"
    ∷ codes "expr.MetaKeySKUID"
    ∷ codes "expr.MetaKeySKGID"
    ∷ codes "expr.MetaKeyNFTRACE"
    ∷ codes "expr.MetaKeyRTCLASSID"
    ∷ codes "expr.MetaKeySECMARK"
    ∷ codes "expr.MetaKeyNFPROTO"
    ∷ codes "expr.MetaKeyL4PROTO"
    ∷ codes "expr.MetaKeyBRIIIFNAME"
    ∷ codes "expr.MetaKeyBRIOIFNAME"
    ∷ codes "expr.MetaKeyPKTTYPE"
    ∷ codes "expr.MetaKeyCPU"
    ∷ codes "expr.MetaKeyIIFGROUP"
    ∷ codes "expr.MetaKeyOIFGROUP"
    ∷ codes "expr.MetaKeyCGROUP"
    ∷ codes "expr.MetaKeyPRANDOM"
    ∷ []

unfoldable pub name_at : List Bytes → ℕ → Bytes
name_at [] key = codes "Unknown key"
name_at (name ∷ names) zero = name
name_at (name ∷ names) (suc key) = name_at names key

unfoldable pub meta_key_name : ℕ → Bytes
unfolding name_at
meta_key_name key = name_at meta_key_names key

unfoldable pub cmp_op_name : CmpOp → Bytes
cmp_op_name CmpOp.eq = codes "expr.CmpOpEq"
cmp_op_name CmpOp.neq = codes "expr.CmpOpNeq"
cmp_op_name CmpOp.lt = codes "expr.CmpOpLt"
cmp_op_name CmpOp.lte = codes "expr.CmpOpLte"
cmp_op_name CmpOp.gt = codes "expr.CmpOpGt"
cmp_op_name CmpOp.gte = codes "expr.CmpOpGte"

unfoldable pub base_name : PayloadBase → Bytes
base_name PayloadBase.link_layer = codes "expr.PayloadBaseLLHeader"
base_name PayloadBase.network = codes "expr.PayloadBaseNetworkHeader"
base_name PayloadBase.transport = codes "expr.PayloadBaseTransportHeader"
