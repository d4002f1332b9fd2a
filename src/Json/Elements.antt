-- ===== src/Json/Elements.antt =====
-- `marshalSetElements` of nfrules_marshal.go.
use nftableslib.Base.{List, [], ◌∷◌, ◌++◌, Bytes, Outcome, ok, ◌>>=◌, length, ◌==◌, if◌then◌else◌}
use nftableslib.Nft.{SetElement}
use nftableslib.Host.{BinaryUtil}
use nftableslib.Json.Format.{codes, quote, decimal, bool_text}
use nftableslib.Json.Names.{append_all, byte_array, join_commas}
use nftableslib.Json.Address.{build_ipv6_string}

-- `%v` of a slice of bytes, between its brackets.
unfoldable pub spaced : Bytes → Bytes
spaced [] = []
spaced (b ∷ []) = decimal b
spaced (b ∷ c ∷ bs) = decimal b ++ (codes " " ++ spaced (c ∷ bs))

module _ ⦃bin : BinaryUtil⦄ where
  -- The `switch` on the length of the key.
  unfoldable pub key_text : Bytes → Outcome Bytes
  unfolding spaced
  key_text (a ∷ b ∷ []) = ok (decimal (bin.be_uint32 (0 ∷ 0 ∷ a ∷ b ∷ [])))
  key_text (a ∷ b ∷ c ∷ d ∷ []) = ok (
      append_all
        (decimal a ∷ codes "." ∷ decimal b ∷ codes "." ∷ decimal c ∷ codes "." ∷ decimal d ∷ []))
  key_text key =
      if length key == 16
      then build_ipv6_string key
      else ok (append_all (codes "[" ∷ spaced key ∷ codes "]" ∷ []))

  unfoldable pub marshal_element : SetElement → Outcome Bytes
  unfolding key_text
  marshal_element e = do
    key ← key_text e.key
    ok (
        append_all (
          codes "{\"Key\":"
          ∷ quote key
          ∷ codes ",\"IntervalEnd\":"
          ∷ bool_text e.interval_end
          ∷ codes ",\"Val\":"
          ∷ byte_array e.value
          ∷ codes "}"
          ∷ []))

  unfoldable pub marshal_set_elements : List SetElement → Outcome Bytes
  unfolding marshal_element
  marshal_set_elements es = do
    items ← join_commas marshal_element es
    ok (append_all (codes "[" ∷ items ∷ codes "]" ∷ []))
