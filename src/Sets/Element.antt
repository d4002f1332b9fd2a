-- ===== src/Sets/Element.antt =====
-- `ElementValue`, `MakeElement`, `MakeConcatElement` and `processElementValue`.
use nftableslib.Base.{
  ℕ, ◌+◌, ◌-◌, ◌%◌, false, not, Option, none, some, List, [], ◌∷◌, ◌++◌, Bytes, Outcome, ok, err,
  panic, ◌>>=◌, ◌>>◌, fail_if, mixed_families, nil_action, no_keys, keys_and_vals, nil_key,
  unsupported_key, length, replicate, copy, ◌==◌, ◌&&◌, if◌then◌else◌, is_some, deref,
}
use nftableslib.Nft.{SetElement, SetDatatype}
use nftableslib.Host.{BinaryUtil}
use nftableslib.Rule.{RuleAction, is_ipv6}
use nftableslib.Ranges.Order.{Sorter}
use nftableslib.Ranges.Build.{build_element_ranges}
use nftableslib.Sets.Parse.{NetParser, new_ip_addr}

-- A nil pointer or slice is `none`.
pub record ElementValue : Type 0 where
  pub addr : Bytes
  pub port : Option ℕ
  pub addr_ip : Option Bytes
  pub action : Option RuleAction
  pub integer : Option ℕ
  pub ip_addr : Option Bytes
  pub ether_addr : Option Bytes
  pub inet_proto : Option ℕ
  pub inet_service : Option ℕ
  pub mark : Option ℕ

-- `l += 4 - l%4` where 4 does not divide l.
abbrev pub aligned : ℕ → ℕ
aligned l = if l % 4 == 0 then l else l + (4 - l % 4)

-- A buffer of the aligned length that starts with the bytes.
abbrev pub padded : Bytes → Bytes
padded b = copy (replicate (aligned (length b)) 0) b

-- The guard of every case: a key's value is not nil.
abbrev pub key_value : {A : Type 0} → Option A → Outcome A
key_value (some v) = ok v
key_value none = err nil_key

-- The assignment through `p := &elements[0]`.
abbrev pub at_first : (SetElement → SetElement) → List SetElement → Outcome (List SetElement)
at_first f [] = panic
at_first f (p ∷ elements) = ok (f p ∷ elements)

module _ ⦃bin : BinaryUtil⦄ where
  -- The switch of `processElementValue`.
  abbrev pub element_bytes : SetDatatype → ElementValue → Outcome Bytes
  element_bytes SetDatatype.integer_type v = key_value v.integer >>= λ n. ok (bin.be_put_uint32 n)
  element_bytes SetDatatype.mark_type v = key_value v.mark >>= λ n. ok (bin.be_put_uint32 n)
  element_bytes SetDatatype.ip_addr_type v = key_value v.ip_addr
  element_bytes SetDatatype.ip6_addr_type v = key_value v.ip_addr
  element_bytes SetDatatype.ether_addr_type v = key_value v.ether_addr
  element_bytes SetDatatype.inet_proto_type v = key_value v.inet_proto >>= λ n. ok (n ∷ [])
  element_bytes SetDatatype.inet_service_type v =
      key_value v.inet_service >>= λ n. ok (bin.be_put_uint16 n)
  element_bytes SetDatatype.no_type v = err unsupported_key
  element_bytes SetDatatype.invalid_type v = err unsupported_key
  element_bytes SetDatatype.verdict_type v = err unsupported_key
  element_bytes (SetDatatype.other_type n b m) v = err unsupported_key

  -- `processElementValue`
  unfoldable pub process_element_value : SetDatatype → ElementValue → Outcome Bytes
  process_element_value key v = do b ← element_bytes key v; ok (padded b)

  -- The loop of `MakeConcatElement`, which indexes both slices.
  unfoldable pub concat_key : List SetDatatype → List ElementValue → Outcome Bytes
  unfolding process_element_value
  concat_key [] vals = ok []
  concat_key (key ∷ keys) [] = panic
  concat_key (key ∷ keys) (v ∷ vals) = do
    b ← process_element_value key v
    rest ← concat_key keys vals
    ok (b ++ rest)

  -- `MakeConcatElement`
  unfoldable pub make_concat_element :
      List SetDatatype → List ElementValue → Option RuleAction → Outcome SetElement
  unfolding concat_key
  make_concat_element keys vals ra = do
    fail_if (not (is_some ra)) nil_action
    fail_if (length keys == 0) no_keys
    fail_if (not (length keys == length vals)) keys_and_vals
    key ← concat_key keys vals
    action ← deref ra
    ok record { key = padded key; value = []; interval_end = false; verdict_data = action.verdict }

  module _ ⦃net : NetParser⦄ ⦃sorter : Sorter⦄ where
    -- `MakeElement`, which reads through the pointer to its input at once.
    unfoldable pub make_element : Option ElementValue → Outcome (List SetElement)
    unfolding new_ip_addr build_element_ranges is_ipv6
    make_element none = panic
    make_element (some input) = do
      addr ← new_ip_addr input.addr
      elements ← build_element_ranges (addr ∷ [])
      first ← at_first (λ p. p) elements
      (elim input.addr_ip [
        | some text ↦ do
          val ← new_ip_addr text
          fail_if (is_ipv6 addr && not (is_ipv6 val)) mixed_families
          fail_if (not (is_ipv6 addr) && is_ipv6 val) mixed_families
          at_first (λ p. record p { value = val.ip }) elements
        | none ↦ elim input.port [
          | some port ↦ at_first (λ p. record p { value = bin.be_put_uint16 port }) elements
          | none ↦ elim input.action [
            | some action ↦ at_first (λ p. record p { verdict_data = action.verdict }) elements
            | none ↦ ok elements
          ]
        ]
      ])
