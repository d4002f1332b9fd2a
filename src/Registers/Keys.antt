-- ===== src/Registers/Keys.antt =====
-- A concatenated key in the registers, described without the code of nfconcatrule.go.
use nftableslib.Base.{
  ℕ, ◌+◌, ◌/◌, ◌≡◌, ◌⊎◌, Bool, true, false, ◌&&◌, Option, none, some, List, [], ◌∷◌, ◌==◌,
  if◌then◌else◌,
}
use nftableslib.Nft.{Family, family_ipv4, family_ipv6, PayloadBase, Expr, SetDatatype}
use nftableslib.Rule.{SetRef, ConcatElement}
use nftableslib.Expressions.Header.{Layout, ipv4_layout, ipv6_layout}
use nftableslib.Expressions.Concat.{lookup_verdict}

-- Bytes of a packet's network or transport header.
pub record Piece : Type 0 where
  pub base : PayloadBase
  pub offset : ℕ
  pub len : ℕ

abbrev network_piece : (offset len : ℕ) → Piece
network_piece offset len = record { base = PayloadBase.network; offset = offset; len = len }

abbrev is_six : Family → Bool
is_six family = family == family_ipv6

-- Where an element's piece stands: the addresses and the protocol of an IPv4 header (RFC 791) or of an
-- IPv6 header (RFC 8200), and the ports of TCP and UDP.
abbrev pub piece_of : Family → (source : Bool) → SetDatatype → Piece
piece_of family source SetDatatype.ip_addr_type =
    if source then network_piece 12 4 else network_piece 16 4
piece_of family source SetDatatype.ip6_addr_type =
    if source then network_piece 8 16 else network_piece 24 16
piece_of family source SetDatatype.inet_proto_type =
    if is_six family then network_piece 6 1 else network_piece 9 1
piece_of family source _ = record {
  base = PayloadBase.transport;
  offset = if source then 0 else 2;
  len = 2;
}

abbrev pub pieces_of : Family → List (Option ConcatElement) → List Piece
pieces_of family [] = []
pieces_of family (none ∷ es) = pieces_of family es
pieces_of family (some e ∷ es) = piece_of family e.e_source e.e_type ∷ pieces_of family es

abbrev pub load_piece : (register : ℕ) → Piece → Expr
load_piece register p = Expr.payload register p.base p.offset p.len

-- The words of 4 bytes that a piece takes.
abbrev pub words : Piece → ℕ
words p = (p.len + 3) / 4

-- Registers 1 to 4 have 16 bytes each. The same 64 bytes are the registers 8 to 23 of 4 bytes each:
-- word 0 is the beginning of register 1, and every other word has a register of its own.
abbrev pub register_of : (word : ℕ) → ℕ
register_of word = if word == 0 then 1 else 8 + word

-- Each piece at the word behind the piece before it.
unfoldable pub packed_key : (word : ℕ) → List Piece → List Expr
packed_key word [] = []
packed_key word (p ∷ ps) = load_piece (register_of word) p ∷ packed_key (word + words p) ps

-- Each piece in the register that is as many after the one before it as that has words.
unfoldable pub loaded_from : (register : ℕ) → List Piece → List Expr
loaded_from register [] = []
loaded_from register (p ∷ ps) = load_piece register p ∷ loaded_from (register + words p) ps

-- The verdict map is looked up with the key that begins in register 1.
abbrev pub key_lookup : Option SetRef → List Expr
key_lookup none = []
key_lookup (some ref) = Expr.lookup (lookup_verdict ref) ∷ []

abbrev pub IsIp : Family → Type 0
IsIp family = (family ≡ family_ipv4) ⊎ (family ≡ family_ipv6)

-- The element types that go with a family.
abbrev pub type_fits : Family → SetDatatype → Bool
type_fits family SetDatatype.ip_addr_type = family == family_ipv4
type_fits family SetDatatype.ip6_addr_type = family == family_ipv6
type_fits family SetDatatype.inet_proto_type = true
type_fits family SetDatatype.inet_service_type = true
type_fits family _ = false

abbrev pub all_fit : Family → List (Option ConcatElement) → Bool
all_fit family [] = true
all_fit family (none ∷ es) = false
all_fit family (some e ∷ es) = type_fits family e.e_type && all_fit family es

abbrev pub is_narrow : SetDatatype → Bool
is_narrow SetDatatype.ip6_addr_type = false
is_narrow _ = true

-- An IPv6 address must not come first.
abbrev pub first_narrow : List (Option ConcatElement) → Bool
first_narrow [] = true
first_narrow (none ∷ es) = false
first_narrow (some e ∷ es) = is_narrow e.e_type

-- The words of a piece but one, which the case of an address adds to the register.
abbrev pub extra_of : SetDatatype → ℕ
extra_of SetDatatype.ip6_addr_type = 3
extra_of _ = 0

abbrev pub layout_of : Family → Layout
layout_of family = if is_six family then ipv6_layout else ipv4_layout
