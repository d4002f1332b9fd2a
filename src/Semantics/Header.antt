-- ===== src/Semantics/Header.antt =====
-- The expressions of the IP version and of the protocol in the network header.
use Prim.Native.Nat.{bit_and, bit_xor}
use nftableslib.Base.{
  ℕ, ◌+◌, ◌*◌, ◌/◌, ◌%◌, ◌<◌, ◌≤◌, ◌≡◌, refl, ap, ◌∙◌, Bool, true, List, [], ◌∷◌, Bytes, ok, arith,
  length, take, ◌==◌, if◌then◌else◌,
}
use nftableslib.Nft.{Family, Expr, CmpOp, PayloadBase}
use nftableslib.Host.{BinaryUtil}
use nftableslib.Rule.{Operator, eq_op, neq_op}
use nftableslib.Expressions.Address.{
  load_network, is_neq, protocol_offset, expr_for_ip_version, expr_for_protocol,
}
use nftableslib.Ranges.Value.{value, IsBytes}
use nftableslib.Semantics.Bitwise.{mask_bytes}
use nftableslib.Semantics.Kernel.{Kernel, holds, accepts, RunsPayload, RunsCmp, RunsBitwise}
use nftableslib.Semantics.Steps.{window, length-window, window-IsBytes, accepts-load, accepts-cmp}
use nftableslib.Semantics.Prefix.{masked-eq}

-- What the documentation of binaryutil says of NativeEndian's PutUint32 on a little-endian host, for
-- the first byte.
abbrev pub IsLittleEndian : BinaryUtil → Type 0
IsLittleEndian bin = (n : ℕ) → take 1 (bin.ne_put_uint32 n) ≡ n % 256 ∷ []

-- A test for EQ, and no test for NEQ.
abbrev pub eq_only : Operator → Bool → Bool
eq_only op test = if is_neq op then true else test

byte_fits : (1 ≤ 1) × (1 ≤ 16)
byte_fits = (omega arith, omega arith)

one_byte : (bs : Bytes) → length bs ≡ 1 → IsBytes bs → (bs ≡ value bs ∷ []) × (value bs < 256)
one_byte [] h bytes = absurd (omega arith)
one_byte (b ∷ []) h (small, none) =
    let e : b ≡ value (b ∷ []) = omega arith in (ap (λ (n : ℕ). n ∷ []) e, omega arith)
one_byte (b ∷ c ∷ bs) h bytes = absurd (omega arith)

module _ (k : Kernel) where
  -- The byte of the network header at an offset.
  abbrev pub header_byte : (offset : ℕ) → k.Packet → ℕ
  header_byte offset p = value (window offset 1 (k.network_header p))

  -- The load of one byte.
  load_byte-accepts :
      (offset : ℕ) (es : List Expr) (p : k.Packet) (r : k.Registers)
      → RunsPayload k PayloadBase.network k.network_header
      → offset + 1 ≤ length (k.network_header p)
      → IsBytes (k.network_header p)
      → (r' : k.Registers) × (accepts k (load_network 1 offset 1 ∷ es) p r ≡ accepts k es p r')
        × (k.read 1 1 r' ≡ header_byte offset p ∷ [])
        × (header_byte offset p < 256)
  load_byte-accepts offset es p r payload long bytes =
      let a = window offset 1 (k.network_header p) in
      let la = length-window offset 1 (k.network_header p) long in
      let (one, few) = byte_fits in
      let (r', e, read) =
        accepts-load k p (load_network 1 offset 1) es a r (payload p r offset 1 one few long) in
      let (byte, small) = one_byte a la (window-IsBytes offset 1 (k.network_header p) bytes) in
      let loaded : k.read 1 1 r' ≡ a = rw la at read in (r', e, loaded ∙ byte, small)

  version_test-accepts :
      (version b : ℕ) (p : k.Packet) (r : k.Registers)
      → RunsCmp k
      → RunsBitwise k
      → version < 16
      → b < 256
      → k.read 1 1 r ≡ b ∷ []
      → accepts k
          (Expr.bitwise 1 1 1 (0xf0 ∷ []) (0 ∷ [])
            ∷ Expr.cmp CmpOp.eq 1 ((version * 16) % 256 ∷ [])
            ∷ [])
          p
          r
        ≡ (b / 16 == version)
  unfolding accepts holds mask_bytes
  version_test-accepts version b p r cmp bitwise small byte loaded =
      let ver : Bytes = (version * 16) % 256 ∷ [] in
      let cut : Bytes = bit_xor (bit_and b 240) 0 ∷ [] in
      let (r', step, read) =
        bitwise p r 1 (0xf0 ∷ []) (0 ∷ []) (omega arith) (omega arith) refl refl (ground arith)
          (ground arith) in
      let cut' : k.read 1 1 r' ≡ cut = rw loaded at read in
      let mask = Expr.bitwise 1 1 1 (0xf0 ∷ []) (0 ∷ []) in
      let rest : List Expr = Expr.cmp CmpOp.eq 1 ver ∷ [] in
      let (r₂, e, read₂) = accepts-load k p mask rest cut r (r', step, cut') in
      let masked : bit_xor (bit_and b 240) 0 ≡ b / 16 * 16 = masked-eq 4 b (omega arith) byte in
      e
      ∙ (accepts-cmp k p CmpOp.eq ver cut [] r₂ cmp (omega arith, tt) (omega arith) (omega arith)
            refl read₂
          ∙ rw masked (ground arith))

  byte_test-accepts :
      (content : Bytes) (n b : ℕ) (p : k.Packet) (r : k.Registers)
      → RunsCmp k
      → n < 256
      → content ≡ n ∷ []
      → k.read 1 1 r ≡ b ∷ []
      → accepts k (Expr.cmp CmpOp.eq 1 content ∷ []) p r ≡ (b == n)
  unfolding accepts holds
  byte_test-accepts content n b p r cmp byte same read = rw same (
      accepts-cmp k p CmpOp.eq (n ∷ []) (b ∷ []) [] r cmp (byte, tt) (omega arith) (omega arith)
        refl read
      ∙ ground arith)

  ip_version-accepts :
      (version : ℕ) (op : Operator) (p : k.Packet) (r : k.Registers)
      → RunsPayload k PayloadBase.network k.network_header
      → RunsCmp k
      → RunsBitwise k
      → version < 16
      → 1 ≤ length (k.network_header p)
      → IsBytes (k.network_header p)
      → (es : List Expr) × (expr_for_ip_version version op ≡ ok es)
        × (accepts k es p r ≡ eq_only op (header_byte 0 p / 16 == version))
  unfolding expr_for_ip_version accepts
  ip_version-accepts version neq_op p r payload cmp bitwise small long bytes =
      let (r', e, read, byte) = load_byte-accepts 0 [] p r payload long bytes in (_, refl, e)
  ip_version-accepts version eq_op p r payload cmp bitwise small long bytes =
      let test : List Expr =
        Expr.bitwise 1 1 1 (0xf0 ∷ []) (0 ∷ [])
        ∷ Expr.cmp CmpOp.eq 1 ((version * 16) % 256 ∷ [])
        ∷ [] in
      let (r', e, read, byte) = load_byte-accepts 0 test p r payload long bytes in
      (_, refl, e ∙ version_test-accepts version (header_byte 0 p) p r' cmp bitwise small byte read)

  module _ ⦃bin : BinaryUtil⦄ where
    protocol-accepts :
        (family : Family) (proto : ℕ) (op : Operator) (p : k.Packet) (r : k.Registers)
        → RunsPayload k PayloadBase.network k.network_header
        → RunsCmp k
        → IsLittleEndian bin
        → proto < 256
        → protocol_offset family + 1 ≤ length (k.network_header p)
        → IsBytes (k.network_header p)
        → (es : List Expr) × (expr_for_protocol family proto op ≡ ok es)
          × (accepts k es p r ≡ eq_only op (header_byte (protocol_offset family) p == proto))
    unfolding expr_for_protocol accepts
    protocol-accepts family proto neq_op p r payload cmp little small long bytes =
        let (r', e, read, byte) =
          load_byte-accepts (protocol_offset family) [] p r payload long bytes in
        (_, refl, e)
    protocol-accepts family proto eq_op p r payload cmp little small long bytes =
        let offset = protocol_offset family in
        let content = take 1 (bin.ne_put_uint32 proto) in
        let low : proto % 256 ≡ proto = omega arith in
        let same : content ≡ proto ∷ [] = rw low at (little proto) in
        let test : List Expr = Expr.cmp CmpOp.eq 1 content ∷ [] in
        let (r', e, read, byte) = load_byte-accepts offset test p r payload long bytes in
        (
          _,
          refl,
          e ∙ byte_test-accepts content proto (header_byte offset p) p r' cmp small same read,
        )

    -- On any machine with a register of 16 bytes that runs the instructions payload, bitwise and
    -- cmp as documented, on a little-endian host, for a version of 4 bits and a protocol of 8: the
    -- expressions of the IP version for EQ match exactly the packets whose first header byte has
    -- the version in its high bits, and those of the protocol exactly the packets whose protocol
    -- byte, the tenth of an IPv4 header and the seventh of any other, is the protocol; for NEQ both
    -- match every packet. The packet's network header is made of bytes and has the one of the
    -- protocol.
    pub version_and_protocol-accept :
        (family : Family) (version proto : ℕ) (op : Operator) (p : k.Packet) (r : k.Registers)
        → RunsPayload k PayloadBase.network k.network_header
        → RunsCmp k
        → RunsBitwise k
        → IsLittleEndian bin
        → version < 16
        → proto < 256
        → protocol_offset family + 1 ≤ length (k.network_header p)
        → IsBytes (k.network_header p)
        → ((es : List Expr) × (expr_for_ip_version version op ≡ ok es)
            × (accepts k es p r ≡ eq_only op (header_byte 0 p / 16 == version)))
          × ((es : List Expr) × (expr_for_protocol family proto op ≡ ok es)
              × (accepts k es p r ≡ eq_only op (header_byte (protocol_offset family) p == proto)))
    version_and_protocol-accept family version proto op p r payload cmp bitwise little lv lp long
          bytes =
        (
          ip_version-accepts version op p r payload cmp bitwise lv (omega arith) bytes,
          protocol-accepts family proto op p r payload cmp little lp long bytes,
        )
