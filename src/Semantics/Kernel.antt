-- ===== src/Semantics/Kernel.antt =====
-- The kernel runs a rule's expressions on a packet. It is not part of the package: the machine is a
-- parameter, and what nft's documentation says of its instructions are hypotheses about it.
use nftableslib.Base.{
  ℕ, ◌+◌, ◌≤◌, ◌≡◌, Bool, true, false, not, ◌&&◌, Option, none, some, List, [], ◌∷◌, Bytes, ltb,
  leb, length, take, drop, ◌==◌, if◌then◌else◌,
}
use nftableslib.Nft.{Expr, CmpOp, PayloadBase, meta_key_l4proto}
use nftableslib.Ranges.Value.{value, IsBytes}
use nftableslib.Semantics.Bitwise.{mask_bytes}

-- The packets in whose headers the kernel has found the network header, the transport header and its
-- protocol; the registers, the first bytes of a register, and the step of one expression, which answers
-- nothing if the packet does not match.
pub record Kernel : Type 1 where
  pub Packet : Type 0
  pub Registers : Type 0
  pub network_header : Packet → Bytes
  pub transport_header : Packet → Bytes
  pub l4_protocol : Packet → ℕ
  pub read : (register len : ℕ) → Registers → Bytes
  pub step : Packet → Expr → Registers → Option Registers

-- A comparison of a register with a constant, both read as big-endian numbers.
unfoldable pub holds : CmpOp → ℕ → ℕ → Bool
holds CmpOp.eq a b = a == b
holds CmpOp.neq a b = not (a == b)
holds CmpOp.lt a b = ltb a b
holds CmpOp.lte a b = leb a b
holds CmpOp.gt a b = ltb b a
holds CmpOp.gte a b = leb b a

abbrev pub is_within : ℕ → ℕ → ℕ → Bool
is_within from to a = leb from a && leb a to

module _ (k : Kernel) where
  -- The expressions of a rule one after another.
  unfoldable pub accepts : List Expr → k.Packet → k.Registers → Bool
  accepts [] p r = true
  accepts (e ∷ es) p r = elim (k.step p e r) [ none ↦ false | some r' ↦ accepts es p r' ]

  -- The step loads those bytes into register 1, the only one that these rules use, and goes on.
  abbrev pub Loads : k.Packet → Expr → Bytes → k.Registers → Type 0
  Loads p e loaded r =
      (r' : k.Registers) × (k.step p e r ≡ some r') × (k.read 1 (length loaded) r' ≡ loaded)

  -- What is documented of each instruction, for a register of 16 bytes. The instruction payload, for
  -- one of the headers: bytes that the header has are loaded.
  abbrev pub RunsPayload : PayloadBase → (k.Packet → Bytes) → Type 0
  RunsPayload base header =
      (p : k.Packet) (r : k.Registers) (offset len : ℕ)
      → 1 ≤ len
      → len ≤ 16
      → offset + len ≤ length (header p)
      → Loads p (Expr.payload 1 base offset len) (take len (drop offset (header p))) r

  -- The instruction meta with a destination register loads the protocol behind the network header.
  abbrev pub RunsMeta : Type 0
  RunsMeta =
      (p : k.Packet) (r : k.Registers)
      → Loads p (Expr.meta meta_key_l4proto 1 false) (k.l4_protocol p ∷ []) r

  -- The instruction cmp goes on if the first bytes of the register stand so to the constant.
  abbrev pub RunsCmp : Type 0
  RunsCmp =
      (p : k.Packet) (r : k.Registers) (op : CmpOp) (content : Bytes)
      → IsBytes content
      → 1 ≤ length content
      → length content ≤ 16
      → k.step p (Expr.cmp op 1 content) r
        ≡ (if holds op (value (k.read 1 (length content) r)) (value content) then some r else none)

  -- The instruction range with `!=` goes on if the first bytes lie outside two constants of the same
  -- length.
  abbrev pub RunsRange : Type 0
  RunsRange =
      (p : k.Packet) (r : k.Registers) (from to : Bytes)
      → IsBytes from
      → IsBytes to
      → 1 ≤ length from
      → length from ≤ 16
      → length from ≡ length to
      → k.step p (Expr.range CmpOp.neq 1 from to) r ≡ (
          if is_within (value from) (value to) (value (k.read 1 (length from) r))
          then none
          else some r)

  -- The instruction bitwise, whose mask and xor are as long as the length says.
  abbrev pub RunsBitwise : Type 0
  RunsBitwise =
      (p : k.Packet) (r : k.Registers) (len : ℕ) (mask xor : Bytes)
      → 1 ≤ len
      → len ≤ 16
      → length mask ≡ len
      → length xor ≡ len
      → IsBytes mask
      → IsBytes xor
      → (r' : k.Registers) × (k.step p (Expr.bitwise 1 1 len mask xor) r ≡ some r')
        × (k.read 1 len r' ≡ mask_bytes (k.read 1 len r) mask xor)
