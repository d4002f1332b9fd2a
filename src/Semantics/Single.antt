-- ===== src/Semantics/Single.antt =====
-- The expressions of one address, with its mask, match the packets whose address begins like it.
use Prim.Native.Nat.{min}
use nftableslib.Base.{
  ℕ, zero, suc, ◌+◌, ◌-◌, ◌*◌, ◌<◌, ◌≤◌, ◌≡◌, refl, ◌∙◌, Bool, true, false, not, ◌&&◌, some, List,
  [], ◌∷◌, Bytes, ok, arith, length, replicate, ltb, passes_up_to, passes_at, ◌==◌, if◌then◌else◌,
}
use nftableslib.Nft.{Family, Expr, PayloadBase}
use nftableslib.Rule.{IpAddr, Operator}
use nftableslib.Expressions.Address.{
  addr_len, addr_bytes, load_network, is_neq, cmp_op, expr_for_single_ip,
}
use nftableslib.Expressions.Mask.{build_mask}
use nftableslib.Ranges.Value.{value, IsBytes}
use nftableslib.Ranges.Mask.{high_bits, prefix_mask, get_mask-eq-prefix_mask}
use nftableslib.Semantics.Bitwise.{mask_bytes}
use nftableslib.Semantics.Kernel.{Kernel, holds, accepts, RunsPayload, RunsCmp, RunsBitwise}
use nftableslib.Semantics.Steps.{
  window, length-window, window-IsBytes, holds-cmp_op, accepts-load, accepts-cmp,
}
use nftableslib.Semantics.Prefix.{
  same_prefix, is_network, value-eq_bytes, eq_bytes-mask, mask_bytes-IsBytes,
}
use nftableslib.Semantics.Address.{length-addr_bytes, addr_len_fits}

-- The first ml bits of the packet's address are those of the rule's, or are not for NEQ.
unfoldable pub begins_with : Operator → ℕ → Bytes → Bytes → Bool
begins_with op ml a addr = if is_neq op then not (same_prefix ml a addr) else same_prefix ml a addr

-- What is compared with the address: the masked address of the packet.
same-prefix_cmp :
    (op : Operator) (l ml : ℕ) (a addr : Bytes)
    → length a ≡ l
    → length addr ≡ l
    → IsBytes a
    → IsBytes addr
    → is_network ml addr ≡ true
    → (holds (cmp_op op) (value (mask_bytes a (prefix_mask l ml) (replicate l 0))) (value addr)
        && true)
      ≡ begins_with op ml a addr
unfolding begins_with
same-prefix_cmp op l ml a addr la lb ha hb net =
    let masked = mask_bytes a (prefix_mask l ml) (replicate l 0) in
    let (bytes, len) = mask_bytes-IsBytes l ml a la ha in
    let same : (value masked == value addr) ≡ same_prefix ml a addr =
      value-eq_bytes masked addr bytes hb (omega (arith, len))
      ∙ eq_bytes-mask l ml a addr la lb ha hb net in
    holds-cmp_op op (value masked) (value addr) ∙ rw same refl

length-prefix_mask : (l ml : ℕ) → length (prefix_mask l ml) ≡ l
length-prefix_mask zero ml = refl
length-prefix_mask (suc l) ml = omega (arith, length-prefix_mask l (ml - 8))

-- The bytes of a mask, of which there are nine.
small_table : passes_up_to (λ n. ltb (high_bits n) 256) 9 ≡ true
unfolding passes_up_to
small_table = refl

high_bits-lt : (n : ℕ) → high_bits (min 8 n) < 256
high_bits-lt n =
    let small : ltb (high_bits (min 8 n)) 256 ≡ true =
      passes_at (λ n. ltb (high_bits n) 256) small_table (ground arith) in
    ground arith

prefix_mask-IsBytes : (l ml : ℕ) → IsBytes (prefix_mask l ml)
prefix_mask-IsBytes zero ml = tt
prefix_mask-IsBytes (suc l) ml = (high_bits-lt ml, prefix_mask-IsBytes l (ml - 8))

zeros : ℕ → Bytes
zeros l = replicate l 0

zeros-IsBytes : (l : ℕ) → (length (zeros l) ≡ l) × IsBytes (zeros l)
unfolding zeros
zeros-IsBytes zero = (refl, tt)
zeros-IsBytes (suc l) = let (len, bytes) = zeros-IsBytes l in (omega arith, (omega arith, bytes))

module _ (k : Kernel) where
  -- On any machine with a register of 16 bytes that runs the instructions payload, bitwise and cmp
  -- as documented, an address of the family with a mask that fits it, whose bits behind the mask
  -- are 0, gives expressions that match exactly the packets whose address, the bytes of the network
  -- header at the offset, has the same first bits, as many as the mask has, for EQ, and other ones
  -- for NEQ. The address and the packet's network header are made of bytes, and the header has
  -- those that are loaded.
  pub expr_for_single_ip-accepts :
      (family : Family) (offset ml : ℕ) (addr : IpAddr) (op : Operator) (p : k.Packet)
      (r : k.Registers)
      → RunsPayload k PayloadBase.network k.network_header
      → RunsCmp k
      → RunsBitwise k
      → (length (addr_bytes family addr.ip) == 0) ≡ false
      → addr.mask ≡ some ml
      → ml ≤ 8 * addr_len family
      → is_network ml (addr_bytes family addr.ip) ≡ true
      → IsBytes (addr_bytes family addr.ip)
      → IsBytes (k.network_header p)
      → offset + addr_len family ≤ length (k.network_header p)
      → (es : List Expr) × (expr_for_single_ip family offset (some addr) op ≡ ok es)
        × (accepts k es p r
            ≡ begins_with op ml
                (window offset (addr_len family) (k.network_header p))
                (addr_bytes family addr.ip))
  unfolding expr_for_single_ip accepts zeros
  expr_for_single_ip-accepts family offset ml addr op p r payload cmp bitwise known masked fits net
        hb hp long =
      let l = addr_len family in
      let (low, high) = addr_len_fits family in
      let (zl, zb) = zeros-IsBytes l in
      let a = window offset l (k.network_header p) in
      let ip = addr_bytes family addr.ip in
      let mask = prefix_mask l ml in
      let no_bytes : Bytes = replicate l 0 in
      let la = length-window offset l (k.network_header p) long in
      let lb = length-addr_bytes family addr.ip known in
      let (fitting, short, same) = get_mask-eq-prefix_mask l ml in
      let built : build_mask l ml ≡ ok mask = same ∙ fitting fits in
      let test = Expr.cmp (cmp_op op) 1 ip in
      let rest : List Expr = Expr.bitwise 1 1 l mask no_bytes ∷ test ∷ [] in
      let (r₁, e₁, read₁) =
        accepts-load k p (load_network 1 offset l) rest a r (payload p r offset l low high long) in
      let cut = mask_bytes a mask no_bytes in
      let ha = window-IsBytes offset l (k.network_header p) hp in
      let (bytes, lc) = mask_bytes-IsBytes l ml a la ha in
      let (r', step, read') =
        bitwise p r₁ l mask no_bytes low high (length-prefix_mask l ml) zl
          (prefix_mask-IsBytes l ml) zb in
      let loaded : k.read 1 l r₁ ≡ a = rw la at read₁ in
      let cut' : k.read 1 (length cut) r' ≡ cut = rw lc (rw loaded at read') in
      let (r₂, e₂, read₂) =
        accepts-load k p (Expr.bitwise 1 1 l mask no_bytes) (test ∷ []) cut r₁ (r', step, cut') in
      let e₃ =
        accepts-cmp k p (cmp_op op) ip cut [] r₂ cmp hb (omega (arith, lb)) (omega (arith, lb))
          (omega (arith, lb, lc)) read₂ in
      let compared = same-prefix_cmp op l ml a ip la lb ha hb net in
      (load_network 1 offset l ∷ rest, rw (known, masked, built) refl, e₁ ∙ (e₂ ∙ (e₃ ∙ compared)))
