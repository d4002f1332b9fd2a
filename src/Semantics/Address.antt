-- ===== src/Semantics/Address.antt =====
-- The expressions of a range of addresses match the packets whose address lies in it.
use nftableslib.Base.{
  ℕ, zero, suc, ◌+◌, ◌-◌, ◌≤◌, ◌≡◌, refl, sym, ◌∙◌, inl, inr, Bool, false, not, some, List, [], ◌∷◌,
  Bytes, ok, arith, length, drop, ◌==◌, if◌then◌else◌, Bool-cases,
}
use nftableslib.Nft.{Family, family_ipv4, family_ipv6, Expr, CmpOp, PayloadBase}
use nftableslib.Rule.{IpAddr, to4, to16, Operator, eq_op, neq_op}
use nftableslib.Expressions.Address.{addr_len, addr_bytes, is_neq, expr_for_range_ip}
use nftableslib.Ranges.Value.{value, IsBytes}
use nftableslib.Semantics.Kernel.{
  Kernel, holds, is_within, accepts, RunsPayload, RunsCmp, RunsRange,
}
use nftableslib.Semantics.Steps.{window, length-window, accepts-load, accepts-cmp, accepts-range}

length-drop : (n : ℕ) (bs : Bytes) → length (drop n bs) ≡ length bs - n
length-drop zero bs = omega arith
length-drop (suc n) [] = omega arith
length-drop (suc n) (b ∷ bs) = omega (arith, length-drop n bs)

length-to16 : (ip : Bytes) → (length (to16 ip) == 0) ≡ false → length (to16 ip) ≡ 16
length-to16 ip h = ground arith

length-to4 : (ip : Bytes) → (length (to4 ip) == 0) ≡ false → length (to4 ip) ≡ 4
length-to4 ip h = ground (arith, length-drop 12 ip)

-- An address that the family knows has as many bytes as the family loads.
pub length-addr_bytes :
    (family : Family) (ip : Bytes)
    → (length (addr_bytes family ip) == 0) ≡ false
    → length (addr_bytes family ip) ≡ addr_len family
unfolding addr_bytes
length-addr_bytes family ip h = elim (Bool-cases (family == family_ipv6)) [
  | inl six ↦ rw six (length-to16 ip (rw six at h))
  | inr other ↦ elim (Bool-cases (family == family_ipv4)) [
    | inl four ↦ rw (other, four) (length-to4 ip (rw (other, four) at h))
    | inr neither ↦ absurd (ground (arith, (rw (other, neither) at h)))
  ]
]

-- An address fits a register.
pub addr_len_fits : (family : Family) → (1 ≤ addr_len family) × (addr_len family ≤ 16)
addr_len_fits family = ground arith

-- What the code means by a range.
unfoldable pub in_range : Operator → Bytes → Bytes → Bytes → Bool
in_range eq_op from to a = is_within (value from) (value to) (value a)
in_range neq_op from to a = not (is_within (value from) (value to) (value a))

module _ (k : Kernel) where
  -- Behind the load of an address.
  test-accepts :
      (op : Operator) (from to a : Bytes) (p : k.Packet) (r : k.Registers)
      → RunsCmp k
      → RunsRange k
      → IsBytes from
      → IsBytes to
      → 1 ≤ length a
      → length a ≤ 16
      → length from ≡ length a
      → length to ≡ length a
      → k.read 1 (length a) r ≡ a
      → accepts k
          (if is_neq op
            then Expr.range CmpOp.neq 1 from to ∷ []
            else Expr.cmp CmpOp.gte 1 from ∷ Expr.cmp CmpOp.lte 1 to ∷ [])
          p
          r
        ≡ in_range op from to a
  unfolding accepts holds in_range
  test-accepts eq_op from to a p r cmp range hf ht low high lf lt read =
      rw
        (
          accepts-cmp k p CmpOp.gte from a (Expr.cmp CmpOp.lte 1 to ∷ []) r cmp hf (omega arith)
              (omega arith) lf read,
          accepts-cmp k p CmpOp.lte to a [] r cmp ht (omega arith) (omega arith) lt read,
        )
        (ground arith)
  test-accepts neq_op from to a p r cmp range hf ht low high lf lt read =
      rw
        (accepts-range k p from to a [] r range hf ht (omega arith) (omega arith) (omega arith) lf
          read)
        (ground arith)

  -- On any machine with a register of 16 bytes that runs the instructions payload, cmp and range as
  -- documented, a range of addresses that the family knows gives expressions that match exactly the
  -- packets whose address, the bytes of the network header at the offset, lies in the range for EQ,
  -- and outside it for NEQ. The two addresses are made of bytes, and the packet's network header
  -- has the bytes that are loaded.
  pub expr_for_range_ip-accepts :
      (family : Family) (offset : ℕ) (from to : IpAddr) (op : Operator) (p : k.Packet)
      (r : k.Registers)
      → RunsPayload k PayloadBase.network k.network_header
      → RunsCmp k
      → RunsRange k
      → (length (addr_bytes family from.ip) == 0) ≡ false
      → (length (addr_bytes family to.ip) == 0) ≡ false
      → IsBytes (addr_bytes family from.ip)
      → IsBytes (addr_bytes family to.ip)
      → offset + addr_len family ≤ length (k.network_header p)
      → (es : List Expr) × (expr_for_range_ip family offset (some from) (some to) op ≡ ok es)
        × (accepts k es p r
            ≡ in_range op
                (addr_bytes family from.ip)
                (addr_bytes family to.ip)
                (window offset (addr_len family) (k.network_header p)))
  unfolding expr_for_range_ip
  expr_for_range_ip-accepts family offset from to op p r payload cmp range known known' hf ht long =
      let a = window offset (addr_len family) (k.network_header p) in
      let la = length-window offset (addr_len family) (k.network_header p) long in
      let lf = length-addr_bytes family from.ip known in
      let lt = length-addr_bytes family to.ip known' in
      let (low, high) = addr_len_fits family in
      let from_addr = addr_bytes family from.ip in
      let to_addr = addr_bytes family to.ip in
      let wide : 1 ≤ length a = omega (arith, la) in
      let fits : length a ≤ 16 = omega (arith, la) in
      let (r', load, read) =
        accepts-load k p _ _ a r (payload p r offset (addr_len family) low high long) in
      let same : length from_addr ≡ length a = lf ∙ sym la in
      let same' : length to_addr ≡ length a = lt ∙ sym la in
      let test =
        test-accepts op from_addr to_addr a p r' cmp range hf ht wide fits same same' read in
      (_, rw (known, known') refl, load ∙ test)
