-- ===== src/Semantics/Port.antt =====
-- The expressions of a port, and of a range of ports, match the packets of the protocol whose port is
-- that one, or lies in the range.
use nftableslib.Base.{
  ℕ, ◌+◌, ◌/◌, ◌%◌, ◌^◌, ◌<◌, ◌≤◌, ◌≡◌, refl, ap, ◌∙◌, false, not, ◌&&◌, Option, some, List, [],
  ◌∷◌, ◌++◌, Bytes, ok, arith, length, ◌==◌, if◌then◌else◌,
}
use nftableslib.Nft.{Expr, CmpOp, PayloadBase, NfSet, meta_key_l4proto}
use nftableslib.Host.{BinaryUtil}
use nftableslib.Rule.{Operator, eq_op}
use nftableslib.Expressions.Address.{cmp_op, is_neq}
use nftableslib.Expressions.Port.{
  load_port, list_port_test, range_port_test, expr_for_list_port, expr_for_range_port, check_ports,
}
use nftableslib.Lifecycle.Stamp.{IsBigEndian}
use nftableslib.Ranges.Value.{value}
use nftableslib.Semantics.Kernel.{Kernel, holds, is_within, accepts, RunsPayload, RunsMeta, RunsCmp}
use nftableslib.Semantics.Steps.{window, length-window, holds-cmp_op, accepts-load, accepts-cmp}

-- The number of a port in two bytes.
value-port : (n : ℕ) → n < 2 ^ 16 → value (n / 256 ∷ n % 256 ∷ []) ≡ n
value-port n h = omega arith

value-byte : (n : ℕ) → value (n ∷ []) ≡ n
value-byte n = omega arith

module _ (k : Kernel) where
  -- The port of a packet: two bytes of the transport header.
  abbrev pub port_at : (offset : ℕ) → k.Packet → ℕ
  port_at offset p = value (window offset 2 (k.transport_header p))

  -- The protocol is tested and the port is loaded before the test that follows.
  load_port-accepts :
      (l4_proto offset : ℕ) (test : List Expr) (p : k.Packet) (r : k.Registers)
      → RunsPayload k PayloadBase.transport k.transport_header
      → RunsMeta k
      → RunsCmp k
      → l4_proto < 256
      → offset + 2 ≤ length (k.transport_header p)
      → (r' : k.Registers) × (k.read 1 2 r' ≡ window offset 2 (k.transport_header p))
        × (accepts k (load_port l4_proto offset ++ test) p r
            ≡ ((k.l4_protocol p == l4_proto) && accepts k test p r'))
  unfolding holds
  load_port-accepts l4_proto offset test p r payload loads_proto cmp small long =
      let port = window offset 2 (k.transport_header p) in
      let load = Expr.payload 1 PayloadBase.transport offset 2 in
      let proto : Bytes = k.l4_protocol p ∷ [] in
      let proto_test = Expr.cmp CmpOp.eq 1 (l4_proto ∷ []) in
      let meta = Expr.meta meta_key_l4proto 1 false in
      let after : List Expr = proto_test ∷ load ∷ test in
      let (r₁, e₁, read₁) = accepts-load k p meta after proto r (loads_proto p r) in
      let same : length (l4_proto ∷ []) ≡ length proto = refl in
      let e₂ =
        accepts-cmp k p CmpOp.eq (l4_proto ∷ []) proto (load ∷ test) r₁ cmp (small, tt)
          (omega arith) (omega arith) same read₁ in
      let (r₂, e₃, read₂) =
        accepts-load k p load test port r₁
          (payload p r₁ offset 2 (omega arith) (omega arith) long) in
      let two = length-window offset 2 (k.transport_header p) long in
      (
        r₂,
        rw two at read₂,
        e₁ ∙ (e₂ ∙ rw (e₃, value-byte (k.l4_protocol p), value-byte l4_proto) refl),
      )

  module _ ⦃bin : BinaryUtil⦄ where
    port_test-accepts :
        (op : CmpOp) (offset port : ℕ) (es : List Expr) (p : k.Packet) (r : k.Registers)
        → RunsCmp k
        → IsBigEndian bin
        → port < 2 ^ 16
        → offset + 2 ≤ length (k.transport_header p)
        → k.read 1 2 r ≡ window offset 2 (k.transport_header p)
        → accepts k (Expr.cmp op 1 (bin.be_put_uint16 port) ∷ es) p r
          ≡ (holds op (port_at offset p) port && accepts k es p r)
    port_test-accepts op offset port es p r cmp (put, get) small long read =
        let a = window offset 2 (k.transport_header p) in
        let two = length-window offset 2 (k.transport_header p) long in
        let bytes : Bytes = port / 256 ∷ port % 256 ∷ [] in
        let read' : k.read 1 (length a) r ≡ a = rw two read in
        let test =
          accepts-cmp k p op bytes a es r cmp (omega arith, (omega arith, tt)) (omega arith)
            (omega arith) (omega (arith, two)) read' in
        rw (put port small) (rw (value-port port small) at test)

    -- A range of ports gives, for EQ, expressions that match exactly the packets of the protocol whose
    -- port lies in the range.
    expr_for_range_port-accepts :
        (l4_proto offset from to : ℕ) (p : k.Packet) (r : k.Registers)
        → RunsPayload k PayloadBase.transport k.transport_header
        → RunsMeta k
        → RunsCmp k
        → IsBigEndian bin
        → (l4_proto == 0) ≡ false
        → l4_proto < 256
        → from < 2 ^ 16
        → to < 2 ^ 16
        → offset + 2 ≤ length (k.transport_header p)
        → (es : List Expr) × (expr_for_range_port l4_proto offset (some from) (some to) eq_op
            ≡ ok es)
          × (accepts k es p r
              ≡ ((k.l4_protocol p == l4_proto) && is_within from to (port_at offset p)))
    unfolding expr_for_range_port range_port_test holds accepts
    expr_for_range_port-accepts l4_proto offset from to p r payload loads_proto cmp (put, get) known
          byte lf lt long =
        let gte = Expr.cmp CmpOp.gte 1 (bin.be_put_uint16 from) in
        let lte = Expr.cmp CmpOp.lte 1 (bin.be_put_uint16 to) in
        let (r', read, e) =
          load_port-accepts l4_proto offset (gte ∷ lte ∷ []) p r payload loads_proto cmp byte
            long in
        (
          load_port l4_proto offset ++ gte ∷ lte ∷ [],
          rw known refl,
          e
              ∙ rw
                  (
                    port_test-accepts CmpOp.gte offset from (lte ∷ []) p r' cmp (put, get) lf long
                        read,
                    port_test-accepts CmpOp.lte offset to [] p r' cmp (put, get) lt long read,
                  )
                  (ground arith),
        )

    -- One port gives expressions that match exactly the packets of the protocol whose port is that one
    -- for EQ, and another one for NEQ.
    expr_for_list_port-accepts :
        (l4_proto offset port : ℕ) (op : Operator) (set : Option NfSet) (p : k.Packet)
        (r : k.Registers)
        → RunsPayload k PayloadBase.transport k.transport_header
        → RunsMeta k
        → RunsCmp k
        → IsBigEndian bin
        → (l4_proto == 0) ≡ false
        → l4_proto < 256
        → port < 2 ^ 16
        → offset + 2 ≤ length (k.transport_header p)
        → (es : List Expr) × (expr_for_list_port l4_proto offset (some port ∷ []) op set ≡ ok es)
          × (accepts k es p r ≡ (
              (k.l4_protocol p == l4_proto)
              && (if is_neq op then not (port_at offset p == port) else port_at offset p == port)))
    unfolding expr_for_list_port list_port_test check_ports holds accepts
    expr_for_list_port-accepts l4_proto offset port op set p r payload loads_proto cmp (put, get)
          known byte lp long =
        let test = Expr.cmp (cmp_op op) 1 (bin.be_put_uint16 port) in
        let (r', read, e) =
          load_port-accepts l4_proto offset (test ∷ []) p r payload loads_proto cmp byte long in
        (
          load_port l4_proto offset ++ test ∷ [],
          rw known refl,
          e
              ∙ rw (port_test-accepts (cmp_op op) offset port [] p r' cmp (put, get) lp long read) (
                  ap (λ b. (k.l4_protocol p == l4_proto) && b)
                    (holds-cmp_op op (port_at offset p) port)),
        )

    -- On any machine with a register of 16 bytes that runs the instructions payload, meta and cmp
    -- as documented, for a protocol of 8 bits that is not 0 and ports of 16 bits: one port gives
    -- expressions that match exactly the packets of the protocol whose port, two bytes of the
    -- transport header at the offset, is that one for EQ, and another one for NEQ; a range of ports
    -- for EQ gives expressions that match exactly the packets of the protocol whose port lies in
    -- the range. The packet's transport header has the bytes that are loaded, and binaryutil's
    -- BigEndian is as documented.
    pub expr_for_ports-accept :
        (l4_proto offset from to : ℕ) (op : Operator) (set : Option NfSet) (p : k.Packet)
        (r : k.Registers)
        → RunsPayload k PayloadBase.transport k.transport_header
        → RunsMeta k
        → RunsCmp k
        → IsBigEndian bin
        → (l4_proto == 0) ≡ false
        → l4_proto < 256
        → from < 2 ^ 16
        → to < 2 ^ 16
        → offset + 2 ≤ length (k.transport_header p)
        → ((es : List Expr) × (expr_for_list_port l4_proto offset (some from ∷ []) op set ≡ ok es)
            × (accepts k es p r ≡ (
                (k.l4_protocol p == l4_proto)
                && (if is_neq op
                    then not (port_at offset p == from)
                    else port_at offset p == from))))
          × ((es : List Expr) × (expr_for_range_port l4_proto offset (some from) (some to) eq_op
                ≡ ok es)
              × (accepts k es p r
                  ≡ ((k.l4_protocol p == l4_proto) && is_within from to (port_at offset p))))
    expr_for_ports-accept l4_proto offset from to op set p r payload loads_proto cmp be known byte
          lf lt long =
        (
          expr_for_list_port-accepts l4_proto offset from op set p r payload loads_proto cmp be
              known byte lf long,
          expr_for_range_port-accepts l4_proto offset from to p r payload loads_proto cmp be known
              byte lf lt long,
        )
