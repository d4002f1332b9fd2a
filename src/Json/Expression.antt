-- ===== src/Json/Expression.antt =====
-- `marshalExpression` of nfrules_marshal.go: one expression as JSON text.
use nftableslib.Base.{
  ℕ, [], ◌∷◌, ◌++◌, Bytes, Outcome, ok, err, panic, unknown_expression, u32, ltb, length, ◌==◌,
  if◌then◌else◌,
}
use nftableslib.Nft.{
  Expr, Verdict, LookupExpr, NatExpr, log_prefix, log_level, log_group, log_snaplen, log_qthreshold,
}
use nftableslib.Host.{BinaryUtil}
use nftableslib.Json.Format.{codes, quote, decimal, sharp_hex, bool_text}
use nftableslib.Json.Names.{append_all, byte_array, meta_key_name, cmp_op_name, base_name}

-- The chain is left out if its name is empty.
abbrev verdict_chain : Bytes → Bytes
verdict_chain [] = []
verdict_chain (c ∷ cs) = codes ",\"Chain\":" ++ quote (c ∷ cs)

unfoldable pub marshal_verdict : Verdict → Bytes
marshal_verdict v =
    append_all
      (codes "{\"Kind\":" ∷ quote (sharp_hex (u32 v.kind)) ∷ verdict_chain v.chain ∷ codes "}" ∷ [])

unfoldable pub marshal_lookup : LookupExpr → Bytes
marshal_lookup e = append_all (
    codes "{\"SourceRegister\":"
    ∷ decimal e.source_register
    ∷ codes ",\"DestRegister\":"
    ∷ decimal e.dest_register
    ∷ codes ",\"SetID\":"
    ∷ decimal e.set_id
    ∷ codes ",\"SetName\":"
    ∷ quote e.set_name
    ∷ codes ",\"Invert\":"
    ∷ quote (bool_text e.invert)
    ∷ codes "}"
    ∷ [])

unfoldable pub marshal_nat : NatExpr → Bytes
marshal_nat e = append_all (
    codes "{\"Type\":"
    ∷ decimal e.nat_type
    ∷ codes ",\"Family\":"
    ∷ decimal e.family
    ∷ codes ",\"RegAddrMin\":"
    ∷ decimal e.reg_addr_min
    ∷ codes ",\"RegAddrMax\":"
    ∷ decimal e.reg_addr_max
    ∷ codes ",\"RegProtoMin\":"
    ∷ decimal e.reg_proto_min
    ∷ codes ",\"RegProtoMax\":"
    ∷ decimal e.reg_proto_max
    ∷ codes ",\"Random\":"
    ∷ quote (bool_text e.random)
    ∷ codes ",\"FullyRandom\":"
    ∷ quote (bool_text e.fully_random)
    ∷ codes ",\"Persistent\":"
    ∷ quote (bool_text e.persistent)
    ∷ codes "}"
    ∷ [])

-- A named key of a log statement, with its value.
abbrev log_text : (key value : Bytes) → Bytes
log_text key value =
    append_all (codes "{\"Key\":" ∷ quote key ∷ codes ",\"Value\":" ∷ value ∷ codes "}" ∷ [])

module _ ⦃bin : BinaryUtil⦄ where
  -- `binaryutil.BigEndian.Uint32(e.Data)`, which reads four bytes.
  abbrev pub log_number : (key content : Bytes) → Outcome Bytes
  log_number key content =
      if ltb (length content) 4 then panic else ok (log_text key (decimal (bin.be_uint32 content)))

  unfoldable pub marshal_log : ℕ → Bytes → Outcome Bytes
  marshal_log key content =
      if key == log_prefix
      then ok (log_text (codes "unix.NFTA_LOG_PREFIX") (quote content))
      else if key == log_level
      then ok (log_text (codes "unix.NFTA_LOG_LEVEL") (quote content))
      else if key == log_group
      then log_number (codes "unix.NFTA_LOG_GROUP") content
      else if key == log_snaplen
      then log_number (codes "unix.NFTA_LOG_SNAPLEN") content
      else if key == log_qthreshold
      then log_number (codes "unix.NFTA_LOG_QTHRESHOLD") content
      else ok (log_text (codes "Unknown") (byte_array content))

  -- The flags of a redirection are none that the package sets.
  unfoldable pub marshal_expression : Expr → Outcome Bytes
  unfolding marshal_log marshal_verdict marshal_lookup marshal_nat
  marshal_expression (Expr.meta key register source_register) = ok (
      append_all (
        codes "{\"Key\":"
        ∷ quote (meta_key_name key)
        ∷ codes ",\"Register\":"
        ∷ decimal register
        ∷ codes "}"
        ∷ []))
  marshal_expression (Expr.cmp op register content) = ok (
      append_all (
        codes "{\"Op\":"
        ∷ quote (cmp_op_name op)
        ∷ codes ",\"Register\":"
        ∷ decimal register
        ∷ codes ",\"Data\":"
        ∷ byte_array content
        ∷ codes "}"
        ∷ []))
  marshal_expression (Expr.payload dest_register base offset len) = ok (
      append_all (
        codes "{\"DestRegister\":"
        ∷ decimal dest_register
        ∷ codes ",\"Base\":"
        ∷ quote (base_name base)
        ∷ codes ",\"Len\":"
        ∷ decimal len
        ∷ codes ",\"Offset\":"
        ∷ decimal offset
        ∷ codes "}"
        ∷ []))
  marshal_expression (Expr.immediate register content) = ok (
      append_all (
        codes "{\"Register\":"
        ∷ decimal register
        ∷ codes ",\"Data\":"
        ∷ byte_array content
        ∷ codes "}"
        ∷ []))
  marshal_expression (Expr.verdict v) = ok (marshal_verdict v)
  marshal_expression (Expr.redir proto_min proto_max) = ok (
      append_all (
        codes "{\"RegisterProtoMin\":"
        ∷ decimal proto_min
        ∷ codes ",\"RegisterProtoMax\":"
        ∷ decimal proto_max
        ∷ codes ",\"Flags\":"
        ∷ quote (sharp_hex 0)
        ∷ codes "}"
        ∷ []))
  marshal_expression (Expr.reject reject_type reject_code) = ok (
      append_all (
        codes "{\"Type\":"
        ∷ decimal reject_type
        ∷ codes ",\"Code\":"
        ∷ quote (sharp_hex reject_code)
        ∷ codes "}"
        ∷ []))
  marshal_expression (Expr.tproxy family table_family reg_port) = ok (
      append_all (
        codes "{\"Family\":"
        ∷ decimal family
        ∷ codes ",\"TableFamily\":"
        ∷ decimal table_family
        ∷ codes ",\"RegPort\":"
        ∷ quote (sharp_hex reg_port)
        ∷ codes "}"
        ∷ []))
  marshal_expression (Expr.lookup e) = ok (marshal_lookup e)
  marshal_expression (Expr.log key content) = marshal_log key content
  marshal_expression (Expr.range op register from_data to_data) = ok (
      append_all (
        codes "{\"Register\":"
        ∷ decimal register
        ∷ codes ",\"Op\":"
        ∷ quote (cmp_op_name op)
        ∷ codes ",\"FromData\":"
        ∷ byte_array from_data
        ∷ codes ",\"ToData\":"
        ∷ byte_array to_data
        ∷ codes "}"
        ∷ []))
  marshal_expression (Expr.bitwise source_register dest_register len mask xor) = ok (
      append_all (
        codes "{\"SourceRegister\":"
        ∷ decimal source_register
        ∷ codes ",\"DestRegister\":"
        ∷ decimal dest_register
        ∷ codes ",\"Len\":"
        ∷ decimal len
        ∷ codes ",\"Mask\":"
        ∷ byte_array mask
        ∷ codes ",\"Xor\":"
        ∷ byte_array xor
        ∷ codes "}"
        ∷ []))
  marshal_expression (Expr.nat e) = ok (marshal_nat e)
  marshal_expression (Expr.masq e) = err unknown_expression
  marshal_expression (Expr.fib e) = err unknown_expression
  marshal_expression (Expr.ct key register) = err unknown_expression
  marshal_expression (Expr.numgen register modulus ng_type offset) = err unknown_expression
  marshal_expression (Expr.dynset e) = err unknown_expression
  marshal_expression Expr.counter = err unknown_expression
