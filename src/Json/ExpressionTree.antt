-- ===== src/Json/ExpressionTree.antt =====
-- The JSON value that an expression's text is meant to be, described without the text.
use nftableslib.Base.{
  ℕ, Bool, true, ◌||◌, [], ◌∷◌, Bytes, Option, none, some, u32, leb, length, ◌==◌, if◌then◌else◌,
}
use nftableslib.Nft.{Expr, log_prefix, log_level, log_group, log_snaplen, log_qthreshold}
use nftableslib.Host.{BinaryUtil}
use nftableslib.Json.Format.{codes, sharp_hex, bool_text}
use nftableslib.Json.Tree.{
  Json, Items, Fields, number, text, array, object, no_items, item, no_fields, field, is_plain,
}
use nftableslib.Json.Names.{meta_key_name, cmp_op_name, base_name}

-- Bytes as texts in hexadecimal.
unfoldable pub byte_texts : Bytes → Items
byte_texts [] = no_items
byte_texts (b ∷ bs) = item (text (sharp_hex b)) (byte_texts bs)

abbrev pub bytes_json : Bytes → Json
bytes_json bs = array (byte_texts bs)

abbrev pub bool_json : Bool → Json
bool_json b = text (bool_text b)

abbrev chain_field : Bytes → Fields
chain_field [] = no_fields
chain_field (c ∷ cs) = field (codes "Chain") (text (c ∷ cs)) no_fields

abbrev pub log_json : (key : Bytes) → Json → Json
log_json key value = object (field (codes "Key") (text key) (field (codes "Value") value no_fields))

module _ ⦃bin : BinaryUtil⦄ where
  abbrev pub log_tree : ℕ → Bytes → Json
  log_tree key content =
      if key == log_prefix
      then log_json (codes "unix.NFTA_LOG_PREFIX") (text content)
      else if key == log_level
      then log_json (codes "unix.NFTA_LOG_LEVEL") (text content)
      else if key == log_group
      then log_json (codes "unix.NFTA_LOG_GROUP") (number (bin.be_uint32 content))
      else if key == log_snaplen
      then log_json (codes "unix.NFTA_LOG_SNAPLEN") (number (bin.be_uint32 content))
      else if key == log_qthreshold
      then log_json (codes "unix.NFTA_LOG_QTHRESHOLD") (number (bin.be_uint32 content))
      else log_json (codes "Unknown") (bytes_json content)

  -- The expressions that have no text are `none`.
  unfoldable pub expression_json : Expr → Option Json
  expression_json (Expr.meta key register source_register) = some (
      object (
        field (codes "Key") (text (meta_key_name key))
          (field (codes "Register") (number register) no_fields)))
  expression_json (Expr.cmp op register content) = some (
      object (
        field (codes "Op") (text (cmp_op_name op)) (
          field (codes "Register") (number register)
            (field (codes "Data") (bytes_json content) no_fields))))
  expression_json (Expr.payload dest_register base offset len) = some (
      object (
        field (codes "DestRegister") (number dest_register) (
          field (codes "Base") (text (base_name base))
            (field (codes "Len") (number len) (field (codes "Offset") (number offset) no_fields)))))
  expression_json (Expr.immediate register content) = some (
      object (
        field (codes "Register") (number register)
          (field (codes "Data") (bytes_json content) no_fields)))
  expression_json (Expr.verdict v) =
      some (object (field (codes "Kind") (text (sharp_hex (u32 v.kind))) (chain_field v.chain)))
  expression_json (Expr.redir proto_min proto_max) = some (
      object (
        field (codes "RegisterProtoMin") (number proto_min) (
          field (codes "RegisterProtoMax") (number proto_max)
            (field (codes "Flags") (text (sharp_hex 0)) no_fields))))
  expression_json (Expr.reject reject_type reject_code) = some (
      object (
        field (codes "Type") (number reject_type)
          (field (codes "Code") (text (sharp_hex reject_code)) no_fields)))
  expression_json (Expr.tproxy family table_family reg_port) = some (
      object (
        field (codes "Family") (number family) (
          field (codes "TableFamily") (number table_family)
            (field (codes "RegPort") (text (sharp_hex reg_port)) no_fields))))
  expression_json (Expr.lookup e) = some (
      object (
        field (codes "SourceRegister") (number e.source_register) (
          field (codes "DestRegister") (number e.dest_register) (
            field (codes "SetID") (number e.set_id) (
              field (codes "SetName") (text e.set_name)
                (field (codes "Invert") (bool_json e.invert) no_fields))))))
  expression_json (Expr.log key content) = some (log_tree key content)
  expression_json (Expr.range op register from_data to_data) = some (
      object (
        field (codes "Register") (number register) (
          field (codes "Op") (text (cmp_op_name op)) (
            field (codes "FromData") (bytes_json from_data)
              (field (codes "ToData") (bytes_json to_data) no_fields)))))
  expression_json (Expr.bitwise source_register dest_register len mask xor) = some (
      object (
        field (codes "SourceRegister") (number source_register) (
          field (codes "DestRegister") (number dest_register) (
            field (codes "Len") (number len) (
              field (codes "Mask") (bytes_json mask)
                (field (codes "Xor") (bytes_json xor) no_fields))))))
  expression_json (Expr.nat e) = some (
      object (
        field (codes "Type") (number e.nat_type) (
          field (codes "Family") (number e.family) (
            field (codes "RegAddrMin") (number e.reg_addr_min) (
              field (codes "RegAddrMax") (number e.reg_addr_max) (
                field (codes "RegProtoMin") (number e.reg_proto_min) (
                  field (codes "RegProtoMax") (number e.reg_proto_max) (
                    field (codes "Random") (bool_json e.random) (
                      field (codes "FullyRandom") (bool_json e.fully_random)
                        (field (codes "Persistent") (bool_json e.persistent) no_fields))))))))))
  expression_json e = none

-- The names and prefixes that are written between quotes as they are stand for themselves, and the
-- number of a log statement has its four bytes.
unfoldable pub is_printable : Expr → Bool
is_printable (Expr.verdict v) = is_plain v.chain
is_printable (Expr.lookup e) = is_plain e.set_name
is_printable (Expr.log key content) =
    if key == log_prefix || key == log_level
    then is_plain content
    else if key == log_group || (key == log_snaplen || key == log_qthreshold)
    then leb 4 (length content)
    else true
is_printable e = true
