-- ===== src/Tests/Json.antt =====
-- A rule as JSON text.
use nftableslib.Base.{
  ℕ, zero, suc, ◌≡◌, refl, false, none, some, List, [], ◌∷◌, ◌++◌, ◌||◌, ◌==◌, ltb, if◌then◌else◌,
  Option, Bytes, ok, pos,
}
use nftableslib.Nft.{Table, Expr, NfRule, NfSet, SetElement, SetDatatype}
use nftableslib.Rules.Sets.{RuleSet}
use nftableslib.RulesList.{RuleNode, RuleStore}
use nftableslib.RulesList.Store.{entries, Ledger}
use nftableslib.Json.Format.{codes, hex, hex2}
use nftableslib.Json.Tree.{
  Json, Items, null, bool, number, text, object, no_items, item, no_fields, field, render,
}
use nftableslib.Json.Address.{build_ipv6_string}
use nftableslib.Json.Rule.{Encoding}
use nftableslib.Tests.Fixtures.{little_endian, table, named_set}

abbrev type_json : SetDatatype → Json
type_json SetDatatype.ip_addr_type =
    object
      (field (codes "Name") (text (codes "ipv4_addr")) (field (codes "Bytes") (number 4) no_fields))
type_json t = object (field (codes "Name") (text []) (field (codes "Bytes") (number 0) no_fields))

abbrev table_json : (Bytes → Bytes) → Option Table → Json
table_json spell none = null
table_json spell (some t) = object (
    field (codes "Name") (text (spell t.name)) (
      field (codes "Use") (number 0)
        (field (codes "Flags") (number 0) (field (codes "Family") (number t.family) no_fields))))

-- The fields of a set in their order, a nil table as null.
abbrev set_fields : (Bytes → Bytes) → NfSet → Json
set_fields spell s = object (
    field (codes "Table") (table_json spell s.table) (
      field (codes "ID") (number s.id) (
        field (codes "Name") (text (spell s.name)) (
          field (codes "Anonymous") (bool s.anonymous) (
            field (codes "Constant") (bool s.constant) (
              field (codes "Interval") (bool s.interval) (
                field (codes "IsMap") (bool s.is_map) (
                  field (codes "HasTimeout") (bool s.has_timeout) (
                    field (codes "Timeout") (number s.timeout) (
                      field (codes "KeyType") (type_json s.key_type)
                        (field (codes "DataType") (type_json s.data_type) no_fields)))))))))))

abbrev set_json : NfSet → Json
set_json s = set_fields (λ name. name) s

-- What may not stand in a text as it is.
abbrev escaped : Bytes → Bytes
escaped [] = []
escaped (c ∷ s) =
    let more = escaped s in
    if c == 34 || (c == 92 || ltb c 32) then codes "\\u00" ++ (hex2 c ++ more) else c ∷ more

instance abbrev encoder : Encoding
encoder = record {
  marshal_set = λ s. ok (render (set_fields escaped s));
  marshal_table = λ t. ok [];
  marshal_chain = λ c. ok [];
  compact = λ t. ok t;
}

abbrev address : SetElement
address = record {
  key = 10 ∷ 0 ∷ 0 ∷ 1 ∷ [];
  value = [];
  interval_end = false;
  verdict_data = none;
}

abbrev address_set : RuleSet
address_set = record { set = named_set; elements = address ∷ [] }

abbrev rule_of : List Expr → NfRule
rule_of exprs = record {
  table = table;
  chain = codes "input";
  position = 0;
  handle = 0;
  exprs = exprs;
  user_data = none;
}

abbrev accepting : Expr
accepting = Expr.verdict (record { kind = pos 1; chain = [] })

abbrev written : Items
written =
    item
      (object (
        field (codes "Key") (text (codes "expr.MetaKeyL4PROTO"))
          (field (codes "Register") (number 1) no_fields)))
      (item (object (field (codes "Kind") (text (codes "0x1")) no_fields)) no_items)

-- 2001:db8::1 and ::
compressed :
    build_ipv6_string (0x20 ∷ 1 ∷ 0xd ∷ 0xb8 ∷ 0 ∷ 0 ∷ 0 ∷ 0 ∷ 0 ∷ 0 ∷ 0 ∷ 0 ∷ 0 ∷ 0 ∷ 0 ∷ 1 ∷ [])
    ≡ ok (codes "2001:db8::1")
unfolding build_ipv6_string hex hex2
compressed = refl

unspecified :
    build_ipv6_string (0 ∷ 0 ∷ 0 ∷ 0 ∷ 0 ∷ 0 ∷ 0 ∷ 0 ∷ 0 ∷ 0 ∷ 0 ∷ 0 ∷ 0 ∷ 0 ∷ 0 ∷ 0 ∷ [])
    ≡ ok (codes "::")
unfolding build_ipv6_string hex hex2
unspecified = refl

-- A rule that accepts, and one with a counter.
abbrev at_address : ℕ → RuleNode
at_address zero = record {
  id = 10;
  rule = rule_of (accepting ∷ []);
  sets = [];
  next = some 1;
  prev = none;
}
at_address (suc _) = record {
  id = 20;
  rule = rule_of (Expr.counter ∷ accepting ∷ []);
  sets = [];
  next = none;
  prev = some 0;
}

abbrev counting : RuleStore
counting = record { heap = at_address; allocated = 2; current_id = 30; rules = some 0 }

abbrev counting_rules : Ledger
counting_rules = record { rules = entries at_address (0 ∷ 1 ∷ []); next_id = 30 }
