-- ===== src/Json/Marshals.antt =====
-- The text of an expression is the text of its JSON value.
use mathlib.Core.List.{append_assoc}
use nftableslib.Base.{
  ℕ, ℤ, ◌≡◌, refl, true, false, Option, none, some, [], ◌∷◌, ◌++◌, Bytes, Outcome, ok, err,
  unknown_expression, arith, inl, inr, Bool-cases, ltb, leb, length, ◌==◌,
}
use nftableslib.Nft.{Expr, log_prefix, log_level, log_group, log_snaplen, log_qthreshold, Verdict}
use nftableslib.Host.{BinaryUtil}
use nftableslib.Json.Format.{codes}
use nftableslib.Json.Tree.{Json, number, render, render_items, is_clean, is_plain}
use nftableslib.Json.Names.{byte_items}
use nftableslib.Json.Expression.{marshal_expression, marshal_log, log_number}
use nftableslib.Json.ExpressionTree.{byte_texts, expression_json, log_tree, log_json, is_printable}
use nftableslib.Json.Plain.{
  sharp_hex-IsPlain, byte_texts-IsClean, meta_key_name-IsPlain, cmp_op_name-IsPlain,
  base_name-IsPlain, bool_text-IsPlain,
}

pub byte_items-render : (bs : Bytes) → byte_items bs ++ 93 ∷ [] ≡ render_items (byte_texts bs) true
unfolding byte_items byte_texts render
byte_items-render [] = refl
byte_items-render (b ∷ []) = refl
byte_items-render (b ∷ c ∷ bs) = rw (append_assoc, byte_items-render (c ∷ bs)) refl

-- An expression with a value is written as that value's text, which reads back; one without is
-- refused.
abbrev pub Marshals : Outcome Bytes → Option Json → Type 0
Marshals written none = written ≡ err unknown_expression
Marshals written (some v) = (written ≡ ok (render v)) × (is_clean v ≡ true)

ruleset plain = (
  sharp_hex-IsPlain, byte_texts-IsClean, meta_key_name-IsPlain, cmp_op_name-IsPlain,
  base_name-IsPlain, bool_text-IsPlain,
)

module _ ⦃bin : BinaryUtil⦄ where
  log_number-Marshals :
      (key content : Bytes)
      → is_plain key ≡ true
      → leb 4 (length content) ≡ true
      → Marshals (log_number key content) (some (log_json key (number (bin.be_uint32 content))))
  unfolding render is_clean is_plain
  log_number-Marshals key content plain long =
      let read : ltb (length content) 4 ≡ false = ground arith in rw read (refl, simp plain)

  log-Marshals :
      (key : ℕ) (content : Bytes)
      → is_printable (Expr.log key content) ≡ true
      → Marshals (marshal_log key content) (some (log_tree key content))
  unfolding marshal_log is_printable render is_clean is_plain
  log-Marshals key content h = elim (Bool-cases (key == log_prefix)) [
    | inl prefix ↦ rw prefix (refl, simp (rw prefix at h))
    | inr p ↦ elim (Bool-cases (key == log_level)) [
      | inl level ↦ rw (p, level) (refl, simp (rw (p, level) at h))
      | inr l ↦ elim (Bool-cases (key == log_group)) [
        | inl group ↦
            rw (p, l, group)
              (log_number-Marshals (codes "unix.NFTA_LOG_GROUP") content refl
                (rw (p, l, group) at h))
        | inr g ↦ elim (Bool-cases (key == log_snaplen)) [
          | inl snap ↦
              rw (p, l, g, snap)
                (log_number-Marshals (codes "unix.NFTA_LOG_SNAPLEN") content refl
                  (rw (p, l, g, snap) at h))
          | inr s ↦ elim (Bool-cases (key == log_qthreshold)) [
            | inl q ↦
                rw (p, l, g, s, q)
                  (log_number-Marshals (codes "unix.NFTA_LOG_QTHRESHOLD") content refl
                    (rw (p, l, g, s, q) at h))
            | inr q ↦ rw (p, l, g, s, q) (rw (byte_items-render content) refl, simp plain)
          ]
        ]
      ]
    ]
  ]

  verdict-Marshals :
      (kind : ℤ) (chain : Bytes)
      → is_plain chain ≡ true
      → let v : Verdict = record { kind = kind; chain = chain } in
        Marshals (marshal_expression (Expr.verdict v)) (expression_json (Expr.verdict v))
  unfolding marshal_expression expression_json render is_clean is_plain
  verdict-Marshals kind [] h = (refl, simp plain)
  verdict-Marshals kind (c ∷ cs) h = (refl, simp (plain, h))

  pub expression-Marshals :
      (e : Expr) → is_printable e ≡ true → Marshals (marshal_expression e) (expression_json e)
  unfolding marshal_expression expression_json is_printable render is_clean is_plain
  expression-Marshals (Expr.meta key register source_register) h = (refl, simp plain)
  expression-Marshals (Expr.cmp op register content) h =
      (rw (byte_items-render content) refl, simp plain)
  expression-Marshals (Expr.payload dest_register base offset len) h = (refl, simp plain)
  expression-Marshals (Expr.immediate register content) h =
      (rw (byte_items-render content) refl, simp plain)
  expression-Marshals (Expr.verdict v) h = verdict-Marshals v.kind v.chain h
  expression-Marshals (Expr.redir proto_min proto_max) h = (refl, simp plain)
  expression-Marshals (Expr.reject reject_type reject_code) h = (refl, simp plain)
  expression-Marshals (Expr.tproxy family table_family reg_port) h = (refl, simp plain)
  expression-Marshals (Expr.lookup e) h = (refl, simp (plain, h))
  expression-Marshals (Expr.log key content) h = log-Marshals key content h
  expression-Marshals (Expr.range op register from_data to_data) h =
      (rw (byte_items-render from_data, byte_items-render to_data) refl, simp plain)
  expression-Marshals (Expr.bitwise source_register dest_register len mask xor) h =
      (rw (byte_items-render mask, byte_items-render xor) refl, simp plain)
  expression-Marshals (Expr.nat e) h = (refl, simp plain)
  expression-Marshals (Expr.masq e) h = refl
  expression-Marshals (Expr.fib e) h = refl
  expression-Marshals (Expr.ct key register) h = refl
  expression-Marshals (Expr.numgen register modulus ng_type offset) h = refl
  expression-Marshals (Expr.dynset e) h = refl
  expression-Marshals Expr.counter h = refl
