-- ===== src/Registers/Packing.antt =====
-- nfconcatrule.go: the pieces of a concatenated key lie side by side, so that one lookup from
-- register 1 reads them as one key.
use nftableslib.Base.{
  ℕ, ◌+◌, ◌≤◌, ◌≡◌, refl, sym, ap, ◌∙◌, inl, inr, Bool, true, Option, none, some, List, [], ◌∷◌,
  ◌++◌, Outcome, ok, arith, both,
}
use nftableslib.Nft.{Family, family_ipv6, Expr, SetDatatype}
use nftableslib.Rule.{SetRef, ConcatElement, Concat}
use nftableslib.Expressions.Header.{layout}
use nftableslib.Expressions.Concat.{
  load_element, load_elements, next_register, concat_lookup, expr_for_concat,
}
use nftableslib.Registers.Keys.{
  Piece, piece_of, pieces_of, load_piece, words, register_of, packed_key, loaded_from, key_lookup,
  IsIp, type_fits, all_fit, is_narrow, first_narrow, extra_of, layout_of,
}

layout-known : (family : Family) → IsIp family → layout family ≡ ok (layout_of family)
unfolding layout
layout-known family (inl four) = rw four refl
layout-known family (inr six) = rw six refl

load_element-piece :
    (family : Family) (register : ℕ) (source : Bool) (t : SetDatatype)
    → type_fits family t ≡ true
    → load_element (layout_of family) register source t
      ≡ ok (load_piece register (piece_of family source t) ∷ [], extra_of t)
unfolding load_element
load_element-piece family register source SetDatatype.ip_addr_type h = ground arith
load_element-piece family register source SetDatatype.ip6_addr_type h = ground arith
load_element-piece family register source SetDatatype.inet_proto_type h = ground arith
load_element-piece family register source SetDatatype.inet_service_type h = refl
load_element-piece family register source _ h = absurd (cc)

words-extra :
    (family : Family) (source : Bool) (t : SetDatatype)
    → type_fits family t ≡ true
    → words (piece_of family source t) ≡ extra_of t + 1
words-extra family source SetDatatype.ip_addr_type h = ground arith
words-extra family source SetDatatype.ip6_addr_type h = ground arith
words-extra family source SetDatatype.inet_proto_type h = ground arith
words-extra family source SetDatatype.inet_service_type h = refl
words-extra family source _ h = absurd (cc)

-- From any register but the first few on, the pieces follow one another.
load_elements-from :
    (family : Family) (register : ℕ) (es : List (Option ConcatElement))
    → 2 ≤ register
    → all_fit family es ≡ true
    → load_elements (layout_of family) register es ≡ ok (loaded_from register (pieces_of family es))
unfolding load_elements loaded_from next_register
load_elements-from family register [] far h = refl
load_elements-from family register (none ∷ es) far h = absurd (cc)
load_elements-from family register (some e ∷ es) far h =
    let (here, others) = both (type_fits family e.e_type) (all_fit family es) h in
    let wide = words-extra family e.e_source e.e_type here in
    let next : next_register (register + extra_of e.e_type)
        ≡ register + words (piece_of family e.e_source e.e_type) =
      ground (arith, wide) in
    let rest =
      load_elements-from family (register + words (piece_of family e.e_source e.e_type)) es
        (omega arith) others in
    rw (load_element-piece family register e.e_source e.e_type here) (rw (next, rest) refl)

-- The whole key: the first piece in register 1.
load_elements-first :
    (family : Family) (e : ConcatElement) (es : List (Option ConcatElement)) (behind : ℕ)
    → next_register (1 + extra_of e.e_type) ≡ behind
    → 2 ≤ behind
    → all_fit family (some e ∷ es) ≡ true
    → load_elements (layout_of family) 1 (some e ∷ es)
      ≡ ok (
          load_piece 1 (piece_of family e.e_source e.e_type)
          ∷ loaded_from behind (pieces_of family es))
unfolding load_elements
load_elements-first family e es behind next far h =
    let (here, others) = both (type_fits family e.e_type) (all_fit family es) h in
    rw (load_element-piece family 1 e.e_source e.e_type here)
      (rw (next, load_elements-from family behind es far others) refl)

-- Behind word 0 the two ways to number the registers are one.
loaded_from-packed :
    (register word : ℕ) (ps : List Piece)
    → register ≡ word + 8
    → 1 ≤ word
    → loaded_from register ps ≡ packed_key word ps
unfolding loaded_from packed_key
loaded_from-packed register word [] e far = refl
loaded_from-packed register word (p ∷ ps) e far =
    let here : register_of word ≡ register = ground arith in
    let rest =
      loaded_from-packed (register + words p) (word + words p) ps (omega arith) (omega arith) in
    rw (here, rest) refl

narrow_extra : (t : SetDatatype) → is_narrow t ≡ true → extra_of t ≡ 0
narrow_extra SetDatatype.ip6_addr_type h = absurd (cc)
narrow_extra _ h = refl

key-packed :
    (family : Family) (es : List (Option ConcatElement))
    → all_fit family es ≡ true
    → first_narrow es ≡ true
    → load_elements (layout_of family) 1 es ≡ ok (packed_key 0 (pieces_of family es))
unfolding load_elements packed_key next_register
key-packed family [] h n = refl
key-packed family (none ∷ es) h n = absurd (cc)
key-packed family (some e ∷ es) h n =
    let still = narrow_extra e.e_type n in
    let next : next_register (1 + extra_of e.e_type) ≡ 9 = rw still refl in
    let (here, others) = both (type_fits family e.e_type) (all_fit family es) h in
    let one : words (piece_of family e.e_source e.e_type) ≡ 1 =
      words-extra family e.e_source e.e_type here ∙ rw still refl in
    load_elements-first family e es 9 next (omega arith) h
    ∙ rw (one, loaded_from-packed 9 1 (pieces_of family es) refl (omega arith)) refl

concat_lookup-key : (ref : Option SetRef) → concat_lookup ref ≡ key_lookup ref
unfolding concat_lookup
concat_lookup-key none = refl
concat_lookup-key (some ref) = refl

built :
    (family : Family) (c : Concat) (exprs : List Expr)
    → IsIp family
    → load_elements (layout_of family) 1 c.elements ≡ ok exprs
    → expr_for_concat family c ≡ ok (exprs ++ key_lookup c.set_ref)
unfolding expr_for_concat
built family c exprs ip loaded =
    rw (layout-known family ip) (rw (loaded, concat_lookup-key c.set_ref) refl)

-- In an IPv4 or IPv6 table a concatenation is built, provided that each element is an address of
-- the family, a protocol or a port, and the first is not an IPv6 address: one load for each element
-- and nothing else, in their order, of the bytes where the headers have it, each into the 4-byte
-- words right behind those of the one before it, from register 1 on; then the lookup with register
-- 1, if the concatenation has a verdict map.
pub expr_for_concat-eq-packed_key :
    (family : Family) (c : Concat)
    → IsIp family
    → all_fit family c.elements ≡ true
    → first_narrow c.elements ≡ true
    → expr_for_concat family c
      ≡ ok (packed_key 0 (pieces_of family c.elements) ++ key_lookup c.set_ref)
expr_for_concat-eq-packed_key family c ip h n =
    built family c _ ip (key-packed family c.elements h n)

wide_next : (t : SetDatatype) → t ≡ SetDatatype.ip6_addr_type → next_register (1 + extra_of t) ≡ 5
unfolding next_register
wide_next t six = rw six refl

-- The register of the second expression that is built, if it is a load.
second_register : Outcome (List Expr) → ℕ
second_register (ok (e ∷ Expr.payload register base offset len ∷ es)) = register
second_register _ = 0

second-loaded_from :
    (p q : Piece) (ps : List Piece) (tail : List Expr)
    → second_register (ok (load_piece 1 p ∷ loaded_from 5 (q ∷ ps) ++ tail)) ≡ 5
unfolding second_register loaded_from
second-loaded_from p q ps tail = refl

second-packed_key :
    (p q : Piece) (ps : List Piece) (tail : List Expr)
    → words p ≡ 4
    → second_register (ok (packed_key 0 (p ∷ q ∷ ps) ++ tail)) ≡ 12
unfolding second_register packed_key
second-packed_key p q ps tail wide = rw wide refl

-- In an IPv6 table a concatenation that begins with an IPv6 address, and has other elements behind
-- it, each an IPv6 address, a protocol or a port, is built: the address is loaded into register 1
-- and the others from register 5 on, each as many registers behind the one before it as that has
-- 4-byte words, and the lookup follows. That is not the key in adjacent words, whose second piece
-- is in register 12.
pub expr_for_concat-ip6_first :
    (c : Concat) (e1 e2 : ConcatElement) (es : List (Option ConcatElement))
    → c.elements ≡ some e1 ∷ some e2 ∷ es
    → e1.e_type ≡ SetDatatype.ip6_addr_type
    → all_fit family_ipv6 (some e2 ∷ es) ≡ true
    → (expr_for_concat family_ipv6 c
        ≡ ok (
            load_piece 1 (piece_of family_ipv6 e1.e_source e1.e_type)
              ∷ loaded_from 5 (pieces_of family_ipv6 (some e2 ∷ es))
            ++ key_lookup c.set_ref))
      × ¬ (
          expr_for_concat family_ipv6 c
          ≡ ok (packed_key 0 (pieces_of family_ipv6 c.elements) ++ key_lookup c.set_ref))
expr_for_concat-ip6_first c e1 e2 es shape first h =
    let family = family_ipv6 in
    let p1 = piece_of family e1.e_source e1.e_type in
    let p2 = piece_of family e2.e_source e2.e_type in
    let ps = pieces_of family es in
    let fits : type_fits family e1.e_type ≡ true = rw first refl in
    let wide : words p1 ≡ 4 = words-extra family e1.e_source e1.e_type fits ∙ rw first refl in
    let made = built family c (load_piece 1 p1 ∷ loaded_from 5 (p2 ∷ ps)) (inr refl) (
      rw shape (
        load_elements-first family e1 (some e2 ∷ es) 5 (wide_next e1.e_type first) (omega arith)
          (rw fits h))) in
    (
      made,
      λ packed.
          let tail = key_lookup c.set_ref in
          let key : expr_for_concat family c ≡ ok (packed_key 0 (p1 ∷ p2 ∷ ps) ++ tail) =
            packed ∙ rw shape refl in
          let gap : 5 ≡ 12 =
            sym (second-loaded_from p1 p2 ps tail)
            ∙ (ap second_register (sym made ∙ key) ∙ second-packed_key p1 p2 ps tail wide) in
          omega arith,
    )
