-- ===== src/Registers/Concat.antt =====
-- nfconcatrule.go: when a concatenated key is loaded before it is looked up.
use nftableslib.Base.{
  ℕ, ◌+◌, ◌≡◌, refl, Bool, true, false, Option, none, some, List, [], ◌∷◌, ◌++◌, Outcome, ok, err,
  panic, blocked, ◌>>=◌,
}
use mathlib.Core.List.{append_assoc}
use nftableslib.Nft.{Expr, SetDatatype}
use nftableslib.Rule.{SetRef, ConcatElement, Concat}
use nftableslib.Expressions.Header.{Layout, layout}
use nftableslib.Expressions.Concat.{
  load_element, load_elements, next_register, concat_lookup, expr_for_concat,
}
use nftableslib.Registers.Append.{
  loads_before_use, loads_before_use-append, IsSafe, IsSafe-append, IsSafe-known,
}
use nftableslib.Registers.Ensures.{OnOk, OnOk-bind}

abbrev type_loads : SetDatatype → Bool
type_loads SetDatatype.ether_addr_type = false
type_loads _ = true

-- The first element loads something: it is not an Ethernet address, for which the switch has an
-- empty case.
abbrev first_loads : List (Option ConcatElement) → Bool
first_loads [] = false
first_loads (none ∷ es) = false
first_loads (some e ∷ es) = type_loads e.e_type

-- A concatenation whose key is looked up has such a first element.
abbrev pub concat_loads : Option Concat → Bool
concat_loads none = true
concat_loads (some c) = elim c.set_ref [ none ↦ true | some ref ↦ first_loads c.elements ]

-- Elements only load.
element-IsSafe :
    (l : Layout) (register : ℕ) (source : Bool) (t : SetDatatype)
    → OnOk (λ p. IsSafe p.0) (load_element l register source t)
unfolding load_element loads_before_use
element-IsSafe l register source SetDatatype.ip_addr_type = refl
element-IsSafe l register source SetDatatype.ip6_addr_type = refl
element-IsSafe l register source SetDatatype.ether_addr_type = refl
element-IsSafe l register source SetDatatype.inet_proto_type = refl
element-IsSafe l register source SetDatatype.inet_service_type = refl
element-IsSafe l register source _ = tt

elements-IsSafe :
    (l : Layout) (register : ℕ) (es : List (Option ConcatElement))
    → OnOk IsSafe (load_elements l register es)
unfolding load_elements loads_before_use
elements-IsSafe l register [] = refl
elements-IsSafe l register (none ∷ es) = tt
elements-IsSafe l register (some e ∷ es) =
    OnOk-bind (λ p. IsSafe p.0) IsSafe _ _ (element-IsSafe l register e.e_source e.e_type)
      λ p safe.
        OnOk-bind IsSafe IsSafe _ _ (elements-IsSafe l (next_register (register + p.1)) es)
          λ rest safe'. IsSafe-append p.0 rest safe safe'

abbrev LoadsFirst : List Expr × ℕ → Type 0
LoadsFirst p = (rest : List Expr) → loads_before_use (1 ∷ []) rest ≡ true → IsSafe (p.0 ++ rest)

-- What follows a first element that loads may use register 1.
element_then :
    (l : Layout) (source : Bool) (t : SetDatatype)
    → type_loads t ≡ true
    → OnOk LoadsFirst (load_element l 1 source t)
unfolding load_element loads_before_use
element_then l source SetDatatype.ip_addr_type h = λ rest k. k
element_then l source SetDatatype.ip6_addr_type h = λ rest k. k
element_then l source SetDatatype.ether_addr_type h = absurd (cc)
element_then l source SetDatatype.inet_proto_type h = λ rest k. k
element_then l source SetDatatype.inet_service_type h = λ rest k. k
element_then l source _ h = tt

-- The lookup may stand behind a key whose first element loads.
loaded_key :
    (l : Layout) (ref : SetRef) (es : List (Option ConcatElement))
    → first_loads es ≡ true
    → OnOk (λ exprs. IsSafe (exprs ++ concat_lookup (some ref))) (load_elements l 1 es)
unfolding load_elements concat_lookup loads_before_use
loaded_key l ref [] h = cc
loaded_key l ref (none ∷ es) h = tt
loaded_key l ref (some e ∷ es) h =
    OnOk-bind LoadsFirst (λ exprs. IsSafe (exprs ++ concat_lookup (some ref))) _ _
      (element_then l e.e_source e.e_type h)
      λ p safe.
        OnOk-bind IsSafe (λ exprs. IsSafe (exprs ++ concat_lookup (some ref))) _ _
          (elements-IsSafe l (next_register (1 + p.1)) es)
          λ rest safe'. rw append_assoc (
            safe (rest ++ concat_lookup (some ref)) (
              loads_before_use-append rest (concat_lookup (some ref)) (1 ∷ [])
                (IsSafe-known (1 ∷ []) rest safe') refl))

key_and_lookup :
    (l : Layout) (es : List (Option ConcatElement)) (ref : Option SetRef)
    → (elim ref [ none ↦ true | some r ↦ first_loads es ]) ≡ true
    → OnOk IsSafe (load_elements l 1 es >>= λ exprs. ok (exprs ++ concat_lookup ref))
unfolding concat_lookup loads_before_use
key_and_lookup l es none h =
    OnOk-bind IsSafe IsSafe _ _ (elements-IsSafe l 1 es)
      λ exprs safe. IsSafe-append exprs [] safe refl
key_and_lookup l es (some ref) h =
    OnOk-bind (λ exprs. IsSafe (exprs ++ concat_lookup (some ref))) IsSafe _ _
      (loaded_key l ref es h) λ exprs safe. safe

pub concat-IsSafe :
    (family : ℕ) (c : Concat)
    → concat_loads (some c) ≡ true
    → OnOk IsSafe (expr_for_concat family c)
unfolding expr_for_concat
concat-IsSafe family c h =
    OnOk-bind (λ l. Unit {0}) IsSafe (layout family) _ (trivial (layout family))
      λ l u. key_and_lookup l c.elements c.set_ref h
  where
    trivial : (o : Outcome Layout) → OnOk (λ l. Unit {0}) o
    trivial (ok l) = tt
    trivial (err e) = tt
    trivial panic = tt
    trivial blocked = tt
