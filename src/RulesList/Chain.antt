-- ===== src/RulesList/Chain.antt =====
-- Which addresses a list of nodes runs through, from one end to the other and back.
use nftableslib.Base.{
  ℕ, ◌≡◌, refl, ◌∙◌, true, false, inl, inr, Bool-cases, Option, none, some, List, [], ◌∷◌, arith,
  mem, ◌==◌,
}
use nftableslib.Nft.{NfRule}
use nftableslib.RulesList.Node.{RuleNode, Heap, modify, set_rule}

abbrev pub first_of : List ℕ → Option ℕ
first_of [] = none
first_of (a ∷ ps) = some a

abbrev pub last_of : ℕ → List ℕ → ℕ
last_of a [] = a
last_of a (b ∷ bs) = last_of b bs

-- The addresses differ, `next` leads from each to the one behind it and `prev` to the one
-- before it; prev is the pointer that the first node holds.
abbrev pub IsChain : Heap → (prev : Option ℕ) → List ℕ → Type 0
IsChain heap prev [] = Unit
IsChain heap prev (a ∷ ps) =
    ((heap a).prev ≡ prev)
    × ((heap a).next ≡ first_of ps)
    × (mem a ps ≡ false)
    × IsChain heap (some a) ps

module _ (heap : Heap) (p : ℕ) (change : RuleNode → RuleNode) where
  pub modify-here : modify heap p change p ≡ change (heap p)
  unfolding modify
  modify-here = ground arith

  pub modify-other : (a : ℕ) → (a == p) ≡ false → modify heap p change a ≡ heap a
  unfolding modify
  modify-other a h = rw h

  -- A node outside the chain may change.
  pub IsChain-modify :
      (prev : Option ℕ) (ps : List ℕ)
      → mem p ps ≡ false
      → IsChain heap prev ps
      → IsChain (modify heap p change) prev ps
  IsChain-modify prev [] h c = tt
  IsChain-modify prev (a ∷ ps) h (back, forth, new, rest) =
      rw (modify-other a (ground arith))
        (back, forth, new, IsChain-modify (some a) ps (ground arith) rest)

mem-last_of : (a : ℕ) (ps : List ℕ) → mem (last_of a ps) (a ∷ ps) ≡ true
mem-last_of a [] = ground arith
mem-last_of a (b ∷ bs) = ground (arith, mem-last_of b bs)

pub last_of-other : (a b : ℕ) (bs : List ℕ) → mem a (b ∷ bs) ≡ false → (a == last_of b bs) ≡ false
last_of-other a b [] h = ground arith
last_of-other a b (c ∷ bs) h = ground (arith, last_of-other a c bs)

module _ (heap : Heap) (p : ℕ) (rule : NfRule) where
  set_rule-links :
      (a : ℕ)
      → ((modify heap p (set_rule rule) a).prev ≡ (heap a).prev)
        × ((modify heap p (set_rule rule) a).next ≡ (heap a).next)
  unfolding modify
  set_rule-links a = elim (Bool-cases (a == p)) [
    | inl same ↦ rw same (refl, refl)
    | inr other ↦ rw other (refl, refl)
  ]

  -- A node's rule may change.
  pub IsChain-set_rule :
      (prev : Option ℕ) (ps : List ℕ)
      → IsChain heap prev ps
      → IsChain (modify heap p (set_rule rule)) prev ps
  IsChain-set_rule prev [] c = tt
  IsChain-set_rule prev (a ∷ ps) (back, forth, new, rest) =
      let (same_prev, same_next) = set_rule-links a in
      (same_prev ∙ back, same_next ∙ forth, new, IsChain-set_rule (some a) ps rest)
