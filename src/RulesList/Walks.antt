-- ===== src/RulesList/Walks.antt =====
-- The walks of nfruleslist.go on a chain: with as much fuel as there are nodes they end.
use nftableslib.Base.{
  ℕ, zero, suc, ◌+◌, ◌≤◌, ◌≡◌, refl, Bool, Option, some, List, [], ◌∷◌, Outcome, ok, err, Error,
  arith, length, if◌then◌else◌,
}
use nftableslib.RulesList.Node.{RuleNode, Heap}
use nftableslib.RulesList.Operations.{get_last, find_node, dump_from, count_from}
use nftableslib.RulesList.Chain.{first_of, last_of, IsChain}

-- The first address whose node passes a test.
abbrev pub first_passing : (RuleNode → Bool) → Error → Heap → List ℕ → Outcome ℕ
first_passing test missing heap [] = err missing
first_passing test missing heap (a ∷ ps) =
    let rest = first_passing test missing heap ps in if test (heap a) then ok a else rest

module _ (heap : Heap) where
  pub get_last_lem :
      (fuel : ℕ) (prev : Option ℕ) (a : ℕ) (ps : List ℕ)
      → length (a ∷ ps) ≤ fuel
      → IsChain heap prev (a ∷ ps)
      → get_last fuel heap a ≡ ok (last_of a ps)
  unfolding get_last
  get_last_lem zero prev a ps h c = absurd (omega arith)
  get_last_lem (suc fuel) prev a [] h (back, forth, new, rest) = rw (get_last, forth) refl
  get_last_lem (suc fuel) prev a (b ∷ bs) h (back, forth, new, rest) =
      rw (get_last, forth) (get_last_lem fuel (some a) b bs (omega arith) rest)

  pub find_node_lem :
      (test : RuleNode → Bool) (missing : Error) (fuel : ℕ) (prev : Option ℕ) (ps : List ℕ)
      → length ps ≤ fuel
      → IsChain heap prev ps
      → find_node test missing fuel heap (first_of ps) ≡ first_passing test missing heap ps
  unfolding find_node
  find_node_lem test missing fuel prev [] h c = refl
  find_node_lem test missing zero prev (a ∷ ps) h c = absurd (omega arith)
  find_node_lem test missing (suc fuel) prev (a ∷ ps) h (back, forth, new, rest) =
      rw (forth, find_node_lem test missing fuel (some a) ps (omega arith) rest) refl

  pub dump_from_lem :
      (fuel : ℕ) (prev : Option ℕ) (ps : List ℕ)
      → length ps ≤ fuel
      → IsChain heap prev ps
      → dump_from fuel heap (first_of ps) ≡ ok ps
  unfolding dump_from
  dump_from_lem fuel prev [] h c = refl
  dump_from_lem zero prev (a ∷ ps) h c = absurd (omega arith)
  dump_from_lem (suc fuel) prev (a ∷ ps) h (back, forth, new, rest) =
      rw (forth, dump_from_lem fuel (some a) ps (omega arith) rest) refl

  pub count_from_lem :
      (fuel : ℕ) (prev : Option ℕ) (ps : List ℕ) (count : ℕ)
      → length ps ≤ fuel
      → IsChain heap prev ps
      → count_from fuel heap (first_of ps) count ≡ ok (count + length ps)
  unfolding count_from
  count_from_lem fuel prev [] count h c = ground arith
  count_from_lem zero prev (a ∷ ps) count h c = absurd (omega arith)
  count_from_lem (suc fuel) prev (a ∷ ps) count h (back, forth, new, rest) =
      rw forth (ground (arith, count_from_lem fuel (some a) ps (count + 1) (omega arith) rest))
