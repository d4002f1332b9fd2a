-- ===== src/RulesList/InPlace.antt =====
-- A node of the list that is changed where it stands, with its id and its pointers kept.
use nftableslib.Base.{
  ℕ, ◌≡◌, refl, ap, ap₂, sym, ◌∙◌, Bool, true, false, ◌⊎◌, inl, inr, Bool-cases, Option, none, some,
  List, [], ◌∷◌, Outcome, ok, err, rule_not_found, ◌>>=◌, arith, mem, ==_iff, ◌==◌, if◌then◌else◌,
}
use nftableslib.RulesList.Node.{RuleNode, Heap, RuleStore, modify}
use nftableslib.RulesList.Chain.{IsChain, modify-here, modify-other}
use nftableslib.RulesList.Operations.{find_node}
use nftableslib.RulesList.Walks.{first_passing}
use nftableslib.RulesList.Store.{Entry, entry, entries, Ledger, Implements}
use nftableslib.RulesList.Removal.{search_lem}

-- The first entry that passes is replaced.
abbrev pub change_first : (Entry → Bool) → (Entry → Entry) → List Entry → Outcome (List Entry)
change_first test f [] = err rule_not_found
change_first test f (e ∷ es) =
    let rest = change_first test f es in
    if test e then ok (f e ∷ es) else (rest >>= λ es'. ok (e ∷ es'))

-- A change of a node that keeps its pointers, beside the same change of an entry.
pub record InPlace (change : RuleNode → RuleNode) (f : Entry → Entry) : Type 0 where
  pub same_prev : (n : RuleNode) → (change n).prev ≡ n.prev
  pub same_next : (n : RuleNode) → (change n).next ≡ n.next
  pub same_entry : (n : RuleNode) → entry (change n) ≡ f (entry n)

apart : (a e : ℕ) (ps : List ℕ) → mem a ps ≡ false → mem e ps ≡ true → (a == e) ≡ false
apart a e ps out inside = elim (Bool-cases (a == e)) [
  | inl same ↦ absurd (ground (arith, ap (λ x. mem x ps) ((==_iff a e).0 same), out, inside))
  | inr other ↦ other
]

module _ (change : RuleNode → RuleNode) (f : Entry → Entry) (places : InPlace change f) where
  links :
      (heap : Heap) (p a : ℕ)
      → ((modify heap p change a).prev ≡ (heap a).prev)
        × ((modify heap p change a).next ≡ (heap a).next)
  unfolding modify
  links heap p a = elim (Bool-cases (a == p)) [
    | inl same ↦ rw same (places.same_prev (heap a), places.same_next (heap a))
    | inr other ↦ rw other (refl, refl)
  ]

  IsChain-change :
      (heap : Heap) (p : ℕ) (prev : Option ℕ) (ps : List ℕ)
      → IsChain heap prev ps
      → IsChain (modify heap p change) prev ps
  IsChain-change heap p prev [] c = tt
  IsChain-change heap p prev (a ∷ ps) (back, forth, new, rest) =
      let (same_prev, same_next) = links heap p a in
      (same_prev ∙ back, same_next ∙ forth, new, IsChain-change heap p (some a) ps rest)

  entries-outside :
      (heap : Heap) (p : ℕ) (ps : List ℕ)
      → mem p ps ≡ false
      → entries (modify heap p change) ps ≡ entries heap ps
  entries-outside heap p [] h = refl
  entries-outside heap p (a ∷ ps) h =
      let other : (a == p) ≡ false = ground (arith, h) in
      ap₂ (λ n es. entry n ∷ es) (modify-other heap p change a other)
        (entries-outside heap p ps (ground (arith, h)))

  -- Either no node passes, or the walk finds one, and changing it changes the first entry that passes.
  abbrev pub Changes : (RuleNode → Bool) → (Entry → Bool) → Heap → List ℕ → Type 0
  Changes test test' heap ps =
      ((first_passing test rule_not_found heap ps ≡ err rule_not_found)
        × (change_first test' f (entries heap ps) ≡ err rule_not_found))
      ⊎ ((e : ℕ) × (first_passing test rule_not_found heap ps ≡ ok e)
          × (mem e ps ≡ true)
          × (change_first test' f (entries heap ps) ≡ ok (entries (modify heap e change) ps)))

  changes :
      (test : RuleNode → Bool) (test' : Entry → Bool) (heap : Heap) (prev : Option ℕ) (ps : List ℕ)
      → ((n : RuleNode) → test n ≡ test' (entry n))
      → IsChain heap prev ps
      → Changes test test' heap ps
  changes test test' heap prev [] h c = inl (refl, refl)
  changes test test' heap prev (a ∷ ps) h (back, forth, new, rest) =
      let same = h (heap a) in
      elim (Bool-cases (test' (entry (heap a)))) [
        | inl here ↦ inr (
          a,
          ground (arith, same, here),
          ground arith,
          rw here (
              ap₂ (λ e es. ok (e ∷ es))
                (sym (ap entry (modify-here heap a change) ∙ places.same_entry (heap a)))
                (sym (entries-outside heap a ps new))),
        )
        | inr other ↦ elim (changes test test' heap (some a) ps h rest) [
          | inl (walk, changed) ↦
              inl (ground (arith, same, other, walk), ground (arith, other, changed))
          | inr (e, walk, inside, changed) ↦ inr (
            e,
            ground (arith, same, other, walk),
            ground (arith, inside),
            rw (other, changed)
                (ap (λ n. ok (entry n ∷ entries (modify heap e change) ps))
                  (sym (modify-other heap e change a (apart a e ps new inside)))),
          )
        ]
      ]

  -- On a list on the heap, looking up the first node that passes either finds none, and neither does
  -- the plain list; or it finds a node, and changing that node gives a heap that implements the plain
  -- list with its first entry that passes replaced.
  pub change_found :
      (test : RuleNode → Bool) (test' : Entry → Bool) (r : RuleStore) (l : Ledger)
      → ((n : RuleNode) → test n ≡ test' (entry n))
      → Implements r l
      → ((find_node test rule_not_found r.allocated r.heap r.rules ≡ err rule_not_found)
          × (change_first test' f l.rules ≡ err rule_not_found))
        ⊎ ((e : ℕ) × (es : List Entry) × (find_node test rule_not_found r.allocated r.heap r.rules
              ≡ ok e)
            × (change_first test' f l.rules ≡ ok es)
            × Implements (record r { heap = modify r.heap e change }) (record l { rules = es }))
  change_found test test' r l h (ps, runs, same) =
      let (first, chain, low, fits) = runs in
      let walk = search_lem test rule_not_found r ps runs in
      let listed = ap (λ x. change_first test' f x.rules) (sym same) in
      elim (changes test test' r.heap none ps h chain) [
        | inl (none_found, unchanged) ↦ inl (walk ∙ none_found, listed ∙ unchanged)
        | inr (e, found, inside, changed) ↦ inr (
          e,
          entries (modify r.heap e change) ps,
          walk ∙ found,
          listed ∙ changed,
          (
            ps,
            (first, IsChain-change r.heap e none ps chain, low, fits),
            ap (λ x. record { rules = entries (modify r.heap e change) ps; next_id = x.next_id })
                same,
          ),
        )
      ]
