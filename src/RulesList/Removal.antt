-- ===== src/RulesList/Removal.antt =====
-- `removeRule` drops the first rule with the id from the plain list.
use nftableslib.Base.{
  Bool, ℕ, ◌≤◌, ◌≡◌, refl, ap, ap₂, sym, ◌∙◌, inl, inr, ◌⊎◌, true, false, Option, none, some, List,
  [], ◌∷◌, ◌++◌, Outcome, ok, err, panic, blocked, Error, id_not_found, ◌>>=◌, arith, length,
  length-append, ◌==◌, Bool-cases,
}
use nftableslib.RulesList.Node.{RuleNode, Heap, modify, RuleStore, set_next}
use nftableslib.RulesList.Operations.{find_node, has_id, unlink, remove_rule}
use nftableslib.RulesList.Chain.{first_of, last_of, IsChain}
use nftableslib.RulesList.Walks.{first_passing, find_node_lem}
use nftableslib.RulesList.Changes.{
  link_back, link_back-IsChain, bypassed, bypassed-IsChain, last_or, IsChain-neighbours,
}
use nftableslib.RulesList.Store.{entries, Ledger, drop_first, Below, Runs, ledger, Implements}
use nftableslib.RulesList.Refines.{
  SameEntries, set_next-SameEntries, set_prev-SameEntries, entries_same,
}

-- Both have a result, and the results are related, or both have the same error.
abbrev pub Matches : {A B : Type 0} → (A → B → Type 0) → Outcome A → Outcome B → Type 0
Matches R (ok a) (ok b) = R a b
Matches R (err e) (err f) = e ≡ f
Matches R panic panic = Unit
Matches R blocked blocked = Unit
Matches R _ _ = true ≡ false

abbrev pub remove_entry : ℕ → Ledger → Outcome Ledger
remove_entry id l = drop_first id l.rules >>= λ es. ok (record { rules = es; next_id = l.next_id })

abbrev Missing : Heap → ℕ → List ℕ → Type 0
Missing heap id ps =
    (first_passing (has_id id) id_not_found heap ps ≡ err id_not_found)
    × (drop_first id (entries heap ps) ≡ err id_not_found)

abbrev Present : Heap → ℕ → List ℕ → Type 0
Present heap id ps =
    (before : List ℕ) × (x : ℕ) × (behind : List ℕ) × (ps ≡ before ++ x ∷ behind)
    × (first_passing (has_id id) id_not_found heap ps ≡ ok x)
    × (drop_first id (entries heap ps) ≡ ok (entries heap (before ++ behind)))

Missing-or-Present : (heap : Heap) (id : ℕ) (ps : List ℕ) → Missing heap id ps ⊎ Present heap id ps
Missing-or-Present heap id [] = inl (refl, refl)
Missing-or-Present heap id (a ∷ ps) = elim (Bool-cases ((heap a).id == id)) [
  | inl here ↦ inr ([], a, ps, refl, rw here refl, rw here refl)
  | inr other ↦ elim (Missing-or-Present heap id ps) [
    | inl (walk, dropped) ↦ inl (rw (other, walk) refl, rw (other, dropped) refl)
    | inr (before, x, behind, split, walk, dropped) ↦ inr (
      a ∷ before,
      x,
      behind,
      ap (λ qs. a ∷ qs) split,
      rw (other, walk) refl,
      rw (other, dropped) refl,
    )
  ]
]

link_back-SameEntries :
    (heap : Heap) (prev : Option ℕ) (ps : List ℕ) → SameEntries heap (link_back heap prev ps)
link_back-SameEntries heap prev [] a = refl
link_back-SameEntries heap prev (b ∷ bs) a = set_prev-SameEntries heap b prev a

bypassed-SameEntries : (heap : Heap) (p : ℕ) (ps : List ℕ) → SameEntries heap (bypassed heap p ps)
bypassed-SameEntries heap p ps a =
    link_back-SameEntries (modify heap p (set_next (first_of ps))) (some p) ps a
    ∙ set_next-SameEntries heap p (first_of ps) a

Below-remove :
    (n : ℕ) (ps : List ℕ) (x : ℕ) (qs : List ℕ) → Below n (ps ++ x ∷ qs) → Below n (ps ++ qs)
Below-remove n [] x qs (_, h) = h
Below-remove n (a ∷ ps) x qs (h, k) = (h, Below-remove n ps x qs k)

length-remove :
    (n : ℕ) (ps : List ℕ) (x : ℕ) (qs : List ℕ) → length (ps ++ x ∷ qs) ≤ n → length (ps ++ qs) ≤ n
length-remove n ps x qs h = omega (arith, length-append ps (x ∷ qs), length-append ps qs)

abbrev Unlinked : RuleStore → List ℕ → List ℕ → Type 0
Unlinked r before behind =
    let r' = unlink (last_or none before) (first_of behind) r in
    Runs r' (before ++ behind) × SameEntries r.heap r'.heap × (r'.current_id ≡ r.current_id)

unlink_lem :
    (r : RuleStore) (before : List ℕ) (x : ℕ) (behind : List ℕ)
    → Runs r (before ++ x ∷ behind)
    → Unlinked r before behind
unfolding unlink
unlink_lem r [] x [] (first, (_, _, _, rest), low, fits) =
    ((refl, tt, tt, omega arith), λ a. refl, refl)
unlink_lem r [] x (b ∷ bs) (first, (_, _, _, rest), (_, low), fits) = (
  (refl, link_back-IsChain r.heap (some x) none (b ∷ bs) rest, low, omega arith),
  link_back-SameEntries r.heap none (b ∷ bs),
  refl,
)
unlink_lem r (a ∷ ps) x [] (first, chain, low, fits) = (
  (
    first,
    bypassed-IsChain r.heap none a ps x [] chain,
    Below-remove _ (a ∷ ps) x [] low,
    length-remove _ (a ∷ ps) x [] fits,
  ),
  bypassed-SameEntries r.heap (last_of a ps) [],
  refl,
)
unlink_lem r (a ∷ ps) x (b ∷ bs) (first, chain, low, fits) = (
  (
    first,
    bypassed-IsChain r.heap none a ps x (b ∷ bs) chain,
    Below-remove _ (a ∷ ps) x (b ∷ bs) low,
    length-remove _ (a ∷ ps) x (b ∷ bs) fits,
  ),
  bypassed-SameEntries r.heap (last_of a ps) (b ∷ bs),
  refl,
)

-- The walk from the first pointer of the store.
pub search_lem :
    (test : RuleNode → Bool) (missing : Error) (r : RuleStore) (ps : List ℕ)
    → Runs r ps
    → find_node test missing r.allocated r.heap r.rules ≡ first_passing test missing r.heap ps
search_lem test missing r ps (first, chain, low, fits) =
    ap (find_node test missing r.allocated r.heap) first
    ∙ find_node_lem r.heap test missing r.allocated none ps fits chain

Runs-IsChain : (r : RuleStore) (ps : List ℕ) → Runs r ps → IsChain r.heap none ps
Runs-IsChain r ps (first, chain, low, fits) = chain

remove-Missing :
    (id : ℕ) (r : RuleStore) (ps : List ℕ)
    → Runs r ps
    → Missing r.heap id ps
    → Matches Implements (remove_rule id r) (remove_entry id (ledger r ps))
unfolding remove_rule
remove-Missing id r ps runs (walk, dropped) =
    rw (remove_rule, search_lem (has_id id) id_not_found r ps runs, walk, dropped) refl

remove-Present :
    (id : ℕ) (r : RuleStore) (ps : List ℕ)
    → Runs r ps
    → Present r.heap id ps
    → Matches Implements (remove_rule id r) (remove_entry id (ledger r ps))
unfolding remove_rule
remove-Present id r ps runs (before, x, behind, split, walk, dropped) =
    let runs' : Runs r (before ++ x ∷ behind) = rw split at runs in
    let (back, forth) =
      IsChain-neighbours r.heap none before x behind
        (Runs-IsChain r (before ++ x ∷ behind) runs') in
    let (after, same, next_id) = unlink_lem r before x behind runs' in
    rw (remove_rule, search_lem (has_id id) id_not_found r ps runs, walk, dropped, back, forth)
      (
        before ++ behind,
        after,
        ap₂ (λ es n. record { rules = es; next_id = n })
            (entries_same r.heap (unlink (last_or none before) (first_of behind) r).heap
              (before ++ behind) same)
            next_id,
      )

-- `removeRule` on the list on the heap and `remove_entry` on the plain list: either both drop the
-- first rule with the id and keep the others in order, or both say that there is none.
pub remove_rule-Implements :
    (id : ℕ) (r : RuleStore) (l : Ledger)
    → Implements r l
    → Matches Implements (remove_rule id r) (remove_entry id l)
remove_rule-Implements id r l (ps, runs, same) =
    rw (sym same) (elim (Missing-or-Present r.heap id ps) [
      | inl missing ↦ remove-Missing id r ps runs missing
      | inr present ↦ remove-Present id r ps runs present
    ])
