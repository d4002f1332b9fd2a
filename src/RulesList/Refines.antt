-- ===== src/RulesList/Refines.antt =====
-- `addRule` and `removeRule` implement the operations of the plain list.
use nftableslib.Base.{
  ℕ, ◌+◌, ◌≡◌, refl, ap, ap₂, sym, ◌∙◌, inl, inr, false, Option, none, some, List, [], ◌∷◌, ◌++◌,
  ok, ◌>>=◌, arith, mem, length-append, ◌==◌, Bool-cases,
}
use nftableslib.Nft.{NfRule}
use nftableslib.RulesList.Node.{
  RuleNode, Heap, modify, RuleStore, set_next, set_prev, set_links, set_rule,
}
use nftableslib.RulesList.Operations.{
  initial_rule_id, advance, allocate, start_with, link_behind, add_after, add_rule,
}
use nftableslib.RulesList.Chain.{
  last_of, modify-here, modify-other, IsChain-modify, last_of-other, IsChain-set_rule,
}
use nftableslib.RulesList.Walks.{get_last_lem}
use nftableslib.RulesList.Changes.{linked, linked-IsChain}
use nftableslib.RulesList.Store.{
  entry, entries, Ledger, new_id, new_entry, append_rule, Below, Runs, ledger, Implements,
}

-- Changes of links leave the entries as they are.
abbrev pub SameEntries : Heap → Heap → Type 0
SameEntries heap heap' = (a : ℕ) → entry (heap' a) ≡ entry (heap a)

pub set_next-SameEntries :
    (heap : Heap) (p : ℕ) (q : Option ℕ) → SameEntries heap (modify heap p (set_next q))
unfolding modify
set_next-SameEntries heap p q a = elim (Bool-cases (a == p)) [
  | inl h ↦ rw h refl
  | inr h ↦ rw h refl
]

pub set_prev-SameEntries :
    (heap : Heap) (p : ℕ) (q : Option ℕ) → SameEntries heap (modify heap p (set_prev q))
unfolding modify
set_prev-SameEntries heap p q a = elim (Bool-cases (a == p)) [
  | inl h ↦ rw h refl
  | inr h ↦ rw h refl
]

pub entries_same :
    (heap heap' : Heap) (ps : List ℕ) → SameEntries heap heap' → entries heap' ps ≡ entries heap ps
entries_same heap heap' [] s = refl
entries_same heap heap' (a ∷ ps) s = ap₂ (λ e es. e ∷ es) (s a) (entries_same heap heap' ps s)

entries-append :
    (heap : Heap) (ps : List ℕ) (e : ℕ)
    → entries heap (ps ++ e ∷ []) ≡ entries heap ps ++ entry (heap e) ∷ []
entries-append heap [] e = refl
entries-append heap (a ∷ ps) e = ap (λ es. entry (heap a) ∷ es) (entries-append heap ps e)

-- A write at an address outside leaves the entries.
entries-modify :
    (heap : Heap) (p : ℕ) (change : RuleNode → RuleNode) (ps : List ℕ)
    → mem p ps ≡ false
    → entries (modify heap p change) ps ≡ entries heap ps
entries-modify heap p change [] h = refl
entries-modify heap p change (a ∷ ps) h =
    ap₂ (λ e es. entry e ∷ es) (modify-other heap p change a (ground arith))
      (entries-modify heap p change ps (ground arith))

Below-fresh : (n : ℕ) (ps : List ℕ) → Below n ps → mem n ps ≡ false
Below-fresh n [] h = refl
Below-fresh n (a ∷ ps) (h, k) = ground (arith, Below-fresh n ps k)

Below-snoc : (n : ℕ) (ps : List ℕ) → Below n ps → Below (n + 1) (ps ++ n ∷ [])
Below-snoc n [] h = (omega arith, tt)
Below-snoc n (a ∷ ps) (h, k) = (omega arith, Below-snoc n ps k)

-- What holds when the new node has been added: it stands behind the nodes ps, whose entries are
-- those of the plain list, and its own entry is the new one.
abbrev pub Appended : RuleNode → RuleStore → Ledger → RuleStore → Type 0
Appended n r l r' =
    (ps : List ℕ) × Runs r' (ps ++ r.allocated ∷ [])
    × (mem r.allocated ps ≡ false)
    × (entries r'.heap ps ≡ l.rules)
    × (entry (r'.heap r.allocated) ≡ new_entry n.rule n.sets l)
    × (r'.current_id ≡ advance (new_id l))

abbrev Added : RuleNode → RuleStore → Ledger → Type 0
Added n r l = (r' : RuleStore) × (add_rule r.allocated (allocate n r) ≡ ok r') × Appended n r l r'

add_first : (n : RuleNode) (r : RuleStore) → Runs r [] → Added n r (ledger r [])
unfolding add_rule add_after
add_first n r (first, chain, low, fits) =
    let e = r.allocated in
    let fresh = modify-here r.heap e (λ _. n) in
    let here = modify-here (modify r.heap e (λ _. n)) e (set_links initial_rule_id none) in
    (
      start_with e (allocate n r),
      ap (λ o. add_after o e (allocate n r)) first,
      (
        [],
        (refl, (rw here refl, rw here refl, refl, tt), (omega arith, tt), omega arith),
        refl,
        refl,
        rw (here, fresh) refl,
        refl,
      ),
    )

add_last :
    (n : RuleNode) (r : RuleStore) (a : ℕ) (ps : List ℕ)
    → Runs r (a ∷ ps)
    → Added n r (ledger r (a ∷ ps))
unfolding add_rule add_after
add_last n r a ps (first, chain, low, fits) =
    let e = r.allocated in
    let last = last_of a ps in
    let r1 = allocate n r in
    let out : mem e (a ∷ ps) ≡ false = Below-fresh e (a ∷ ps) low in
    let chain1 = IsChain-modify r.heap e (λ _. n) none (a ∷ ps) out chain in
    let h2 = modify r1.heap last (set_next (some e)) in
    let h3 = linked r1.heap last e r.current_id in
    let here = modify-here h2 e (set_links r.current_id (some last)) in
    let other = modify-other r1.heap last (set_next (some e)) e (last_of-other e a ps out) in
    let fresh = modify-here r.heap e (λ _. n) in
    let old : entries h3 (a ∷ ps) ≡ entries r.heap (a ∷ ps) =
      entries-modify h2 e (set_links r.current_id (some last)) (a ∷ ps) out
      ∙ (entries_same r1.heap h2 (a ∷ ps) (set_next-SameEntries r1.heap last (some e))
          ∙ entries-modify r.heap e (λ _. n) (a ∷ ps) out) in
    let walk = get_last_lem r1.heap (e + 1) none a ps (omega arith) chain1 in
    (
      link_behind last e r1,
      ap (λ o. add_after o e r1) first ∙ ap (λ o. o >>= λ l. ok (link_behind l e r1)) walk,
      (
        a ∷ ps,
        (
          first,
          linked-IsChain r1.heap e r.current_id none a ps out chain1,
          Below-snoc e (a ∷ ps) low,
          omega (arith, length-append (a ∷ ps) (e ∷ [])),
        ),
        out,
        old,
        rw (here, other, fresh) refl,
        refl,
      ),
    )

pub add_rule-Appended :
    (n : RuleNode) (r : RuleStore) (l : Ledger)
    → Implements r l
    → (r' : RuleStore) × (add_rule r.allocated (allocate n r) ≡ ok r') × Appended n r l r'
add_rule-Appended n r l ([], runs, same) = rw (sym same) (add_first n r runs)
add_rule-Appended n r l (a ∷ ps, runs, same) = rw (sym same) (add_last n r a ps runs)

-- The new node's rule may then be replaced.
pub Appended-Implements :
    (n : RuleNode) (r : RuleStore) (l : Ledger) (r' : RuleStore) (rule : NfRule)
    → Appended n r l r'
    → Implements
        (record r' { heap = modify r'.heap r.allocated (set_rule rule) })
        (append_rule rule n.sets l)
Appended-Implements n r l r' rule (ps, (first, chain, low, fits), out, old, own, next_id) =
    let e = r.allocated in
    let heap = modify r'.heap e (set_rule rule) in
    let here = modify-here r'.heap e (set_rule rule) in
    (
      ps ++ e ∷ [],
      (first, IsChain-set_rule r'.heap e rule none (ps ++ e ∷ []) chain, low, fits),
      ap₂ (λ es m. record { rules = es; next_id = m })
          (entries-append heap ps e
            ∙ ap₂ (λ es x. es ++ x ∷ []) (entries-modify r'.heap e (set_rule rule) ps out ∙ old)
                (rw here (ap (λ x. record { id = x.id; rule = rule; sets = x.sets }) own)))
          next_id,
    )

-- `addRule` with a new node does what `append_rule` does with the plain list: the rule stands at
-- the end, the others stay as they are, and the new node has the id that the list gives out next.
pub add_rule-Implements :
    (n : RuleNode) (r : RuleStore) (l : Ledger)
    → Implements r l
    → (r' : RuleStore) × (add_rule r.allocated (allocate n r) ≡ ok r')
      × Implements r' (append_rule n.rule n.sets l)
      × ((r'.heap r.allocated).id ≡ new_id l)
add_rule-Implements n r l i =
    let (r', added, (ps, runs, out, old, own, next_id)) = add_rule-Appended n r l i in
    (
      r',
      added,
      (
        ps ++ r.allocated ∷ [],
        runs,
        ap₂ (λ es m. record { rules = es; next_id = m })
            (entries-append r'.heap ps r.allocated ∙ ap₂ (λ es x. es ++ x ∷ []) old own) next_id,
      ),
      ap (λ x. x.id) own,
    )
