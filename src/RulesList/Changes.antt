-- ===== src/RulesList/Changes.antt =====
-- What `addRule` and `removeRule` do to a chain.
use nftableslib.Base.{ℕ, ◌≡◌, refl, false, Option, some, List, [], ◌∷◌, ◌++◌, arith, mem, ◌==◌}
use nftableslib.RulesList.Node.{Heap, modify, set_next, set_prev, set_links}
use nftableslib.RulesList.Chain.{
  first_of, last_of, IsChain, modify-here, modify-other, IsChain-modify, last_of-other,
}

mem-snoc :
    (a : ℕ) (ps : List ℕ) (e : ℕ)
    → mem a ps ≡ false
    → (a == e) ≡ false
    → mem a (ps ++ e ∷ []) ≡ false
mem-snoc a [] e h k = ground arith
mem-snoc a (b ∷ ps) e h k = ground (arith, mem-snoc a ps e)

-- The two writes of `addRule` to a list that is not empty.
abbrev pub linked : Heap → (last e id : ℕ) → Heap
linked heap last e id = modify (modify heap last (set_next (some e))) e (set_links id (some last))

pub linked-IsChain :
    (heap : Heap) (e id : ℕ) (prev : Option ℕ) (a : ℕ) (ps : List ℕ)
    → mem e (a ∷ ps) ≡ false
    → IsChain heap prev (a ∷ ps)
    → IsChain (linked heap (last_of a ps) e id) prev (a ∷ ps ++ e ∷ [])
linked-IsChain heap e id prev a [] h (back, forth, new, rest) =
    let h1 = modify heap a (set_next (some e)) in
    let other = modify-other h1 e (set_links id (some a)) a (ground arith) in
    let here = modify-here heap a (set_next (some e)) in
    let last = modify-here h1 e (set_links id (some a)) in
    (
      rw (other, here) back,
      rw (other, here) refl,
      ground arith,
      (rw last refl, rw last refl, refl, tt),
    )
linked-IsChain heap e id prev a (b ∷ bs) h (back, forth, new, rest) =
    let last = last_of b bs in
    let h1 = modify heap last (set_next (some e)) in
    let other = modify-other h1 e (set_links id (some last)) a (ground arith) in
    let here = modify-other heap last (set_next (some e)) a (last_of-other a b bs new) in
    (
      rw (other, here) back,
      rw (other, here) forth,
      mem-snoc a (b ∷ bs) e new (ground arith),
      linked-IsChain heap e id (some a) b bs (ground arith) rest,
    )

-- The write of `removeRule` to the node behind the removed one.
abbrev pub link_back : Heap → Option ℕ → List ℕ → Heap
link_back heap prev [] = heap
link_back heap prev (b ∷ bs) = modify heap b (set_prev prev)

pub link_back-IsChain :
    (heap : Heap) (old prev : Option ℕ) (ps : List ℕ)
    → IsChain heap old ps
    → IsChain (link_back heap prev ps) prev ps
link_back-IsChain heap old prev [] c = tt
link_back-IsChain heap old prev (b ∷ bs) (back, forth, new, rest) =
    let here = modify-here heap b (set_prev prev) in
    (rw here refl, rw here forth, new, IsChain-modify heap b (set_prev prev) (some b) bs new rest)

-- Both writes, for a node between p and the nodes ps.
abbrev pub bypassed : Heap → ℕ → List ℕ → Heap
bypassed heap p ps = link_back (modify heap p (set_next (first_of ps))) (some p) ps

link_back-other :
    (heap : Heap) (prev : Option ℕ) (ps : List ℕ) (a : ℕ)
    → mem a ps ≡ false
    → link_back heap prev ps a ≡ heap a
link_back-other heap prev [] a h = refl
link_back-other heap prev (b ∷ bs) a h = modify-other heap b (set_prev prev) a (ground arith)

mem-append :
    (a : ℕ) (ps qs : List ℕ) → mem a (ps ++ qs) ≡ false → (mem a ps ≡ false) × (mem a qs ≡ false)
mem-append a [] qs h = (refl, h)
mem-append a (b ∷ ps) qs h = ground (arith, mem-append a ps qs)

mem-remove :
    (a : ℕ) (ps : List ℕ) (x : ℕ) (qs : List ℕ)
    → mem a (ps ++ x ∷ qs) ≡ false
    → mem a (ps ++ qs) ≡ false
mem-remove a [] x qs h = ground arith
mem-remove a (b ∷ ps) x qs h = ground (arith, mem-remove a ps x qs)

pub bypassed-IsChain :
    (heap : Heap) (prev : Option ℕ) (a : ℕ) (ps : List ℕ) (x : ℕ) (qs : List ℕ)
    → IsChain heap prev (a ∷ ps ++ x ∷ qs)
    → IsChain (bypassed heap (last_of a ps) qs) prev (a ∷ ps ++ qs)
bypassed-IsChain heap prev a [] x qs (back, forth, new, (_, _, _, rest)) =
    let h1 = modify heap a (set_next (first_of qs)) in
    let out : mem a qs ≡ false = ground arith in
    let other = link_back-other h1 (some a) qs a out in
    let here = modify-here heap a (set_next (first_of qs)) in
    let chain = IsChain-modify heap a (set_next (first_of qs)) (some x) qs out rest in
    (
      rw (other, here) back,
      rw (other, here) refl,
      out,
      link_back-IsChain h1 (some x) (some a) qs chain,
    )
bypassed-IsChain heap prev a (b ∷ bs) x qs (back, forth, new, rest) =
    let last = last_of b bs in
    let h1 = modify heap last (set_next (first_of qs)) in
    let (before, behind) = mem-append a (b ∷ bs) (x ∷ qs) new in
    let other = link_back-other h1 (some last) qs a (ground arith) in
    let here = modify-other heap last (set_next (first_of qs)) a (last_of-other a b bs before) in
    (
      rw (other, here) back,
      rw (other, here) forth,
      mem-remove a (b ∷ bs) x qs new,
      bypassed-IsChain heap (some a) b bs x qs rest,
    )

-- What a node in the middle points at.
abbrev pub last_or : Option ℕ → List ℕ → Option ℕ
last_or prev [] = prev
last_or prev (a ∷ ps) = some (last_of a ps)

pub IsChain-neighbours :
    (heap : Heap) (prev : Option ℕ) (ps : List ℕ) (x : ℕ) (qs : List ℕ)
    → IsChain heap prev (ps ++ x ∷ qs)
    → ((heap x).prev ≡ last_or prev ps) × ((heap x).next ≡ first_of qs)
IsChain-neighbours heap prev [] x qs (back, forth, _, _) = (back, forth)
IsChain-neighbours heap prev (a ∷ []) x qs (back, forth, new, rest) =
    IsChain-neighbours heap (some a) [] x qs rest
IsChain-neighbours heap prev (a ∷ b ∷ bs) x qs (back, forth, new, rest) =
    IsChain-neighbours heap (some a) (b ∷ bs) x qs rest
