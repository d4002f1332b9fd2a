-- ===== src/Ranges/Coverage.antt =====
-- `tryCollapse` drops a network only if it keeps one that contains it.
use nftableslib.Base.{
  ℕ, zero, suc, ◌≡◌, refl, inl, inr, ◌⊎◌, Bool, true, false, ◌||◌, List, [], ◌∷◌, ◌++◌, Outcome, ok,
  err, panic, blocked, ◌>>=◌, drop, length, replicate, ◌==◌, if◌then◌else◌, Bool-cases,
}
use mathlib.Core.List.{append_assoc}
use nftableslib.Rule.{IpAddr}
use nftableslib.Ranges.Collapse.{is_subnet, mark_subnets, flag_at, collapse_from, try_collapse}
use nftableslib.Registers.Ensures.{OnOk, OnOk-bind}

-- One of the networks ks is b, or `isSubnet` says that b lies in it.
abbrev pub Holds : List IpAddr → IpAddr → Type 0
Holds [] b = true ≡ false
Holds (k ∷ ks) b = (k ≡ b) ⊎ (is_subnet k b ≡ ok true) ⊎ Holds ks b

abbrev pub HoldsAll : List IpAddr → List IpAddr → Type 0
HoldsAll ks [] = Unit
HoldsAll ks (b ∷ org) = Holds ks b × HoldsAll ks org

-- A network is flagged only if one of ks holds it.
abbrev Justified : List IpAddr → List IpAddr → List Bool → Type 0
Justified ks [] flags = Unit
Justified ks (b ∷ org) [] = Unit
Justified ks (b ∷ org) (flag ∷ flags) = ((flag ≡ false) ⊎ Holds ks b) × Justified ks org flags

Holds-left : (ks ms : List IpAddr) (b : IpAddr) → Holds ks b → Holds (ks ++ ms) b
Holds-left [] ms b h = absurd (cc)
Holds-left (k ∷ ks) ms b (inl h) = inl h
Holds-left (k ∷ ks) ms b (inr (inl h)) = inr (inl h)
Holds-left (k ∷ ks) ms b (inr (inr h)) = inr (inr (Holds-left ks ms b h))

Holds-right : (ks ms : List IpAddr) (b : IpAddr) → Holds ms b → Holds (ks ++ ms) b
Holds-right [] ms b h = h
Holds-right (k ∷ ks) ms b h = inr (inr (Holds-right ks ms b h))

HoldsAll-right : (ks ms org : List IpAddr) → HoldsAll ms org → HoldsAll (ks ++ ms) org
HoldsAll-right ks ms [] h = tt
HoldsAll-right ks ms (b ∷ org) (h, hs) = (Holds-right ks ms b h, HoldsAll-right ks ms org hs)

-- A flag that was set, or is set because b lies in a.
flag-Holds :
    (ks : List IpAddr) (a b : IpAddr) (flag inside : Bool)
    → (flag ≡ false) ⊎ Holds ks b
    → (inside ≡ false) ⊎ (is_subnet a b ≡ ok true)
    → ((flag || inside) ≡ false) ⊎ Holds (ks ++ a ∷ []) b
flag-Holds ks a b flag inside (inr h) i = inr (Holds-left ks (a ∷ []) b h)
flag-Holds ks a b flag inside (inl h) (inr i) = inr (Holds-right ks (a ∷ []) b (inr (inl i)))
flag-Holds ks a b flag inside (inl h) (inl i) = inl (rw (h, i) refl)

inside_lem :
    (i j : ℕ) (o : Outcome Bool)
    → OnOk (λ inside. (inside ≡ false) ⊎ (o ≡ ok true)) (if i == j then ok false else o)
inside_lem i j o = elim (Bool-cases (i == j)) [
  | inl same ↦ rw same (inl refl)
  | inr other ↦ rw other (outcome o)
]
  where
    outcome : (o : Outcome Bool) → OnOk (λ inside. (inside ≡ false) ⊎ (o ≡ ok true)) o
    outcome (ok true) = inr refl
    outcome (ok false) = inl refl
    outcome (err e) = tt
    outcome panic = tt
    outcome blocked = tt

mark_subnets-Justified :
    (ks : List IpAddr) (i : ℕ) (a : IpAddr) (j : ℕ) (org : List IpAddr) (flags : List Bool)
    → Justified ks org flags
    → OnOk (Justified (ks ++ a ∷ []) org) (mark_subnets i a j org flags)
unfolding mark_subnets
mark_subnets-Justified ks i a j [] flags h = tt
mark_subnets-Justified ks i a j (b ∷ org) [] h = tt
mark_subnets-Justified ks i a j (b ∷ org) (flag ∷ flags) (h, hs) =
    OnOk-bind (λ inside. (inside ≡ false) ⊎ (is_subnet a b ≡ ok true))
      (Justified (ks ++ a ∷ []) (b ∷ org)) _ _ (inside_lem i j (is_subnet a b))
      λ inside w.
        OnOk-bind (Justified (ks ++ a ∷ []) org) (Justified (ks ++ a ∷ []) (b ∷ org)) _ _
          (mark_subnets-Justified ks i a (suc j) org flags hs)
          λ rest r. (flag-Holds ks a b flag inside h w, r)

-- The flag at an index belongs to the network there.
flag_at-Justified :
    (ks : List IpAddr) (i : ℕ) (org : List IpAddr) (flags : List Bool) (a : IpAddr)
    (list : List IpAddr)
    → drop i org ≡ a ∷ list
    → Justified ks org flags
    → OnOk (λ flag. (flag ≡ false) ⊎ Holds ks a) (flag_at flags i)
unfolding flag_at
flag_at-Justified ks i org [] a list e h = tt
flag_at-Justified ks zero [] (flag ∷ flags) a list e h = absurd (cc)
flag_at-Justified ks (suc i) [] (flag ∷ flags) a list e h = absurd (cc)
flag_at-Justified ks zero (b ∷ org) (flag ∷ flags) a list e (h, hs) =
    let same : b ≡ a = cc in rw same at h
flag_at-Justified ks (suc i) (b ∷ org) (flag ∷ flags) a list e (h, hs) =
    flag_at-Justified ks i org flags a list e hs

drop-suc :
    (i : ℕ) (org : List IpAddr) (a : IpAddr) (list : List IpAddr)
    → drop i org ≡ a ∷ list
    → drop (suc i) org ≡ list
drop-suc zero [] a list e = absurd (cc)
drop-suc zero (b ∷ org) a list e = cc
drop-suc (suc i) [] a list e = absurd (cc)
drop-suc (suc i) (b ∷ org) a list e = drop-suc i org a list e

module _ {A : Type 0} (P Q : A → Type 0) (imp : (a : A) → P a → Q a) where
  OnOk-map : (o : Outcome A) → OnOk P o → OnOk Q o
  OnOk-map (ok a) h = imp a h
  OnOk-map (err e) h = tt
  OnOk-map panic h = tt
  OnOk-map blocked h = tt

-- Reading the flag of a network, and going on by it.
by_flag :
    (W : Type 0) (Q : List IpAddr → Type 0) (o : Outcome Bool) (t f : Outcome (List IpAddr))
    → OnOk (λ flag. (flag ≡ false) ⊎ W) o
    → (W → OnOk Q t)
    → OnOk Q f
    → OnOk Q (o >>= elim [ true ↦ t | false ↦ f ])
by_flag W Q (ok true) t f (inl wrong) h k = absurd (cc)
by_flag W Q (ok true) t f (inr w) h k = h w
by_flag W Q (ok false) t f w h k = k
by_flag W Q (err e) t f w h k = tt
by_flag W Q panic t f w h k = tt
by_flag W Q blocked t f w h k = tt

-- A flagged network is held by what was kept before.
flagged-Holds :
    (prev : List IpAddr) (a : IpAddr) (list : List IpAddr) (o : Outcome (List IpAddr))
    → OnOk (λ kept. HoldsAll (prev ++ kept) list) o
    → Holds prev a
    → OnOk (λ kept. HoldsAll (prev ++ kept) (a ∷ list)) o
flagged-Holds prev a list o h held =
    OnOk-map (λ kept. HoldsAll (prev ++ kept) list) (λ kept. HoldsAll (prev ++ kept) (a ∷ list))
      (λ kept hs. (Holds-left prev kept a held, hs)) o h

-- A network that is not flagged is kept.
kept-Holds :
    (prev : List IpAddr) (a : IpAddr) (list rest : List IpAddr)
    → HoldsAll ((prev ++ a ∷ []) ++ rest) list
    → HoldsAll (prev ++ a ∷ rest) (a ∷ list)
kept-Holds prev a list rest hs = (Holds-right prev (a ∷ rest) a (inl refl), rw append_assoc at hs)

-- From the element at index i on: what was kept before and what is still kept holds the rest.
collapse_from-HoldsAll :
    (org prev : List IpAddr) (i : ℕ) (list : List IpAddr) (flags : List Bool)
    → drop i org ≡ list
    → Justified prev org flags
    → OnOk (λ kept. HoldsAll (prev ++ kept) list) (collapse_from org i list flags)
unfolding collapse_from
collapse_from-HoldsAll org prev i [] flags e h = tt
collapse_from-HoldsAll org prev i (a ∷ list) flags e h =
    by_flag (Holds prev a) (λ kept. HoldsAll (prev ++ kept) (a ∷ list)) (flag_at flags i) _ _
      (flag_at-Justified prev i org flags a list e h)
      (flagged-Holds prev a list (collapse_from org (suc i) list flags)
        (collapse_from-HoldsAll org prev (suc i) list flags (drop-suc i org a list e) h))
      (OnOk-bind (Justified (prev ++ a ∷ []) org) (λ kept. HoldsAll (prev ++ kept) (a ∷ list))
        (mark_subnets i a 0 org flags) _ (mark_subnets-Justified prev i a 0 org flags h)
        λ flags' h'.
          OnOk-bind (λ rest. HoldsAll ((prev ++ a ∷ []) ++ rest) list)
            (λ kept. HoldsAll (prev ++ kept) (a ∷ list)) _ _
            (collapse_from-HoldsAll org (prev ++ a ∷ []) (suc i) list flags'
              (drop-suc i org a list e) h')
            λ rest hs. kept-Holds prev a list rest hs)

unflagged-Justified : (org : List IpAddr) → Justified [] org (replicate (length org) false)
unflagged-Justified [] = tt
unflagged-Justified (b ∷ org) = (inl refl, unflagged-Justified org)

-- Some of the networks, in their order.
pub data IsPart : List IpAddr → List IpAddr → Type 0 where
  end : IsPart [] []
  keeps : (a : IpAddr) (kept org : List IpAddr) → IsPart kept org → IsPart (a ∷ kept) (a ∷ org)
  drops : (a : IpAddr) (kept org : List IpAddr) → IsPart kept org → IsPart kept (a ∷ org)

either : (o : Outcome Bool) → OnOk (λ flag. (flag ≡ false) ⊎ Unit {0}) o
either (ok flag) = inr tt
either (err e) = tt
either panic = tt
either blocked = tt

always : {A : Type 0} (o : Outcome A) → OnOk (λ a. Unit {0}) o
always (ok a) = tt
always (err e) = tt
always panic = tt
always blocked = tt

collapse_from-IsPart :
    (org : List IpAddr) (i : ℕ) (list : List IpAddr) (flags : List Bool)
    → OnOk (λ kept. IsPart kept list) (collapse_from org i list flags)
unfolding collapse_from
collapse_from-IsPart org i [] flags = IsPart.end
collapse_from-IsPart org i (a ∷ list) flags =
    by_flag (Unit {0}) (λ kept. IsPart kept (a ∷ list)) (flag_at flags i) _ _
      (either (flag_at flags i))
      (λ _.
        OnOk-map (λ kept. IsPart kept list) (λ kept. IsPart kept (a ∷ list))
          (λ kept. IsPart.drops a kept list) (collapse_from org (suc i) list flags)
          (collapse_from-IsPart org (suc i) list flags))
      (OnOk-bind (λ flags. Unit {0}) (λ kept. IsPart kept (a ∷ list)) (mark_subnets i a 0 org flags)
        _ (always (mark_subnets i a 0 org flags))
        λ flags' _.
          OnOk-bind (λ rest. IsPart rest list) (λ kept. IsPart kept (a ∷ list)) _ _
            (collapse_from-IsPart org (suc i) list flags') λ rest p. IsPart.keeps a rest list p)

both :
    {A : Type 0} (P Q : A → Type 0) (o : Outcome A) → OnOk P o → OnOk Q o → OnOk (λ a. P a × Q a) o
both P Q (ok a) p q = (p, q)
both P Q (err e) p q = tt
both P Q panic p q = tt
both P Q blocked p q = tt

-- When `tryCollapse` returns, what it keeps are some of the networks that it was given, in their
-- order, and each network that it was given is kept, or lies, as `isSubnet` says, in one that is
-- kept.
pub try_collapse-HoldsAll :
    (org : List IpAddr) → OnOk (λ kept. IsPart kept org × HoldsAll kept org) (try_collapse org)
unfolding try_collapse
try_collapse-HoldsAll org =
    let flags = replicate (length org) false in
    both (λ kept. IsPart kept org) (λ kept. HoldsAll kept org) (collapse_from org 0 org flags)
      (collapse_from-IsPart org 0 org flags)
      (collapse_from-HoldsAll org [] 0 org flags refl (unflagged-Justified org))
