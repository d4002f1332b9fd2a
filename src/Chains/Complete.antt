-- ===== src/Chains/Complete.antt =====
-- What `Sync` of nfChains leaves behind.
use mathlib.Core.Path.{subst}
use nftableslib.Base.{
  ◌≡◌, refl, sym, ap, ◌∙◌, Bool, true, false, not, ◌&&◌, ◌||◌, Option, none, some, is_some, List,
  [], ◌∷◌, Bytes, Outcome, ok, deref, err, panic, blocked, lookup, insert, bytes_eq, eq_bytes,
  eq_bytes_iff, eq_bytes_refl, lookup-insert, arith, Bool-cases, ◌⊎◌, inl, inr, if◌then◌else◌,
}
use nftableslib.Nft.{Table, Chain}
use nftableslib.Host.{Host, ◌>>=◌, ◌>>◌, lift, Guarded, locked, content_of, set_content}
use nftableslib.Host.Finishes.{Answering, returned, free}
use nftableslib.RulesList.{Heap, RuleStore, new_rules}
use nftableslib.Lifecycle.SyncReturns.{sync-returned}
use nftableslib.Chains.Attributes.{ChainMap, NfChain, is_of}
use nftableslib.Chains.Store.{entry_of, ChainsMethod}
use nftableslib.Chains.Sync.{is_base, on_rules, sync_chain_rules, sync_chains, sync}

-- Every chain of the table is known.
abbrev pub knows : Table → ChainMap → List Chain → Bool
knows table m [] = true
knows table m (c ∷ cs) = (not (is_of table c) || is_some (lookup c.name m)) && knows table m cs

-- The chains of an answer, none if it is an error.
abbrev pub listed : Outcome (List Chain) → List Chain
listed (ok cs) = cs
listed _ = []

-- A name has the chain that it had, or had none.
abbrev pub Keeps : ChainMap → ChainMap → Type 0
Keeps m m' = (j : Bytes) → (lookup j m' ≡ lookup j m) ⊎ (lookup j m ≡ none)

module _ {S : Type 0} where
  -- The method returned and left the mutex free, what the map knew is unchanged, and without an error
  -- the map knows every chain of the table.
  abbrev pub Synced :
      Table → ChainMap → List Chain → Outcome (Unit {0}) × (Guarded ChainMap × S) → Type 0
  Synced table m cs (ok u, (g, s)) =
      (g.held ≡ false) × Keeps m g.content × (knows table g.content cs ≡ true)
  Synced table m cs (err e, (g, s)) = (g.held ≡ false) × Keeps m g.content
  Synced table m cs (panic, (g, s)) = true ≡ false
  Synced table m cs (blocked, (g, s)) = true ≡ false

Keeps-trans : (a b c : ChainMap) → Keeps a b → Keeps b c → Keeps a c
Keeps-trans a b c h k j = elim (h j) [
  | inr new ↦ inr new
  | inl same ↦ elim (k j) [ inl kept ↦ inl (kept ∙ same) | inr new ↦ inr (sym same ∙ new) ]
]

Keeps-known :
    (m m' : ChainMap) (j : Bytes)
    → Keeps m m'
    → is_some (lookup j m) ≡ true
    → is_some (lookup j m') ≡ true
Keeps-known m m' j h known = elim (h j) [
  | inl same ↦ ap is_some same ∙ known
  | inr new ↦ absurd (ground (arith, known, new))
]

-- A chain that is known at first is known in the end.
Synced-further :
    {S : Type 0} (table : Table) (m m' : ChainMap) (c : Chain) (cs : List Chain)
    (r : Outcome (Unit {0}) × (Guarded ChainMap × S))
    → Keeps m m'
    → (not (is_of table c) || is_some (lookup c.name m')) ≡ true
    → Synced table m' cs r
    → Synced table m (c ∷ cs) r
Synced-further table m m' c cs (ok u, (g, s)) keeps here (held, kept, known) =
    let still = Keeps-known m' g.content c.name kept in
    (held, Keeps-trans m m' g.content keeps kept, ground (arith, here, still, known))
Synced-further table m m' c cs (err e, (g, s)) keeps here (held, kept) =
    (held, Keeps-trans m m' g.content keeps kept)
Synced-further table m m' c cs (panic, (g, s)) keeps here h = h
Synced-further table m m' c cs (blocked, (g, s)) keeps here h = h

Keeps-insert :
    (name : Bytes) (c c' : NfChain) (m : ChainMap)
    → is_some (lookup name m) ≡ false
    → Keeps m (insert name c' (insert name c m))
Keeps-insert name c c' m new j = elim (Bool-cases (eq_bytes name j)) [
  | inl same ↦ inr (ground (arith, (eq_bytes_iff name j).0 same, new))
  | inr other ↦
      inl
        (ground (arith, lookup-insert name j c' (insert name c m), lookup-insert name j c m, other))
]

module _ (host : Host) (blank : Heap) (table : Table) (answering : Answering host) where
  -- What is left of the loop once the rules of a new chain have been read.
  behind_rules :
      (c : Chain) (cs : List Chain) (m : ChainMap) (e : NfChain)
      (r : Outcome (Unit {0}) × (RuleStore × host.S))
      → is_some (lookup c.name m) ≡ false
      → returned r.0 ≡ true
      → ((m' : ChainMap) (s : host.S)
          → Synced table m' cs (sync_chains host blank table cs (free m', s)))
      → Synced table m (c ∷ cs) (
          (on_rules host blank table c.name e (new_rules blank) (λ st. r)
              >> sync_chains host blank table cs)
            (free (insert c.name e m), r.1.1))
  behind_rules c cs m e (err x, (r, s)) new back next =
      (refl, Keeps-insert c.name e (record e { rules = some r }) m new)
  behind_rules c cs m e (panic, (r, s)) new back next = absurd (cc)
  behind_rules c cs m e (blocked, (r, s)) new back next = absurd (cc)
  behind_rules c cs m e (ok u, (r, s)) new back next =
      let e' : NfChain = record e { rules = some r } in
      let m' = insert c.name e' (insert c.name e m) in
      let here = lookup-insert c.name c.name e' (insert c.name e m) in
      Synced-further table m m' c cs (sync_chains host blank table cs (free m', s))
        (Keeps-insert c.name e e' m new) (ground (arith, here, eq_bytes_refl c.name)) (next m' s)

  -- The round of the loop for a chain that is new in the table, from the entry that is found.
  abbrev new_round : Chain → List Chain → ChainMap → Option NfChain → ChainsMethod host (Unit {0})
  new_round c cs m found =
      (lift (deref found) >>= λ e. lift (deref e.rules) >>= λ r.
      on_rules host blank table c.name e r (nftableslib.Lifecycle.Sync.sync host table c.name))
      >> sync_chains host blank table cs

  -- The whole round.
  abbrev round : Chain → List Chain → Bool → ChainsMethod host (Unit {0})
  round c cs new =
      if new
      then (do
        locked (do
          m ← content_of
          set_content (insert c.name (entry_of host blank table (is_base c) c) m))
        sync_chain_rules host blank table c.name
        sync_chains host blank table cs)
      else sync_chains host blank table cs

  pub sync_chains-Synced :
      (cs : List Chain) (m : ChainMap) (s : host.S)
      → Synced table m cs (sync_chains host blank table cs (free m, s))
  unfolding sync_chains sync_chain_rules
  sync_chains-Synced [] m s = (refl, λ j. inl refl, refl)
  sync_chains-Synced (c ∷ cs) m s =
      let e : NfChain = entry_of host blank table (is_base c) c in
      let m' = insert c.name e m in
      let here = lookup-insert c.name c.name e m in
      let found : lookup c.name m' ≡ some e = ground (arith, here, eq_bytes_refl c.name) in
      elim (Bool-cases (is_of table c && not (is_some (lookup c.name m)))) [
        | inr skip ↦
            subst (λ b. Synced table m (c ∷ cs) (round c cs b (free m, s))) (sym skip)
              (Synced-further table m m c cs (sync_chains host blank table cs (free m, s))
                (λ j. inl refl) (ground (arith, skip)) (sync_chains-Synced cs m s))
        | inl new ↦
            subst (λ b. Synced table m (c ∷ cs) (round c cs b (free m, s))) (sym new)
              (subst (λ f. Synced table m (c ∷ cs) (new_round c cs m f (free m', s))) (sym found)
                (behind_rules c cs m e
                  (nftableslib.Lifecycle.Sync.sync host table c.name (new_rules blank, s))
                  (ground (arith, new)) (sync-returned host answering table blank c.name s)
                  (sync_chains-Synced cs)))
      ]

  -- Behind the answer of the connection.
  behind_answer :
      (m : ChainMap) (r : Outcome (List Chain) × host.S)
      → returned r.0 ≡ true
      → Synced table m
          (listed r.0)
          (((λ st. (r.0, (free m, r.1))) >>= sync_chains host blank table) (free m, r.1))
  behind_answer m (ok cs, t) back = sync_chains-Synced cs m t
  behind_answer m (err e, t) back = (refl, λ j. inl refl)
  behind_answer m (panic, t) back = absurd (cc)
  behind_answer m (blocked, t) back = absurd (cc)

  -- Where the connection's calls return and the mutex is free, Sync of the chains returns a value
  -- or an error and leaves the mutex free, also where ListChains fails; every chain that the map
  -- knew is as it was, and without an error the map knows all the chains of the table that
  -- ListChains answered.
  pub sync-Synced :
      (m : ChainMap) (s : host.S)
      → Synced table m (listed (host.list_chains s).0) (sync host blank table (free m, s))
  unfolding sync
  sync-Synced m s = behind_answer m (host.list_chains s) (answering.list_chains s)
