-- ===== src/Chains/Sync.antt =====
-- `Sync`, `Exist` and `Get`: chains that the host has and the map does not are put into it.
use nftableslib.Base.{
  Bool, true, false, not, some, is_some, List, [], ◌∷◌, Bytes, Outcome, ok, err, panic, blocked,
  deref, chain_not_added, lookup, insert, bytes_eq, eq_bytes, length, ◌==◌, ◌&&◌, if◌then◌else◌,
}
use nftableslib.Nft.{Table, Chain}
use nftableslib.Host.{
  Host, Action, ◌>>=◌, ◌>>◌, pure, lift, on_host, asking, locked, content_of, set_content,
}
use nftableslib.RulesList.{Heap, RuleStore}
use nftableslib.Lifecycle.Sync.{sync_rules}
use nftableslib.Chains.Attributes.{NfChain, is_of}
use nftableslib.Chains.Store.{ChainsMethod, entry_of}

-- `chain.Type != "" && chain.Hooknum != 0`
abbrev pub is_base : Chain → Bool
is_base c = not (length c.chain_type == 0) && not (c.hook == 0)

module _ (host : Host) (blank : Heap) (table : Table) where
  -- A method of the rules of a chain in the map, whose list it changes in place.
  abbrev pub on_rules :
      Bytes
      → NfChain
      → RuleStore
      → Action (RuleStore × host.S) (Unit {0})
      → ChainsMethod host (Unit {0})
  on_rules name c r m (g, s) =
      let (o, (r', t)) = m (r, s) in
      (o, (record g { content = insert name (record c { rules = some r' }) (g.content) }, t))

  -- `nfc.chains[chain.Name].Rules().Sync()`
  unfoldable pub sync_chain_rules : Bytes → ChainsMethod host (Unit {0})
  unfolding nftableslib.Lifecycle.Sync.sync
  sync_chain_rules name = do
    m ← content_of
    c ← lift (deref (lookup name m))
    r ← lift (deref c.rules)
    on_rules name c r (nftableslib.Lifecycle.Sync.sync host table name)

  -- The loop of `Sync`.
  unfoldable pub sync_chains : List Chain → ChainsMethod host (Unit {0})
  unfolding sync_chain_rules
  sync_chains [] = pure tt
  sync_chains (c ∷ cs) = do
    m ← content_of
    (if is_of table c && not (is_some (lookup c.name m))
        then (do
          locked (do
            m ← content_of
            set_content (insert c.name (entry_of host blank table (is_base c) c) m))
          sync_chain_rules c.name
          sync_chains cs)
        else sync_chains cs)

  -- `Sync`
  unfoldable pub sync : ChainsMethod host (Unit {0})
  unfolding sync_chains
  sync = do cs ← on_host host.list_chains; sync_chains cs

  -- The answer of `Exist` from what `Sync` returned: an error is dropped.
  abbrev pub unless_error : Outcome (Unit {0}) → ChainsMethod host Bool
  unless_error (ok u) = pure true
  unless_error (err e) = pure false
  unless_error panic = lift panic
  unless_error blocked = lift blocked

  -- The loop of `Exist`, which ends at the first chain of that name in the table.
  abbrev pub exist_on_host : Bytes → List Chain → ChainsMethod host Bool
  unfolding sync
  exist_on_host name [] = pure false
  exist_on_host name (c ∷ cs) =
      let rest = exist_on_host name cs in
      if eq_bytes c.name name && is_of table c
      then (λ st. let (o, st') = sync st in unless_error o st')
      else rest

  -- The answer for a name that the map does not have.
  abbrev pub exist_listed : Bytes → Outcome (List Chain) → ChainsMethod host Bool
  unfolding sync
  exist_listed name (ok cs) = exist_on_host name cs
  exist_listed name (err e) = pure false
  exist_listed name panic = lift panic
  exist_listed name blocked = lift blocked

  -- `Exist`
  unfoldable pub exist : Bytes → ChainsMethod host Bool
  unfolding sync
  exist name = do
    m ← content_of
    (if is_some (lookup name m) then pure true else (asking host.list_chains >>= exist_listed name))

  -- The error of `Get` for a `Sync` that failed.
  abbrev pub or_not_added : Outcome (Unit {0}) → ChainsMethod host (Unit {0})
  or_not_added (ok u) = pure u
  or_not_added (err e) = lift (err chain_not_added)
  or_not_added panic = lift panic
  or_not_added blocked = lift blocked

  -- The loop of `Get`.
  abbrev pub get_names : List Chain → ChainsMethod host (List Bytes)
  unfolding sync
  get_names [] = pure []
  get_names (c ∷ cs) =
      if is_of table c
      then (do
        m ← content_of
        (if is_some (lookup c.name m)
            then pure tt
            else (λ st. let (o, st') = sync st in or_not_added o st'))
        names ← get_names cs
        pure (c.name ∷ names))
      else get_names cs

  -- `Get`
  unfoldable pub get : ChainsMethod host (List Bytes)
  unfolding sync
  get = do cs ← on_host host.list_chains; get_names cs
