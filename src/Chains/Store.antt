-- ===== src/Chains/Store.antt =====
-- `nfChains`: the map of a table's chains, behind a mutex.
use nftableslib.Base.{
  Bool, true, false, Option, none, some, is_some, List, [], ◌∷◌, Bytes, Outcome, ok, err, no_chain,
  chain_exists, lookup, insert, remove, bytes_eq, eq_bytes, ◌&&◌, if◌then◌else◌,
}
use nftableslib.Nft.{Table, Chain}
use nftableslib.Host.{
  Host, Action, ◌>>=◌, ◌>>◌, pure, lift, on_host, Guarded, locked, content_of, set_content,
}
use nftableslib.RulesList.{Heap, RuleStore, new_rules}
use nftableslib.Chains.Attributes.{
  ChainAttributes, NfChain, ChainMap, validate_attributes, is_equal_chain, described_chain, is_of,
}

-- What the attributes must meet: a chain that is no base chain has none.
abbrev pub validated : Option ChainAttributes → Outcome (Unit {0})
unfolding validate_attributes
validated none = ok tt
validated (some a) = validate_attributes a

-- `newChains`
abbrev pub new_chains : Guarded ChainMap
new_chains = record { held = false; content = [] }

module _ (host : Host) where
  abbrev pub ChainsMethod : Type 0 → Type 0
  ChainsMethod = Action (Guarded ChainMap × host.S)

  -- `Chain`, whose error is the same for every name.
  unfoldable pub chain : Bytes → ChainsMethod (Option RuleStore)
  chain name = locked (do
    m ← content_of
    (elim (lookup name m) [ some c ↦ pure (c.rules) | none ↦ lift (err no_chain) ]))

  -- `Delete`
  unfoldable pub delete : Bytes → ChainsMethod (Unit {0})
  delete name = locked (do
    m ← content_of
    (elim (lookup name m) [
      | some c ↦ (on_host (λ s. (ok tt, host.del_chain c.chain s)) >> set_content (remove name m))
      | none ↦ lift (err no_chain)
    ]))

  module _ (blank : Heap) (table : Table) where
    -- The entry for a chain that the connection has returned; blank is the heap before a rule is made.
    abbrev pub entry_of : Bool → Chain → NfChain
    entry_of base c = record { base_chain = base; chain = some c; rules = some (new_rules blank) }

    -- `create` for a name that the map does not know.
    abbrev pub create_new : Bytes → Option ChainAttributes → ChainsMethod (Unit {0})
    create_new name attrs = do
      lift (validated attrs)
      c ←
          on_host
            (λ s. let (c, t) = host.add_chain (described_chain table name attrs) s in (ok c, t))
      m ← content_of
      set_content (insert name (entry_of (is_some attrs) c) m)

    -- `create`
    unfoldable pub create_chain : Bytes → Option ChainAttributes → ChainsMethod (Unit {0})
    unfolding is_equal_chain
    create_chain name attrs = do
      m ← content_of
      (elim (lookup name m) [
        | some ch ↦ if is_equal_chain ch attrs then pure tt else lift (err chain_exists)
        | none ↦ create_new name attrs
      ])

    -- `Create`
    unfoldable pub create : Bytes → Option ChainAttributes → ChainsMethod (Unit {0})
    unfolding create_chain
    create name attrs = locked (create_chain name attrs)

    -- `CreateImm`
    unfoldable pub create_imm : Bytes → Option ChainAttributes → ChainsMethod (Unit {0})
    unfolding create_chain
    create_imm name attrs = locked (create_chain name attrs >> on_host host.flush)

  -- The loop of `Ready`.
  abbrev pub ready_in : Table → Bytes → List Chain → Bool
  ready_in table name [] = false
  ready_in table name (c ∷ cs) =
      let rest = ready_in table name cs in
      if is_of table c && eq_bytes name c.name then true else rest

  -- `Ready`
  unfoldable pub ready : Table → Bytes → ChainsMethod Bool
  ready table name = do cs ← on_host host.list_chains; pure (ready_in table name cs)
