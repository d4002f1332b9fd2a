-- ===== src/Chains/Finishes.antt =====
-- The methods of `nfChains` return, with the mutex free.
use mathlib.Core.Path.{subst}
use nftableslib.Base.{
  ℕ, ◌≡◌, refl, sym, true, false, Option, is_some, List, [], ◌∷◌, Bytes, Outcome, ok, err, panic,
  blocked, chain_not_added, lookup, bytes_eq, eq_bytes, ◌&&◌, arith,
}
use nftableslib.Nft.{Table, Chain}
use nftableslib.Host.{Host, ◌>>=◌, pure, asking, Guarded}
use nftableslib.Host.Finishes.{
  Answering, returned, free, Ended, Finishes, Finishes-bind, Finishes-pure, Finishes-error,
  Finishes-content, Finishes-host,
}
use nftableslib.RulesList.{Heap}
use nftableslib.Chains.Attributes.{ChainMap, ChainAttributes, is_of}
use nftableslib.Chains.Store.{ChainsMethod, chain, delete, create, create_imm, ready, ready_in}
use nftableslib.Chains.Retry.{delete_imm}
use nftableslib.Chains.Sync.{
  sync_chains, sync, exist, exist_listed, exist_on_host, unless_error, or_not_added, get, get_names,
}
use nftableslib.Chains.Complete.{Synced, sync_chains-Synced}
use nftableslib.Chains.Locked.{
  if_both, chain-Finishes, delete-Finishes, delete_imm-Finishes, create-Finishes,
  create_imm-Finishes,
}

module _ (host : Host) (blank : Heap) (table : Table) (answering : Answering host) where
  Synced-Ended :
      (m : ChainMap) (cs : List Chain) (r : Outcome (Unit {0}) × (Guarded ChainMap × host.S))
      → Synced table m cs r
      → Ended r
  Synced-Ended m cs (ok u, (g, s)) h = (refl, h.0)
  Synced-Ended m cs (err e, (g, s)) h = (refl, h.0)
  Synced-Ended m cs (panic, (g, s)) h = absurd (cc)
  Synced-Ended m cs (blocked, (g, s)) h = absurd (cc)

  sync-Finishes : Finishes (sync host blank table)
  unfolding sync
  sync-Finishes =
      Finishes-bind _ (sync_chains host blank table)
        (Finishes-host host.list_chains answering.list_chains)
        λ cs. record {
          ends = λ m s.
              Synced-Ended m cs (sync_chains host blank table cs (free m, s))
                (sync_chains-Synced host blank table answering cs m s);
        }

  -- A step that goes on from an outcome, whichever it is.
  Ended-outcome :
      {A B : Type 0} (r : Outcome A × (Guarded ChainMap × host.S))
      (k : Outcome A → ChainsMethod host B)
      → Ended r
      → ((o : Outcome A) → returned o ≡ true → Finishes (k o))
      → Ended (k r.0 r.1)
  Ended-outcome (o, (g, s)) k (back, e) next =
      subst (λ h. Ended (k o (record { held = h; content = g.content }, s))) (sym e)
        ((next o back).ends g.content s)

  behind_sync :
      {A : Type 0} (k : Outcome (Unit {0}) → ChainsMethod host A)
      → ((o : Outcome (Unit {0})) → returned o ≡ true → Finishes (k o))
      → Finishes (λ st. let (o, st') = sync host blank table st in k o st')
  behind_sync k next = record {
    ends = λ m s. Ended-outcome (sync host blank table (free m, s)) k (sync-Finishes.ends m s) next;
  }

  unless_error-Finishes :
      (o : Outcome (Unit {0})) → returned o ≡ true → Finishes (unless_error host blank table o)
  unless_error-Finishes (ok u) h = Finishes-pure true
  unless_error-Finishes (err e) h = Finishes-pure false
  unless_error-Finishes panic h = absurd (ground arith)
  unless_error-Finishes blocked h = absurd (ground arith)

  exist_on_host-Finishes :
      (name : Bytes) (cs : List Chain) → Finishes (exist_on_host host blank table name cs)
  unfolding sync
  exist_on_host-Finishes name [] = Finishes-pure false
  exist_on_host-Finishes name (c ∷ cs) =
      if_both host blank table answering false (eq_bytes c.name name && is_of table c) _
        (exist_on_host host blank table name cs)
        (behind_sync (unless_error host blank table) unless_error-Finishes)
        (exist_on_host-Finishes name cs)

  exist_listed-Finishes :
      (name : Bytes) (o : Outcome (List Chain))
      → returned o ≡ true
      → Finishes (exist_listed host blank table name o)
  unfolding sync
  exist_listed-Finishes name (ok cs) h = exist_on_host-Finishes name cs
  exist_listed-Finishes name (err e) h = Finishes-pure false
  exist_listed-Finishes name panic h = absurd (ground arith)
  exist_listed-Finishes name blocked h = absurd (ground arith)

  exist-Finishes : (name : Bytes) → Finishes (exist host blank table name)
  unfolding exist sync
  exist-Finishes name = Finishes-bind _ _ Finishes-content λ m.
      if_both host blank table answering false (is_some (lookup name m)) (pure true)
        (asking host.list_chains >>= exist_listed host blank table name) (Finishes-pure true)
        (record {
          ends = λ m s.
              let (o, t) = host.list_chains s in
              (exist_listed-Finishes name o (answering.list_chains s)).ends m t;
        })

  or_not_added-Finishes :
      (o : Outcome (Unit {0})) → returned o ≡ true → Finishes (or_not_added host blank table o)
  or_not_added-Finishes (ok u) h = Finishes-pure u
  or_not_added-Finishes (err e) h = Finishes-error chain_not_added
  or_not_added-Finishes panic h = absurd (ground arith)
  or_not_added-Finishes blocked h = absurd (ground arith)

  get_names-Finishes : (cs : List Chain) → Finishes (get_names host blank table cs)
  unfolding sync
  get_names-Finishes [] = Finishes-pure []
  get_names-Finishes (c ∷ cs) =
      if_both host blank table answering false (is_of table c) _ (get_names host blank table cs)
        (Finishes-bind _ _ Finishes-content λ m.
          Finishes-bind _ _
            (if_both host blank table answering false (is_some (lookup c.name m)) (pure tt) _
              (Finishes-pure tt)
              (behind_sync (or_not_added host blank table) or_not_added-Finishes))
            λ done.
              Finishes-bind _ _ (get_names-Finishes cs) λ names. Finishes-pure (c.name ∷ names))
        (get_names-Finishes cs)

  get-Finishes : Finishes (get host blank table)
  unfolding get sync
  get-Finishes =
      Finishes-bind _ (get_names host blank table)
        (Finishes-host host.list_chains answering.list_chains) get_names-Finishes

  -- Where the connection's calls return and the mutex of nfChains is free, Chain, Create, CreateImm,
  -- Delete, DeleteImm, Exist, Get, Ready and Sync return a value or an error, without a panic and
  -- without waiting for the mutex, and leave it free, whatever number of ticks comes before the timeout of DeleteImm.
  pub chain_methods-Finish :
      (name : Bytes) (attrs : Option ChainAttributes) (ticks : ℕ)
      → Finishes (chain host name)
        × Finishes (create host blank table name attrs)
        × Finishes (create_imm host blank table name attrs)
        × Finishes (delete host name)
        × Finishes (delete_imm host ticks name)
        × Finishes (exist host blank table name)
        × Finishes (get host blank table)
        × Finishes (ready host table name)
        × Finishes (sync host blank table)
  unfolding ready
  chain_methods-Finish name attrs ticks = (
    chain-Finishes host blank table answering name,
    create-Finishes host blank table answering name attrs,
    create_imm-Finishes host blank table answering name attrs,
    delete-Finishes host blank table answering name,
    delete_imm-Finishes host blank table answering ticks name,
    exist-Finishes name,
    get-Finishes,
    Finishes-bind _ _ (Finishes-host host.list_chains answering.list_chains)
        λ cs. Finishes-pure (ready_in host table name cs),
    sync-Finishes,
  )
