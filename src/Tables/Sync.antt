-- ===== src/Tables/Sync.antt =====
-- `Sync` of the tables of a family, with the chains and the sets of each that is new.
use nftableslib.Base.{
  not, ◌&&◌, some, is_some, List, [], ◌∷◌, Bytes, deref, insert, nat_eq, bytes_eq, ◌==◌,
  if◌then◌else◌,
}
use nftableslib.Nft.{Family, Table}
use nftableslib.Host.{Host, ◌>>=◌, ◌>>◌, pure, lift, on_host, Guarded, lock, unlock, content_of}
use nftableslib.RulesList.{Heap}
use nftableslib.Sets.{SetMap}
use nftableslib.Chains.{ChainMap}
use nftableslib.Tables.Store.{
  NfTable, TableMap, TablesMethod, tables_of, table_at, create_table, created,
}

module _ (host : Host) (blank : Heap) where
  -- Writing a table's entry back.
  abbrev pub put_table : NfTable → TableMap → TableMap
  put_table t m = insert t.table.family (insert t.table.name t (tables_of t.table.family m)) m

  -- `nt.Chains().Sync()`, which changes the chains in place.
  abbrev pub sync_chains_of : NfTable → Guarded ChainMap → TablesMethod host (Unit {0})
  unfolding nftableslib.Chains.sync
  sync_chains_of t chains (g, s) =
      let (o, (chains', s')) = nftableslib.Chains.sync host blank t.table (chains, s) in
      (o, (record g { content = put_table (record t { chains = some chains' }) (g.content) }, s'))

  -- `nt.Sets().Sync()`
  abbrev pub sync_sets_of : NfTable → Guarded SetMap → TablesMethod host (Unit {0})
  unfolding nftableslib.Sets.sync
  sync_sets_of t sets (g, s) =
      let (o, (sets', s')) = nftableslib.Sets.sync host t.table (sets, s) in
      (o, (record g { content = put_table (record t { sets = some sets' }) (g.content) }, s'))

  -- The entry as it stands in the map.
  abbrev pub entry_at : Bytes → Family → TablesMethod host NfTable
  entry_at name family = do m ← content_of; lift (deref (table_at name family m))

  -- The loop of `Sync`, which holds no lock.
  unfoldable pub sync_tables : Family → List Table → TablesMethod host (Unit {0})
  unfolding create_table nftableslib.Chains.sync nftableslib.Sets.sync
  sync_tables family [] = pure tt
  sync_tables family (t ∷ ts) = do
    m ← content_of
    (if (t.family == family) && not (is_some (table_at t.name family m))
        then (do
          nt ← created host t.name t.family
          chains ← lift (deref nt.chains)
          sync_chains_of nt chains
          nt ← entry_at t.name t.family
          sets ← lift (deref nt.sets)
          sync_sets_of nt sets
          sync_tables family ts)
        else sync_tables family ts)

  -- `Sync`: an error of ListTables is returned with the mutex locked.
  unfoldable pub sync : Family → TablesMethod host (Unit {0})
  unfolding sync_tables
  sync family = do lock; ts ← on_host host.list_tables; unlock; sync_tables family ts
