-- ===== src/Tables/Store.antt =====
-- `nfTables`: a map from families to maps of tables, behind a mutex.
use nftableslib.Base.{
  ℕ, Bool, true, false, ◌&&◌, Option, none, some, is_some, List, [], ◌∷◌, Bytes, Outcome, ok, err,
  panic, blocked, conn_error, no_table, lookup, insert, remove, nat_eq, bytes_eq, eq_bytes, length,
  ◌==◌, if◌then◌else◌,
}
use nftableslib.Nft.{Family, Table}
use nftableslib.Host.{
  Host, Action, ◌>>=◌, ◌>>◌, pure, lift, on_host, asking, Guarded, locked, content_of, set_content,
}
use nftableslib.Sets.{SetMap, new_sets}
use nftableslib.Chains.{ChainMap, new_chains}

-- `nfTable`. The stores stand for its Chains and Sets Interface; nil is `none`.
pub record NfTable : Type 0 where
  pub table : Table
  pub chains : Option (Guarded ChainMap)
  pub sets : Option (Guarded SetMap)

abbrev pub FamilyMap : Type 0
FamilyMap = List (Bytes × NfTable)

abbrev pub TableMap : Type 0
TableMap = List (Family × FamilyMap)

-- `nft.tables[familyType]`: a family without a map reads as an empty map.
abbrev pub tables_of : Family → TableMap → FamilyMap
tables_of family m = elim (lookup family m) [ some inner ↦ inner | none ↦ [] ]

-- `nft.tables[familyType][name]`
abbrev pub table_at : Bytes → Family → TableMap → Option NfTable
table_at name family m = lookup name (tables_of family m)

-- The entry of a table that is new.
abbrev pub new_table : Bytes → Family → NfTable
new_table name family = record {
  table = record { family = family; name = name };
  chains = some new_chains;
  sets = some new_sets;
}

-- `create`: the table of that name, and the map with it.
unfoldable pub create_table : Bytes → Family → TableMap → NfTable × TableMap
create_table name family m =
    let t = new_table name family in
    let made : NfTable × TableMap = (t, insert family (insert name t (tables_of family m)) m) in
    elim (table_at name family m) [
      | some known ↦ if is_some known.chains && is_some known.sets then (known, m) else made
      | none ↦ made
    ]

-- The removal of `Delete`, and what it does with a family that has no table left.
unfoldable pub drop_table : Bytes → Family → TableMap → TableMap
drop_table name family m =
    if is_some (table_at name family m)
    then insert family (remove name (tables_of family m)) m
    else m

unfoldable pub drop_family : Family → TableMap → TableMap
drop_family family m = if length (tables_of family m) == 0 then remove family m else m

-- unix.EEXIST
abbrev pub eexist : ℕ
eexist = 17

-- The names of the tables of a family: the loop of `get`.
abbrev pub names_of : Family → List Table → List Bytes
names_of family [] = []
names_of family (t ∷ ts) =
    let rest = names_of family ts in if t.family == family then t.name ∷ rest else rest

-- The loop of `Exist`.
abbrev pub has_name : Bytes → List Bytes → Bool
has_name name [] = false
has_name name (n ∷ ns) = let rest = has_name name ns in if eq_bytes n name then true else rest

-- The end of `CreateImm`: a table that exists is no error.
abbrev pub unless_exists : Outcome (Unit {0}) → Outcome (Unit {0})
unless_exists (err (conn_error n)) = if n == eexist then ok tt else err (conn_error n)
unless_exists o = o

module _ (host : Host) where
  abbrev pub TablesMethod : Type 0 → Type 0
  TablesMethod = Action (Guarded TableMap × host.S)

  -- `create` on the store.
  abbrev pub created : Bytes → Family → TablesMethod NfTable
  unfolding create_table
  created name family = do
    m ← content_of
    let (t, m') = create_table name family m
    set_content m'
    pure t

  -- `Table` and `TableChains`
  unfoldable pub table_chains : Bytes → Family → TablesMethod (Option (Guarded ChainMap))
  table_chains name family = locked (do
    m ← content_of
    (elim (table_at name family m) [ some t ↦ pure (t.chains) | none ↦ lift (err no_table) ]))

  -- `TableSets`
  unfoldable pub table_sets : Bytes → Family → TablesMethod (Option (Guarded SetMap))
  table_sets name family = locked (do
    m ← content_of
    (elim (table_at name family m) [ some t ↦ pure (t.sets) | none ↦ lift (err no_table) ]))

  -- `Create`
  unfoldable pub create : Bytes → Family → TablesMethod (Unit {0})
  unfolding create_table
  create name family =
      locked (do t ← created name family; on_host (λ s. (ok tt, host.add_table t.table s)))

  -- `CreateImm`
  unfoldable pub create_imm : Bytes → Family → TablesMethod (Unit {0})
  unfolding create_table
  create_imm name family = locked (do
    t ← created name family
    on_host (λ s. (ok tt, host.add_table t.table s))
    o ← asking host.flush
    lift (unless_exists o))

  -- `get`
  abbrev pub get_names : Family → TablesMethod (List Bytes)
  get_names family = do ts ← on_host host.list_tables; pure (names_of family ts)

  -- `Get`
  unfoldable pub get : Family → TablesMethod (List Bytes)
  get family = locked (get_names family)

  -- What `Exist` makes of the answer of `get`.
  abbrev pub exist_listed : Bytes → Family → Outcome (List Table) → TablesMethod Bool
  exist_listed name family (ok ts) = pure (has_name name (names_of family ts))
  exist_listed name family (err e) = pure false
  exist_listed name family panic = lift panic
  exist_listed name family blocked = lift blocked

  -- `Exist`
  unfoldable pub exist : Bytes → Family → TablesMethod Bool
  exist name family = do
    m ← content_of
    (if is_some (table_at name family m)
        then pure true
        else (asking host.list_tables >>= exist_listed name family))

  -- `Delete`
  unfoldable pub delete : Bytes → Family → TablesMethod (Unit {0})
  unfolding exist drop_table drop_family
  delete name family = locked (do
    m ← content_of
    set_content (drop_table name family m)
    found ← exist name family
    (if found
        then on_host (λ s. (ok tt, host.del_table (record { family = family; name = name }) s))
        else pure tt)
    m ← content_of
    set_content (drop_family family m))

  -- `DeleteImm`
  unfoldable pub delete_imm : Bytes → Family → TablesMethod (Unit {0})
  unfolding delete
  delete_imm name family = (delete name family >> on_host host.flush)

-- `IsNFTablesOn`, on a new connection: an error of ListChains says no.
unfoldable pub is_nftables_on : (host : Host) → Action host.S Bool
is_nftables_on host s =
    let (o, t) = host.list_chains s in
    (elim o [ ok cs ↦ ok true | err e ↦ ok false | panic ↦ panic | blocked ↦ blocked ], t)
