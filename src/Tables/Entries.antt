-- ===== src/Tables/Entries.antt =====
-- The entries of the tables' map behind the methods that change it.
use mathlib.Core.Path.{subst}
use nftableslib.Base.{
  ◌<◌, ◌≡◌, refl, sym, ◌∙◌, Bool, true, false, ◌&&◌, none, some, is_some, List, [], ◌∷◌, Bytes,
  Outcome, ok, err, panic, blocked, Error, lookup, insert, remove, nat_eq, bytes_eq, eq_bytes,
  lookup-insert, lookup-remove, length, ◌==◌, ==_iff, eq_bytes_iff, if◌then◌else◌, arith,
  Bool-cases, ◌⊎◌, inl, inr,
}
use nftableslib.Nft.{Family, Table}
use nftableslib.Host.{
  Host, ◌>>=◌, ◌>>◌, pure, on_host, Guarded, release_after, content_of, set_content,
}
use nftableslib.RulesList.{Heap}
use nftableslib.Host.Finishes.{Answering, returned, free}
use nftableslib.Tables.Store.{
  NfTable, FamilyMap, TableMap, tables_of, table_at, new_table, create_table, drop_table,
  drop_family, create, exist, exist_listed, delete, table_chains, table_sets, get, create_imm,
}
use nftableslib.Tables.Sync.{sync}

-- The key is the table's.
abbrev pub same_key : Bytes → Family → Bytes → Family → Bool
same_key name family n f = eq_bytes name n && (family == f)

table_at-insert :
    (name n : Bytes) (family f : Family) (inner : FamilyMap) (m : TableMap)
    → table_at n f (insert family inner m)
      ≡ (if family == f then lookup n inner else table_at n f m)
table_at-insert name n family f inner m = ground (arith, lookup-insert family f inner m)

put_new :
    (name n : Bytes) (family f : Family) (t : NfTable) (m : TableMap)
    → table_at n f (insert family (insert name t (tables_of family m)) m)
      ≡ (if same_key name family n f then some t else table_at n f m)
put_new name n family f t m = ground (
  arith,
  table_at-insert name n family f (insert name t (tables_of family m)) m,
  lookup-insert name n t (tables_of family m),
  ==_iff family f,
)

table_at-drop_table :
    (name n : Bytes) (family f : Family) (m : TableMap)
    → table_at n f (drop_table name family m)
      ≡ (if same_key name family n f then none else table_at n f m)
unfolding drop_table
table_at-drop_table name n family f m = ground (
  arith,
  table_at-insert name n family f (remove name (tables_of family m)) m,
  lookup-remove name n (tables_of family m),
  ==_iff family f,
  eq_bytes_iff name n,
)

empty_lookup : (n : Bytes) (inner : FamilyMap) → (length inner == 0) ≡ true → lookup n inner ≡ none
unfolding lookup
empty_lookup n [] h = refl
empty_lookup n (x ∷ inner) h = absurd (ground arith)

table_at-drop_family :
    (n : Bytes) (family f : Family) (m : TableMap)
    → table_at n f (drop_family family m) ≡ table_at n f m
unfolding drop_family lookup
table_at-drop_family n family f m =
    ground (arith, lookup-remove family f m, ==_iff family f, empty_lookup n (tables_of family m))

drop_family-lem :
    (family : Family) (m : TableMap)
    → (lookup family (drop_family family m) ≡ none)
      ⊎ (0 < length (tables_of family (drop_family family m)))
unfolding drop_family
drop_family-lem family m = elim (Bool-cases (length (tables_of family m) == 0)) [
  | inl empty ↦ inl (ground (arith, lookup-remove family family m, ==_iff family family, empty))
  | inr some_left ↦ inr (ground (arith, some_left))
]

-- The entry of a table that has both interfaces is left; any other is made anew.
abbrev pub entry_after : Bytes → Family → TableMap → NfTable
entry_after name family m = elim (table_at name family m) [
  | some t ↦ if is_some t.chains && is_some t.sets then t else new_table name family
  | none ↦ new_table name family
]

create_table-entry :
    (name n : Bytes) (family f : Family) (m : TableMap)
    → table_at n f (create_table name family m).1
      ≡ (if same_key name family n f then some (entry_after name family m) else table_at n f m)
unfolding create_table
create_table-entry name n family f m =
    ground (
      arith,
      put_new name n family f (new_table name family) m,
      ==_iff family f,
      eq_bytes_iff name n,
    )

module _ (host : Host) where
  -- From a free mutex Create succeeds and leaves it free, and the map has the entry of that name and
  -- family: the one that it had, if that has both interfaces, and otherwise a new one without chains
  -- and sets. Every other entry is as it was.
  pub create-Entries :
      (name : Bytes) (family : Family) (m : TableMap) (s : host.S)
      → (m' : TableMap) × (t : host.S) × (create host name family (free m, s)
          ≡ (ok tt, (free m', t)))
        × ((n : Bytes) (f : Family)
            → table_at n f m' ≡ (
                if same_key name family n f
                then some (entry_after name family m)
                else table_at n f m))
  unfolding create
  create-Entries name family m s = (
    (create_table name family m).1,
    host.add_table (create_table name family m).0.table s,
    refl,
    λ n f. create_table-entry name n family f m,
  )

  abbrev held : TableMap → Guarded TableMap
  held m = record { held = true; content = m }

  exist_listed-ok :
      (name : Bytes) (family : Family) (g : Guarded TableMap) (r : Outcome (List Table) × host.S)
      → returned r.0 ≡ true
      → (b : Bool) × (exist_listed host name family r.0 (g, r.1) ≡ (ok b, (g, r.1)))
  exist_listed-ok name family g (ok ts, t) h = (_, refl)
  exist_listed-ok name family g (err e, t) h = (false, refl)
  exist_listed-ok name family g (panic, t) h = absurd (ground arith)
  exist_listed-ok name family g (blocked, t) h = absurd (ground arith)

  exist-ok :
      (answering : Answering host) (name : Bytes) (family : Family) (g : Guarded TableMap)
      (s : host.S)
      → (b : Bool) × (t : host.S) × (exist host name family (g, s) ≡ (ok b, (g, t)))
  unfolding exist
  exist-ok answering name family g s =
      let (b, e) = exist_listed-ok name family g (host.list_tables s) (answering.list_tables s) in
      elim (Bool-cases (is_some (table_at name family g.content))) [
        | inl stored ↦ (true, s, ground (arith, stored))
        | inr missing ↦ (b, (host.list_tables s).1, ground (arith, missing, e))
      ]

  -- The end of Delete, behind the answer of Exist.
  abbrev finish :
      Bytes
      → Family
      → Outcome Bool × (Guarded TableMap × host.S)
      → Outcome (Unit {0}) × (Guarded TableMap × host.S)
  finish name family r = release_after (
      ((λ st. r) >>= λ found. (do
        (if found
            then on_host (λ s. (ok tt, host.del_table (record { family = family; name = name }) s))
            else pure tt)
        m ← content_of
        set_content (drop_family family m)))
        r.1)

  finish-ok :
      (name : Bytes) (family : Family) (m : TableMap) (found : Bool) (t : host.S)
      → (t' : host.S) × (finish name family (ok found, (held m, t))
          ≡ (ok tt, (free (drop_family family m), t')))
  finish-ok name family m true t = (_, refl)
  finish-ok name family m false t = (t, refl)

  -- Where the connection's calls return and the mutex is free, Delete succeeds and leaves it free; the
  -- map has no entry of that name and family, every other entry is as it was, and a family that has
  -- no table left is not in the map.
  pub delete-Entries :
      (name : Bytes) (family : Family) (m : TableMap) (s : host.S)
      → Answering host
      → (m' : TableMap) × (t : host.S) × (delete host name family (free m, s)
          ≡ (ok tt, (free m', t)))
        × ((n : Bytes) (f : Family)
            → table_at n f m' ≡ (if same_key name family n f then none else table_at n f m))
        × ((lookup family m' ≡ none) ⊎ (0 < length (tables_of family m')))
  unfolding delete
  delete-Entries name family m s answering =
      let m1 = drop_table name family m in
      let (b, t, e) = exist-ok answering name family (held m1) s in
      let (t', done) = finish-ok name family m1 b t in
      (
        drop_family family m1,
        t',
        subst (λ r. finish name family r ≡ (ok tt, (free (drop_family family m1), t'))) (sym e)
            done,
        λ n f. table_at-drop_family n family f m1 ∙ table_at-drop_table name n family f m,
        drop_family-lem family m1,
      )

  -- Where ListTables fails, Sync returns its error with the mutex locked: a call of Create, CreateImm,
  -- Delete, Get, Table, TableChains or TableSets that follows waits for it without end and changes
  -- nothing.
  pub sync-Holds :
      (blank : Heap) (name : Bytes) (family f : Family) (m : TableMap) (s t : host.S) (e : Error)
      → host.list_tables s ≡ (err e, t)
      → (st : Guarded TableMap × host.S) × (sync host blank family (free m, s) ≡ (err e, st))
        × (create host name f st ≡ (blocked, st))
        × (create_imm host name f st ≡ (blocked, st))
        × (delete host name f st ≡ (blocked, st))
        × (get host f st ≡ (blocked, st))
        × (table_chains host name f st ≡ (blocked, st))
        × (table_sets host name f st ≡ (blocked, st))
  unfolding sync create create_imm delete get table_chains table_sets
  sync-Holds blank name family f m s t e h =
      ((held m, t), ground (arith, h), refl, refl, refl, refl, refl, refl)
