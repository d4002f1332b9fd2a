-- ===== src/Sets/Contents.antt =====
-- What the methods of `nfSets` do to the map of the sets.
use mathlib.Core.Path.{subst}
use nftableslib.Base.{
  Bool, true, false, ◌≡◌, refl, sym, none, some, List, [], ◌∷◌, Bytes, Outcome, ok, deref, err,
  panic, blocked, Option, is_some, lookup, insert, remove, bytes_eq, lookup-insert, lookup-remove,
  eq_bytes, arith, if◌then◌else◌, Option-cases, inl, inr,
}
use nftableslib.Nft.{Table, NfSet, SetElement}
use nftableslib.Host.{Host, ◌>>=◌, ◌>>◌, pure, on_host, locked, content_of, set_content, Guarded}
use nftableslib.Host.Finishes.{free}
use nftableslib.Sets.Store.{
  SetAttributes, SetMap, SetsMethod, described_set, create_set, exist, del_set, set_at, sync_sets,
  sync,
}

module _ {S : Type 0} where
  -- A name maps to the set after the value `ok set`; an error leaves the map.
  abbrev pub Creates : Bytes → SetMap → Outcome NfSet × (Guarded SetMap × S) → Type 0
  Creates name m (ok set, (g, s)) =
      (j : Bytes) → lookup j g.content ≡ (if eq_bytes name j then some set else lookup j m)
  Creates name m (err e, (g, s)) = g.content ≡ m
  Creates name m (panic, (g, s)) = g.content ≡ m
  Creates name m (blocked, (g, s)) = g.content ≡ m

  -- The name is gone, if the set was known to the store and to the host; an error leaves the map.
  abbrev pub Deletes : Bytes → SetMap → Bool → Outcome (Unit {0}) × (Guarded SetMap × S) → Type 0
  Deletes name m true (ok u, (g, s)) =
      (j : Bytes) → lookup j g.content ≡ (if eq_bytes name j then none else lookup j m)
  Deletes name m false (ok u, (g, s)) = g.content ≡ m
  Deletes name m found (err e, (g, s)) = g.content ≡ m
  Deletes name m found (panic, (g, s)) = g.content ≡ m
  Deletes name m found (blocked, (g, s)) = g.content ≡ m

module _ (host : Host) (table : Table) where
  -- A method that goes on from an answer of the connection.
  abbrev from :
      {A B : Type 0}
      → SetMap
      → Outcome A × host.S
      → (A → SetsMethod host B)
      → Outcome B × (Guarded SetMap × host.S)
  from m r k = ((λ st. (r.0, (free m, r.1))) >>= k) (free m, r.1)

  Creates-stored :
      (name : Bytes) (m : SetMap) (set : NfSet) (r : Outcome (Unit {0}) × host.S)
      → Creates name m
          (from m r λ done. locked (do m' ← content_of; set_content (insert name set m'); pure set))
  Creates-stored name m set (ok u, t) = λ j. lookup-insert name j set m
  Creates-stored name m set (err e, t) = refl
  Creates-stored name m set (panic, t) = refl
  Creates-stored name m set (blocked, t) = refl

  Creates-flushed :
      (name : Bytes) (m : SetMap) (r : Outcome NfSet × host.S)
      → Creates name m (
          from m r λ set.
            (on_host host.flush
              >> locked (do m' ← content_of; set_content (insert name set m'); pure set)))
  Creates-flushed name m (ok set, t) = Creates-stored name m set (host.flush t)
  Creates-flushed name m (err e, t) = refl
  Creates-flushed name m (panic, t) = refl
  Creates-flushed name m (blocked, t) = refl

  -- From a free mutex CreateSet, where it returns a set, has put it under its name into the map and
  -- changed no other name; otherwise the map is as it was.
  pub create_set-Creates :
      (attrs : SetAttributes) (es : List SetElement) (m : SetMap) (s : host.S)
      → Creates attrs.name m (create_set host table (some attrs) es (free m, s))
  unfolding create_set
  create_set-Creates attrs es m s =
      let (id, t) = host.rand_intn 0xffff s in
      Creates-flushed attrs.name m (host.add_set (described_set table id attrs) es t)

  Deletes-flushed :
      (name : Bytes) (m : SetMap) (r : Outcome (Unit {0}) × host.S)
      → Deletes name m true
          (from m r λ done. locked (do m' ← content_of; set_content (remove name m')))
  Deletes-flushed name m (ok u, t) = λ j. lookup-remove name j m
  Deletes-flushed name m (err e, t) = refl
  Deletes-flushed name m (panic, t) = refl
  Deletes-flushed name m (blocked, t) = refl

  -- The body of DelSet behind its guard.
  abbrev deleting : Bytes → NfSet → SetsMethod host (Unit {0})
  deleting name set = do
    on_host λ s. (ok tt, host.del_set set s)
    on_host host.flush
    locked (do m ← content_of; set_content (remove name m))

  Deletes-found :
      (name : Bytes) (m : SetMap) (s : host.S) (o : Option NfSet)
      → Deletes name m true (from m (deref o, s) (deleting name))
  Deletes-found name m s (some set) = Deletes-flushed name m (host.flush (host.del_set set s))
  Deletes-found name m s none = refl

  -- DelSet behind the answer of its guard.
  abbrev guarded :
      Bytes
      → Outcome Bool × (Guarded SetMap × host.S)
      → Outcome (Unit {0}) × (Guarded SetMap × host.S)
  guarded name r =
      ((λ st. r) >>= λ found. if found then (set_at host table name >>= deleting name) else pure tt)
        r.1

  -- Where Exist answers from a free mutex, DelSet does this: it removes the name and leaves all
  -- others if the answer is yes and no call fails; otherwise the map is as it was.
  pub del_set-Deletes :
      (name : Bytes) (m : SetMap) (s t : host.S) (found : Bool)
      → exist host table name (free m, s) ≡ (ok found, (free m, t))
      → Deletes name m found (del_set host table name (free m, s))
  unfolding del_set
  del_set-Deletes name m s t true e =
      subst (λ r. Deletes name m true (guarded name r)) (sym e)
        (Deletes-found name m t (lookup name m))
  del_set-Deletes name m s t false e =
      subst (λ r. Deletes name m false (guarded name r)) (sym e) refl

  -- The first set that the map does not know.
  abbrev pub first_unknown : SetMap → List NfSet → Option NfSet
  first_unknown m [] = none
  first_unknown m (set ∷ sets) =
      if is_some (lookup set.name m) then first_unknown m sets else some set

  -- Where it stops: with everything known it is done; otherwise the first unknown set is stored and
  -- the method waits for the mutex that it holds.
  abbrev pub synced :
      SetMap → host.S → Option NfSet → Outcome (Unit {0}) × (Guarded SetMap × host.S)
  synced m s none = (ok tt, (free m, s))
  synced m s (some set) = (blocked, (record { held = true; content = insert set.name set m }, s))

  sync_sets-synced :
      (m : SetMap) (sets : List NfSet) (s : host.S)
      → sync_sets host table sets (free m, s) ≡ synced m s (first_unknown m sets)
  unfolding sync_sets
  sync_sets-synced m [] s = refl
  sync_sets-synced m (set ∷ sets) s = elim (Option-cases (lookup set.name m)) [
    | inl e ↦ ground (arith, e)
    | inr (known, e) ↦ ground (arith, e, sync_sets-synced m sets s)
  ]

  -- Where the mutex is free and the connection lists the sets of the table, Sync returns without an
  -- error and leaves the map, if the map knows the names of all those sets; otherwise it puts the
  -- first that it does not know into the map and then waits for the mutex that it holds itself.
  pub sync-synced :
      (m : SetMap) (s t : host.S) (sets : List NfSet)
      → host.get_sets table s ≡ (ok sets, t)
      → sync host table (free m, s) ≡ synced m t (first_unknown m sets)
  unfolding sync
  sync-synced m s t sets e =
      subst (λ r. from m r (sync_sets host table) ≡ synced m t (first_unknown m sets)) (sym e)
        (sync_sets-synced m sets t)
