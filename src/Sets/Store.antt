-- ===== src/Sets/Store.antt =====
-- `nfSets`: the map of a table's sets, behind a mutex.
use nftableslib.Base.{
  ℕ, ◌%◌, ◌^◌, Bool, true, false, not, Option, none, some, List, [], ◌∷◌, Bytes, Outcome, ok, err,
  panic, blocked, set_not_found, deref, is_some, lookup, insert, remove, bytes_eq, ◌==◌, ◌&&◌,
  if◌then◌else◌,
}
use nftableslib.Nft.{Table, NfSet, SetElement, SetDatatype}
use nftableslib.Host.{
  Host, Action, ◌>>=◌, ◌>>◌, pure, lift, on_host, Guarded, lock, unlock, locked, content_of,
  set_content,
}

-- `SetAttributes`; the timeout is a duration that is not negative.
pub record SetAttributes : Type 0 where
  pub name : Bytes
  pub constant : Bool
  pub is_map : Bool
  pub has_timeout : Bool
  pub timeout : ℕ
  pub interval : Bool
  pub key_type : SetDatatype
  pub data_type : SetDatatype

abbrev pub SetMap : Type 0
SetMap = List (Bytes × NfSet)

-- The set that `CreateSet` hands to the connection.
abbrev pub described_set : Table → ℕ → SetAttributes → NfSet
described_set table id attrs = record {
  table = some table;
  id = id % 2 ^ 32;
  name = attrs.name;
  anonymous = false;
  constant = attrs.constant;
  interval = attrs.interval;
  is_map = attrs.is_map;
  has_timeout = attrs.has_timeout;
  timeout = if attrs.has_timeout && not (attrs.timeout == 0) then attrs.timeout else 0;
  key_type = attrs.key_type;
  data_type = attrs.data_type;
}

module _ {S : Type 0} where
  -- `err == nil` of an answer.
  abbrev pub has_answer : Outcome NfSet × S → Outcome Bool × S
  has_answer (ok set, t) = (ok true, t)
  has_answer (err e, t) = (ok false, t)
  has_answer (panic, t) = (panic, t)
  has_answer (blocked, t) = (blocked, t)

  -- The error of a set that is not found, for any error.
  abbrev pub or_not_found : Outcome NfSet × S → Outcome NfSet × S
  or_not_found (ok set, t) = (ok set, t)
  or_not_found (err e, t) = (err set_not_found, t)
  or_not_found (panic, t) = (panic, t)
  or_not_found (blocked, t) = (blocked, t)

module _ (host : Host) where
  abbrev pub SetsMethod : Type 0 → Type 0
  SetsMethod = Action (Guarded SetMap × host.S)

  -- `rand.Intn(0xffff)`
  abbrev pub draw_id : Action host.S ℕ
  draw_id s = let (n, t) = host.rand_intn 0xffff s in (ok n, t)

  module _ (table : Table) where
    -- `CreateSet`, which reads through the pointer to the attributes before anything else. The list
    -- `se` that the code builds beside the elements is not used.
    unfoldable pub create_set : Option SetAttributes → List SetElement → SetsMethod NfSet
    create_set none elements = lift panic
    create_set (some attrs) elements = do
      id ← on_host draw_id
      s ← on_host (host.add_set (described_set table id attrs) elements)
      on_host host.flush
      locked (do m ← content_of; set_content (insert attrs.name s m); pure s)

    -- The test of the map under the lock.
    abbrev pub stored : Bytes → SetsMethod Bool
    stored name = do lock; m ← content_of; unlock; pure (is_some (lookup name m))

    -- Whether the connection finds the set; an error counts as no.
    abbrev pub programmed : Bytes → Action host.S Bool
    programmed name s = has_answer (host.get_set_by_name table name s)

    -- `Exist`
    unfoldable pub exist : Bytes → SetsMethod Bool
    exist name = do found ← stored name; (if found then on_host (programmed name) else pure false)

    -- `GetSetByName`: an error of the connection is the same error as a name that is not stored.
    unfoldable pub get_set_by_name : Bytes → SetsMethod NfSet
    get_set_by_name name = do
      found ← stored name
      (if found
          then on_host (λ s. or_not_found (host.get_set_by_name table name s))
          else lift (err set_not_found))

    -- `nfs.sets[name]`, read without the lock; the connection reads through the pointer.
    abbrev pub set_at : Bytes → SetsMethod NfSet
    set_at name = do m ← content_of; lift (deref (lookup name m))

    -- `DelSet`
    unfoldable pub del_set : Bytes → SetsMethod (Unit {0})
    unfolding exist
    del_set name = do
      found ← exist name
      (if found
          then (do
            set ← set_at name
            on_host λ s. (ok tt, host.del_set set s)
            on_host host.flush
            locked (do m ← content_of; set_content (remove name m)))
          else pure tt)

    -- `GetSets`
    unfoldable pub get_sets : SetsMethod (List NfSet)
    get_sets = on_host (host.get_sets table)

    -- `GetSetElements`, `SetAddElements` and `SetDelElements` share their guard.
    abbrev pub when_exists : {A : Type 0} → Bytes → (NfSet → SetsMethod A) → SetsMethod A
    when_exists name act = do
      found ← exist name
      (if found then (set_at name >>= act) else lift (err set_not_found))

    unfoldable pub get_set_elements : Bytes → SetsMethod (List SetElement)
    unfolding exist
    get_set_elements name = when_exists name λ set. on_host (host.get_set_elements set)

    unfoldable pub set_add_elements : Bytes → List SetElement → SetsMethod (Unit {0})
    unfolding exist
    set_add_elements name elements =
        when_exists name λ set. (on_host (host.set_add_elements set elements) >> on_host host.flush)

    unfoldable pub set_del_elements : Bytes → List SetElement → SetsMethod (Unit {0})
    unfolding exist
    set_del_elements name elements =
        when_exists name
          λ set. (on_host (host.set_delete_elements set elements) >> on_host host.flush)

    -- The loop of `Sync`. Behind the write the code locks once more where it should unlock.
    unfoldable pub sync_sets : List NfSet → SetsMethod (Unit {0})
    sync_sets [] = pure tt
    sync_sets (set ∷ sets) = do
      m ← content_of
      (elim (lookup set.name m) [
        | some known ↦ sync_sets sets
        | none ↦ do lock; set_content (insert set.name set m); lock; sync_sets sets
      ])

    -- `Sync`
    unfoldable pub sync : SetsMethod (Unit {0})
    unfolding sync_sets
    sync = do sets ← on_host (host.get_sets table); sync_sets sets

-- `newSets`
abbrev pub new_sets : Guarded SetMap
new_sets = record { held = false; content = [] }
