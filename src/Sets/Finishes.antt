-- ===== src/Sets/Finishes.antt =====
-- The methods of `nfSets` return, with the mutex free; `Sync` does where it learns nothing new.
use mathlib.Core.Path.{subst}
use nftableslib.Base.{
  Bool, true, false, ◌≡◌, refl, sym, List, Bytes, Outcome, ok, err, panic, blocked, is_some, ◌⊎◌,
  inl, inr, lookup, insert, remove, bytes_eq, some, arith, if◌then◌else◌, Bool-cases, Option-cases,
}
use nftableslib.Nft.{Table, NfSet, SetElement}
use nftableslib.Host.{Host, ◌>>=◌, Guarded}
use nftableslib.Host.Finishes.{
  Answering, returned, free, Ended, Finishes, Finishes-bind, Finishes-pure, Finishes-locked,
  Finishes-content, Finishes-set_content, Finishes-host,
}
use nftableslib.Sets.Store.{
  SetAttributes, SetMap, SetsMethod, draw_id, described_set, has_answer, or_not_found, create_set,
  exist, get_set_by_name, set_at, del_set, when_exists, get_sets, get_set_elements,
  set_add_elements, set_del_elements,
}

module _ {S : Type 0} where
  has_answer-ok :
      (r : Outcome NfSet × S) → returned r.0 ≡ true → (b : Bool) × (has_answer r ≡ (ok b, r.1))
  has_answer-ok (ok set, t) h = (true, refl)
  has_answer-ok (err e, t) h = (false, refl)
  has_answer-ok (panic, t) h = ground arith
  has_answer-ok (blocked, t) h = ground arith

  or_not_found-returned :
      (r : Outcome NfSet × S) → returned r.0 ≡ true → returned (or_not_found r).0 ≡ true
  or_not_found-returned (ok set, t) h = h
  or_not_found-returned (err e, t) h = h
  or_not_found-returned (panic, t) h = h
  or_not_found-returned (blocked, t) h = h

module _ (host : Host) (answering : Answering host) (table : Table) where
  -- Where the store knows the name, the method runs from a map that knows it.
  abbrev FinishesAt : {A : Type 0} → Bytes → SetsMethod host A → Type 0
  FinishesAt name m =
      (map : SetMap) (s : host.S) → is_some (lookup name map) ≡ true → Ended (m (free map, s))

  exist-cases :
      (name : Bytes) (map : SetMap) (s : host.S)
      → ((t : host.S) × (exist host table name (free map, s) ≡ (ok true, (free map, t)))
          × (is_some (lookup name map) ≡ true))
        ⊎ ((t : host.S) × (exist host table name (free map, s) ≡ (ok false, (free map, t))))
  unfolding exist
  exist-cases name map s =
      let (b, e) =
        has_answer-ok (host.get_set_by_name table name s)
          (answering.get_set_by_name table name s) in
      let t = (host.get_set_by_name table name s).1 in
      elim (Bool-cases (is_some (lookup name map))) [
        | inl found ↦ elim (Bool-cases b) [
          | inl known ↦ inl (t, ground (arith, found, e, known), found)
          | inr unknown ↦ inr (t, ground (arith, found, e, unknown))
        ]
        | inr missing ↦ inr (s, ground (arith, missing))
      ]

  -- The state behind the guard's answer.
  abbrev After :
      {A : Type 0}
      → SetsMethod host A
      → SetsMethod host A
      → Outcome Bool × (Guarded SetMap × host.S)
      → Type 0
  After m k r = Ended (((λ st. r) >>= λ found. if found then m else k) r.1)

  if_exists :
      {A : Type 0} (name : Bytes) (m k : SetsMethod host A)
      → FinishesAt name m
      → Finishes k
      → Finishes (exist host table name >>= λ found. if found then m else k)
  if_exists name m k h j = record {
    ends = λ map s. elim (exist-cases name map s) [
      | inl (t, e, found) ↦ subst (After m k) (sym e) (h map t found)
      | inr (t, e) ↦ subst (After m k) (sym e) (j.ends map t)
    ];
  }

  set_at-ok :
      (name : Bytes) (map : SetMap) (s : host.S)
      → is_some (lookup name map) ≡ true
      → (set : NfSet) × (set_at host table name (free map, s) ≡ (ok set, (free map, s)))
  set_at-ok name map s h = elim (Option-cases (lookup name map)) [
    | inl e ↦ ground (arith, e, h)
    | inr (set, e) ↦ (set, rw e refl)
  ]

  create_set-Finishes :
      (attrs : SetAttributes) (es : List SetElement)
      → Finishes (create_set host table (some attrs) es)
  unfolding create_set
  create_set-Finishes attrs es = Finishes-bind _ _ (Finishes-host (draw_id host) (λ s. refl)) λ id.
      Finishes-bind _ _
        (Finishes-host (host.add_set (described_set table id attrs) es) (answering.add_set _ es))
        λ set. Finishes-bind _ _ (Finishes-host host.flush answering.flush) λ done.
          Finishes-locked _ (
            Finishes-bind _ _ Finishes-content λ map.
              Finishes-bind _ _ (Finishes-set_content (insert attrs.name set map))
                λ last. Finishes-pure set)

  get_set_by_name-Finishes : (name : Bytes) → Finishes (get_set_by_name host table name)
  unfolding get_set_by_name
  get_set_by_name-Finishes name = record {
    ends = λ map s.
        let answer =
          or_not_found-returned (host.get_set_by_name table name s)
            (answering.get_set_by_name table name s) in
        elim (Bool-cases (is_some (lookup name map))) [
          | inl e ↦ ground (arith, e, answer)
          | inr e ↦ ground (arith, e)
        ];
  }

  exist-Finishes : (name : Bytes) → Finishes (exist host table name)
  exist-Finishes name = record {
    ends = λ map s. elim (exist-cases name map s) [
      | inl (t, e, found) ↦ rw e (refl, refl)
      | inr (t, e) ↦ rw e (refl, refl)
    ];
  }

  at_set :
      {A : Type 0} (name : Bytes) (act : NfSet → SetsMethod host A)
      → ((set : NfSet) → Finishes (act set))
      → FinishesAt name (set_at host table name >>= act)
  at_set name act h map s found =
      let (set, e) = set_at-ok name map s found in
      subst (λ r. Ended (((λ st. r) >>= act) r.1)) (sym e) ((h set).ends map s)

  del_set-Finishes : (name : Bytes) → Finishes (del_set host table name)
  unfolding del_set
  del_set-Finishes name =
      if_exists name _ _
        (at_set name _ λ set.
          Finishes-bind _ _ (Finishes-host (λ s. (ok tt, host.del_set set s)) (λ s. refl)) λ a.
            Finishes-bind _ _ (Finishes-host host.flush answering.flush) λ b.
              Finishes-locked _
                (Finishes-bind _ _ Finishes-content λ map. Finishes-set_content (remove name map)))
        (Finishes-pure tt)

  when_exists-Finishes :
      {A : Type 0} (name : Bytes) (act : NfSet → SetsMethod host A)
      → ((set : NfSet) → Finishes (act set))
      → Finishes (when_exists host table name act)
  unfolding exist
  when_exists-Finishes name act h =
      if_exists name _ _ (at_set name act h) (record { ends = λ map s. (refl, refl) })

  -- Where the connection's calls return and the mutex of nfSets is free, CreateSet with attributes
  -- that are not nil, Exist, GetSetByName, DelSet, GetSets, GetSetElements, SetAddElements and
  -- SetDelElements return a value or an error, without a panic and without waiting for the mutex,
  -- and leave it free.
  pub methods-Finish :
      (attrs : SetAttributes) (name : Bytes) (es : List SetElement)
      → Finishes (create_set host table (some attrs) es)
        × Finishes (exist host table name)
        × Finishes (get_set_by_name host table name)
        × Finishes (del_set host table name)
        × Finishes (get_sets host table)
        × Finishes (get_set_elements host table name)
        × Finishes (set_add_elements host table name es)
        × Finishes (set_del_elements host table name es)
  unfolding get_sets get_set_elements set_add_elements set_del_elements
  methods-Finish attrs name es = (
    create_set-Finishes attrs es,
    exist-Finishes name,
    get_set_by_name-Finishes name,
    del_set-Finishes name,
    Finishes-host (host.get_sets table) (answering.get_sets table),
    when_exists-Finishes name _
        λ set. Finishes-host (host.get_set_elements set) (answering.get_set_elements set),
    when_exists-Finishes name _ λ set.
        Finishes-bind _ _
          (Finishes-host (host.set_add_elements set es) (answering.set_add_elements set es))
          λ done. Finishes-host host.flush answering.flush,
    when_exists-Finishes name _ λ set.
        Finishes-bind _ _
          (Finishes-host (host.set_delete_elements set es) (answering.set_delete_elements set es))
          λ done. Finishes-host host.flush answering.flush,
  )
