-- ===== src/Lifecycle/SyncReturns.antt =====
-- `nfRules.Sync` of a new list returns.
use nftableslib.Base.{
  ◌≡◌, refl, true, List, [], ◌∷◌, Bytes, Outcome, ok, err, panic, blocked, arith,
}
use nftableslib.Nft.{Table, NfRule}
use nftableslib.Host.{Host, Action, ◌>>=◌, pure, on_host, on_store}
use nftableslib.Host.Finishes.{Answering, returned}
use nftableslib.RulesList.{Heap, new_rules}
use nftableslib.RulesList.Store.{Ledger, Implements, append_rule}
use nftableslib.RulesList.Removal.{Matches}
use nftableslib.Lifecycle.Simulation.{Same}
use nftableslib.Lifecycle.Sync.{lookup_names, named_in, read_sets, sync, append_rules, sync-Agrees}

module _ {S : Type 0} where
  -- Steps that return from every state.
  pub record Returns {A : Type 0} (m : Action S A) : Type 0 where
    pub ends : (s : S) → returned (m s).0 ≡ true

  Returns-answer :
      {A B : Type 0} (r : Outcome A × S) (k : A → Action S B)
      → returned r.0 ≡ true
      → ((a : A) → Returns (k a))
      → returned (((λ (s : S). r) >>= k) r.1).0 ≡ true
  Returns-answer (ok a, s) k h next = (next a).ends s
  Returns-answer (err e, s) k h next = h
  Returns-answer (panic, s) k h next = h
  Returns-answer (blocked, s) k h next = h

  pub Returns-bind :
      {A B : Type 0} (m : Action S A) (k : A → Action S B)
      → Returns m
      → ((a : A) → Returns (k a))
      → Returns (m >>= k)
  Returns-bind m k h next = record { ends = λ s. Returns-answer (m s) k (h.ends s) next }

  pub Returns-pure : {A : Type 0} (a : A) → Returns (pure a)
  Returns-pure a = record { ends = λ s. refl }

module _ {S R : Type 0} where
  Returns-on_host : {A : Type 0} (m : Action S A) → Returns m → Returns (on_host {R = R} m)
  Returns-on_host m h = record { ends = λ s. h.ends s.1 }

new_rules-Implements :
    (blank : Heap) → Implements (new_rules blank) (record { rules = []; next_id = 10 })
new_rules-Implements blank = ([], (refl, tt, tt, omega arith), refl)

module _ (host : Host) (answering : Answering host) (table : Table) where
  read_sets-Returns : (names : List Bytes) → Returns (read_sets host table names)
  unfolding read_sets
  read_sets-Returns [] = Returns-pure []
  read_sets-Returns (name ∷ names) =
      Returns-bind _ _
        (Returns-bind (host.get_sets table) _ (record { ends = answering.get_sets table })
          λ sets. Returns-pure (named_in host table name sets))
        λ set.
          Returns-bind (host.get_set_elements set) _
            (record { ends = answering.get_set_elements set })
            λ elements.
              Returns-bind _ _ (read_sets-Returns names)
                λ rest. Returns-pure (record { set = set; elements = elements } ∷ rest)

  append_rules-Returns : (rules : List NfRule) → Returns (append_rules host table rules)
  append_rules-Returns [] = Returns-pure tt
  append_rules-Returns (rule ∷ rules) =
      Returns-bind _ _
        (Returns-on_host (read_sets host table (lookup_names rule.exprs))
          (read_sets-Returns (lookup_names rule.exprs)))
        λ sets.
          Returns-bind (on_store λ l. ok (append_rule rule sets l)) _ (record { ends = λ s. refl })
            λ done. append_rules-Returns rules

  Matches-returned :
      {A : Type 0} (o o' : Outcome A)
      → Matches (Same host) o o'
      → returned o' ≡ true
      → returned o ≡ true
  Matches-returned (ok a) o' p h = refl
  Matches-returned (err e) o' p h = refl
  Matches-returned panic (ok a) p h = absurd (cc)
  Matches-returned panic (err e) p h = absurd (cc)
  Matches-returned panic panic p h = h
  Matches-returned panic blocked p h = h
  Matches-returned blocked (ok a) p h = absurd (cc)
  Matches-returned blocked (err e) p h = absurd (cc)
  Matches-returned blocked panic p h = h
  Matches-returned blocked blocked p h = h

  pub sync-returned :
      (blank : Heap) (chain : Bytes) (s : host.S)
      → returned (sync host table chain (new_rules blank, s)).0 ≡ true
  sync-returned blank chain s =
      let plain : Ledger = (record { rules = []; next_id = 10 }) in
      Matches-returned _ _
        (sync-Agrees host table chain (new_rules blank) plain s (new_rules-Implements blank)).0
        ((Returns-bind (on_host (host.get_rule table chain)) (append_rules host table)
            (record { ends = λ st. answering.get_rule table chain st.1 }) append_rules-Returns).ends
          (plain, s))
