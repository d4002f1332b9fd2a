-- ===== src/Chains/Locked.antt =====
-- The methods of `nfChains` that run under the mutex return, and release it.
use nftableslib.Base.{
  ℕ, zero, suc, ◌≡◌, refl, Bool, true, false, Option, none, some, is_some, Bytes, Outcome, ok, err,
  panic, blocked, Error, no_chain, chain_exists, lookup, insert, remove, bytes_eq, if◌then◌else◌,
  arith,
}
use nftableslib.Nft.{Table, Chain}
use nftableslib.Host.{Host, Action, ◌>>=◌, ◌>>◌, pure, lift, on_host, set_content}
use nftableslib.Host.Finishes.{
  Answering, returned, EndsWith, Finishes, Finishes-bind, Finishes-pure, Finishes-error,
  Finishes-content, Finishes-set_content, Finishes-host, Finishes-locked,
}
use nftableslib.RulesList.{Heap}
use nftableslib.Chains.Attributes.{
  ChainMap, ChainAttributes, NfChain, is_equal_chain, validate_attributes, described_chain,
}
use nftableslib.Chains.Store.{
  ChainsMethod, validated, entry_of, chain, delete, create_new, create_chain, create, create_imm,
}
use nftableslib.Chains.Retry.{is_busy, answer, attempt, delete_rounds, delete_imm}

module _ (host : Host) (blank : Heap) (table : Table) (answering : Answering host) where
  pub if_both :
      {A : Type 0} (b f : Bool) (m k : ChainsMethod host A)
      → EndsWith b m
      → EndsWith b k
      → EndsWith b (if f then m else k)
  if_both b true m k h j = h
  if_both b false m k h j = j

  if_known :
      {A : Type 0} (b : Bool) (o : Option NfChain) (k : NfChain → ChainsMethod host A)
      (j : ChainsMethod host A)
      → ((c : NfChain) → EndsWith b (k c))
      → EndsWith b j
      → EndsWith b (elim o as (λ x. ChainsMethod host A) [ some c ↦ k c | none ↦ j ])
  if_known b (some c) k j h g = h c
  if_known b none k j h g = g

  pub chain-Finishes : (name : Bytes) → Finishes (chain host name)
  unfolding chain
  chain-Finishes name = Finishes-locked _ (
      Finishes-bind _ _ Finishes-content λ m.
        if_known true (lookup name m) (λ c. pure c.rules) (lift (err no_chain))
          (λ c. Finishes-pure c.rules) (Finishes-error no_chain))

  pub delete-Finishes : (name : Bytes) → Finishes (delete host name)
  unfolding delete
  delete-Finishes name = Finishes-locked _ (
      Finishes-bind _ _ Finishes-content λ m.
        if_known true (lookup name m)
          (λ c. on_host (λ s. (ok tt, host.del_chain c.chain s)) >> set_content (remove name m))
          (lift (err no_chain))
          (λ c.
            Finishes-bind _ _ (Finishes-host (λ s. (ok tt, host.del_chain c.chain s)) (λ s. refl))
              λ done. Finishes-set_content (remove name m))
          (Finishes-error no_chain))

  answer-Ends :
      (name : Bytes) (again : Error → ChainsMethod host (Unit {0})) (o : Outcome (Unit {0}))
      → returned o ≡ true
      → ((e : Error) → EndsWith true (again e))
      → EndsWith true (answer host name again o)
  answer-Ends name again (ok u) h k =
      Finishes-bind _ _ Finishes-content λ m. Finishes-set_content (remove name m)
  answer-Ends name again (err e) h k =
      if_both true (is_busy e) (again e) (lift (err e)) (k e) (Finishes-error e)
  answer-Ends name again panic h k = absurd (ground arith)
  answer-Ends name again blocked h k = absurd (ground arith)

  -- A round: the answer is one that flush gives.
  round-Ends :
      (name : Bytes) (c : Option Chain) (again : Error → ChainsMethod host (Unit {0}))
      → ((e : Error) → EndsWith true (again e))
      → EndsWith true (on_host (attempt host c) >>= answer host name again)
  round-Ends name c again k = record {
    ends = λ m s.
        let t = host.del_chain c s in
        (answer-Ends name again (host.flush t).0 (answering.flush t) k).ends m (host.flush t).1;
  }

  delete_rounds-Ends :
      (ticks : ℕ) (name : Bytes) (c : Option Chain)
      → EndsWith true (delete_rounds host ticks name c)
  unfolding delete_rounds
  delete_rounds-Ends zero name c = round-Ends name c (λ e. lift (err e)) Finishes-error
  delete_rounds-Ends (suc ticks) name c =
      round-Ends name c (λ e. delete_rounds host ticks name c)
        (λ e. delete_rounds-Ends ticks name c)

  pub delete_imm-Finishes : (ticks : ℕ) (name : Bytes) → Finishes (delete_imm host ticks name)
  unfolding delete_imm
  delete_imm-Finishes ticks name = Finishes-locked _ (
      Finishes-bind _ _ Finishes-content λ m.
        if_known true (lookup name m) (λ c. delete_rounds host ticks name c.chain)
          (lift (err no_chain)) (λ c. delete_rounds-Ends ticks name c.chain)
          (Finishes-error no_chain))

  validated-Ends :
      (attrs : Option ChainAttributes)
      → EndsWith {T = ChainMap} {S = host.S} true (lift (validated attrs))
  unfolding validate_attributes
  validated-Ends none = Finishes-pure tt
  validated-Ends (some a) = record { ends = λ m s. ground arith }

  create_chain-Ends :
      (name : Bytes) (attrs : Option ChainAttributes)
      → EndsWith true (create_chain host blank table name attrs)
  unfolding create_chain
  create_chain-Ends name attrs =
      let add : Action host.S Chain =
        λ s. let (c, t) = host.add_chain (described_chain table name attrs) s in (ok c, t) in
      Finishes-bind _ _ Finishes-content λ m.
        if_known true (lookup name m)
          (λ ch. if is_equal_chain ch attrs then pure tt else lift (err chain_exists))
          (create_new host blank table name attrs)
          (λ ch.
            if_both true (is_equal_chain ch attrs) (pure tt) (lift (err chain_exists))
              (Finishes-pure tt) (Finishes-error chain_exists))
          (Finishes-bind _ _ (validated-Ends attrs) λ fine.
            Finishes-bind _ _ (Finishes-host add (λ s. refl)) λ c.
              Finishes-bind _ _ Finishes-content λ m'.
                Finishes-set_content (insert name (entry_of host blank table (is_some attrs) c) m'))

  pub create-Finishes :
      (name : Bytes) (attrs : Option ChainAttributes)
      → Finishes (create host blank table name attrs)
  unfolding create
  create-Finishes name attrs = Finishes-locked _ (create_chain-Ends name attrs)

  pub create_imm-Finishes :
      (name : Bytes) (attrs : Option ChainAttributes)
      → Finishes (create_imm host blank table name attrs)
  unfolding create_imm
  create_imm-Finishes name attrs = Finishes-locked _ (
      Finishes-bind _ _ (create_chain-Ends name attrs)
        λ done. Finishes-host host.flush answering.flush)
