-- ===== src/Chains/Idempotent.antt =====
-- Creating a chain again.
use nftableslib.Base.{
  ℕ, ℤ, true, ◌≡◌, refl, sym, ap, ◌∙◌, Option, none, some, is_some, Bytes, Outcome, ok, err, panic,
  blocked, lookup, insert, bytes_eq, eq_bytes_refl, lookup-insert, arith, ==_iff, Option-cases,
  Bool-cases, ◌⊎◌, inl, inr,
}
use mathlib.Core.Path.{subst}
use nftableslib.Nft.{Table, Chain}
use nftableslib.Host.{Host, Guarded}
use nftableslib.Host.Finishes.{free}
use nftableslib.RulesList.{Heap}
use nftableslib.Rule.Setters.{eq_int}
use nftableslib.Chains.Attributes.{
  ChainAttributes, ChainMap, NfChain, is_equal_chain, equal_policy, described_chain,
}
use nftableslib.Chains.Store.{entry_of, create_chain, create, validated}

eq_int_refl : (i : ℤ) → eq_int i i ≡ true
eq_int_refl i = ground arith

equal_policy_refl :
    (p : Option ℕ) (q : ℕ) → equal_policy p (some (elim p [ some x ↦ x | none ↦ q ])) ≡ true
equal_policy_refl none q = refl
equal_policy_refl (some p) q = ground arith

module _ (host : Host) (blank : Heap) (table : Table) where
  described-equal :
      (name : Bytes) (attrs : Option ChainAttributes)
      → is_equal_chain
          (entry_of host blank table (is_some attrs) (described_chain table name attrs))
          attrs
        ≡ true
  unfolding is_equal_chain
  described-equal name none = refl
  described-equal name (some a) = ground (
    arith,
    ==_iff a.hook a.hook,
    eq_bytes_refl a.chain_type,
    eq_int_refl a.priority,
    equal_policy_refl a.policy 1,
  )

  -- The entry that Create makes of what was asked for.
  abbrev made : Bytes → Option ChainAttributes → host.S → NfChain
  made name attrs s =
      entry_of host blank table (is_some attrs)
        (host.add_chain (described_chain table name attrs) s).0

  -- The two ways in which a call from a free mutex succeeds: the map is as it was and knows an equal
  -- chain, or it did not know the name and now has the entry made.
  abbrev Created :
      Bytes → Option ChainAttributes → ChainMap → host.S → Guarded ChainMap × host.S → Type 0
  Created name attrs m s (g, t) =
      ((ch : NfChain) × (g ≡ free m) × (lookup name m ≡ some ch) × (is_equal_chain ch attrs ≡ true))
      ⊎ (g ≡ free (insert name (made name attrs s) m))

  created_new :
      (name : Bytes) (attrs : Option ChainAttributes) (m : ChainMap) (s : host.S)
      (st : Guarded ChainMap × host.S) (o : Outcome (Unit {0}))
      → lookup name m ≡ none
      → validated attrs ≡ o
      → create host blank table name attrs (free m, s) ≡ (ok tt, st)
      → Created name attrs m s st
  unfolding create create_chain
  created_new name attrs m s st (ok u) unknown valid e = inr (ground (arith, unknown, valid, e))
  created_new name attrs m s st (err x) unknown valid e = absurd (ground (arith, unknown, valid, e))
  created_new name attrs m s st panic unknown valid e = absurd (ground (arith, unknown, valid, e))
  created_new name attrs m s st blocked unknown valid e = absurd (ground (arith, unknown, valid, e))

  created :
      (name : Bytes) (attrs : Option ChainAttributes) (m : ChainMap) (s : host.S)
      (st : Guarded ChainMap × host.S)
      → create host blank table name attrs (free m, s) ≡ (ok tt, st)
      → Created name attrs m s st
  unfolding create create_chain
  created name attrs m s st e = elim (Option-cases (lookup name m)) [
    | inr (ch, known) ↦ elim (Bool-cases (is_equal_chain ch attrs)) [
      | inl same ↦ inl (ch, ground (arith, known, same, e), known, same)
      | inr other ↦ absurd (ground (arith, known, other, e))
    ]
    | inl unknown ↦ created_new name attrs m s st (validated attrs) unknown refl e
  ]

  -- A chain that equals what is asked for is left as it is, and the connection is not called.
  create-known :
      (name : Bytes) (attrs : Option ChainAttributes) (m : ChainMap) (ch : NfChain) (t : host.S)
      → lookup name m ≡ some ch
      → is_equal_chain ch attrs ≡ true
      → create host blank table name attrs (free m, t) ≡ (ok tt, (free m, t))
  unfolding create create_chain
  create-known name attrs m ch t known same = ground (arith, known, same)

  -- Where the connection returns a chain as it was handed over, and Create with these attributes
  -- succeeds from a free mutex, a second Create with them succeeds too: it changes nothing and does
  -- not call the connection.
  pub create-twice :
      (name : Bytes) (attrs : Option ChainAttributes) (m : ChainMap) (s : host.S)
      (st : Guarded ChainMap × host.S)
      → ((c : Chain) (s : host.S) → (host.add_chain c s).0 ≡ c)
      → create host blank table name attrs (free m, s) ≡ (ok tt, st)
      → create host blank table name attrs st ≡ (ok tt, st)
  create-twice name attrs m s (g, t) returns e = elim (created name attrs m s (g, t) e) [
    | inl (ch, left, known, same) ↦
        subst (λ x. create host blank table name attrs (x, t) ≡ (ok tt, (x, t))) (sym left)
          (create-known name attrs m ch t known same)
    | inr new ↦
        let same =
          ap (λ c. is_equal_chain (entry_of host blank table (is_some attrs) c) attrs)
            (returns (described_chain table name attrs) s)
          ∙ described-equal name attrs in
        let known = lookup-insert name name (made name attrs s) m in
        subst (λ x. create host blank table name attrs (x, t) ≡ (ok tt, (x, t))) (sym new)
          (create-known name attrs _ (made name attrs s) t
            (ground (arith, known, eq_bytes_refl name)) same)
  ]
