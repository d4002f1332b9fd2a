-- ===== src/Chains/Rounds.antt =====
-- The retries of `DeleteImm` end.
use nftableslib.Base.{
  ℕ, zero, suc, ◌≤◌, ◌≡◌, refl, ap, Bool, true, false, Option, some, Bytes, Outcome, ok, err, panic,
  blocked, lookup, remove, bytes_eq, arith, Bool-cases, ◌⊎◌, inl, inr,
}
use nftableslib.Nft.{Chain}
use nftableslib.Host.{Host, lift, Guarded}
use nftableslib.Host.Finishes.{free}
use nftableslib.Chains.Attributes.{ChainMap, NfChain}
use nftableslib.Chains.Retry.{is_busy, answer, delete_rounds, delete_imm}

-- A busy outcome is an error that is tried again.
abbrev pub busy : Outcome (Unit {0}) → Bool
busy (err e) = is_busy e
busy (ok u) = false
busy panic = false
busy blocked = false

-- The map behind a deletion with this outcome.
abbrev pub without : Bytes → ChainMap → Outcome (Unit {0}) → ChainMap
without name m (ok u) = remove name m
without name m (err e) = m
without name m panic = m
without name m blocked = m

module _ (host : Host) where
  -- The n-th answer of the connection to a deletion, where all before it were busy.
  pub data Tries (c : Option Chain) : ℕ → host.S → Outcome (Unit {0}) → host.S → Type 0 where
    last :
        (s t : host.S) (o : Outcome (Unit {0}))
        → host.flush (host.del_chain c s) ≡ (o, t)
        → Tries c 0 s o t
    again :
        (n : ℕ) (s s' t : host.S) (o o' : Outcome (Unit {0}))
        → host.flush (host.del_chain c s) ≡ (o', s')
        → busy o' ≡ true
        → Tries c n s' o t
        → Tries c (suc n) s o t

  -- A run: its last answer is the outcome, at most so many answers went before, and the last is not
  -- busy unless the timeout is reached.
  abbrev pub Ends :
      ℕ
      → Bytes
      → Option Chain
      → ChainMap
      → host.S
      → Outcome (Unit {0}) × (Guarded ChainMap × host.S)
      → Type 0
  Ends ticks name c m s r =
      (n : ℕ) × (o : Outcome (Unit {0})) × (t : host.S) × Tries c n s o t
      × (n ≤ ticks)
      × ((n ≡ ticks) ⊎ (busy o ≡ false))
      × (r ≡ (o, (record { held = true; content = without name m o }, t)))

  abbrev held : ChainMap → Guarded ChainMap
  held m = record { held = true; content = m }

  at_timeout :
      (name : Bytes) (c : Option Chain) (m : ChainMap) (s : host.S)
      (r : Outcome (Unit {0}) × host.S)
      → host.flush (host.del_chain c s) ≡ r
      → Ends 0 name c m s (answer host name (λ e. lift (err e)) r.0 (held m, r.1))
  at_timeout name c m s (ok u, t) e = (0, ok u, t, last s t _ e, omega arith, inl refl, refl)
  at_timeout name c m s (panic, t) e = (0, panic, t, last s t _ e, omega arith, inl refl, refl)
  at_timeout name c m s (blocked, t) e = (0, blocked, t, last s t _ e, omega arith, inl refl, refl)
  at_timeout name c m s (err why, t) e =
      (0, err why, t, last s t _ e, omega arith, inl refl, ground arith)

  at_tick :
      (ticks : ℕ) (name : Bytes) (c : Option Chain) (m : ChainMap) (s : host.S)
      (r : Outcome (Unit {0}) × host.S)
      → host.flush (host.del_chain c s) ≡ r
      → Ends ticks name c m r.1 (delete_rounds host ticks name c (held m, r.1))
      → Ends
          (suc ticks)
          name
          c
          m
          s
          (answer host name (λ e. delete_rounds host ticks name c) r.0 (held m, r.1))
  at_tick ticks name c m s (ok u, t) e next =
      (0, ok u, t, last s t _ e, omega arith, inr refl, refl)
  at_tick ticks name c m s (panic, t) e next =
      (0, panic, t, last s t _ e, omega arith, inr refl, refl)
  at_tick ticks name c m s (blocked, t) e next =
      (0, blocked, t, last s t _ e, omega arith, inr refl, refl)
  at_tick ticks name c m s (err why, t) e (n, o, u, tries, most, ended, result) =
      elim (Bool-cases (is_busy why)) [
        | inl h ↦ (
          suc n,
          o,
          u,
          again n s t u o (err why) e h tries,
          omega (arith, most),
          elim ended [ inl all ↦ inl (ap suc all) | inr other ↦ inr other ],
          ground (arith, h, result),
        )
        | inr h ↦ (0, err why, t, last s t _ e, omega arith, inr h, ground (arith, h))
      ]

  delete_rounds-Ends :
      (ticks : ℕ) (name : Bytes) (c : Option Chain) (m : ChainMap) (s : host.S)
      → Ends ticks name c m s (delete_rounds host ticks name c (held m, s))
  unfolding delete_rounds
  delete_rounds-Ends zero name c m s = at_timeout name c m s (host.flush (host.del_chain c s)) refl
  delete_rounds-Ends (suc ticks) name c m s =
      let r = host.flush (host.del_chain c s) in
      at_tick ticks name c m s r refl (delete_rounds-Ends ticks name c m r.1)

  -- For a chain of the map, whose mutex is free, and any number of ticks before the timeout, DeleteImm
  -- ends: it asks the connection once and then at most once for each tick, goes on only after the
  -- answer that the chain is busy, and stops at the first other answer or at the timeout. Its outcome
  -- is the last answer; the name is removed from the map if that is no error, and otherwise the map is
  -- as it was; and the mutex is free.
  pub delete_imm-Ends :
      (ticks : ℕ) (name : Bytes) (m : ChainMap) (ch : NfChain) (s : host.S)
      → lookup name m ≡ some ch
      → (n : ℕ) × (o : Outcome (Unit {0})) × (t : host.S) × Tries ch.chain n s o t
        × (n ≤ ticks)
        × ((n ≡ ticks) ⊎ (busy o ≡ false))
        × (delete_imm host ticks name (free m, s) ≡ (o, (free (without name m o), t)))
  unfolding delete_imm
  delete_imm-Ends ticks name m ch s e =
      let (n, o, t, tries, most, ended, result) = delete_rounds-Ends ticks name ch.chain m s in
      (n, o, t, tries, most, ended, ground (arith, e, result))
