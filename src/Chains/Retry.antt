-- ===== src/Chains/Retry.antt =====
-- `DeleteImm`: a chain that is busy is tried again at every tick until the timeout.
use nftableslib.Base.{
  ℕ, zero, suc, Option, none, some, Bytes, Outcome, ok, err, panic, blocked, Error, conn_error,
  no_chain, lookup, remove, bytes_eq, ◌==◌, if◌then◌else◌, Bool, false,
}
use nftableslib.Nft.{Chain}
use nftableslib.Host.{Host, Action, ◌>>=◌, lift, on_host, locked, content_of, set_content}
use nftableslib.Chains.Store.{ChainsMethod}

-- unix.EBUSY
abbrev pub ebusy : ℕ
ebusy = 16

-- `errors.Is(err, unix.EBUSY)`
abbrev pub is_busy : Error → Bool
is_busy (conn_error n) = n == ebusy
is_busy _ = false

module _ (host : Host) where
  -- What one round does with the answer of `Flush`; again is the next round, or the timeout.
  abbrev pub answer :
      Bytes
      → (Error → ChainsMethod host (Unit {0}))
      → Outcome (Unit {0})
      → ChainsMethod host (Unit {0})
  answer name again (ok u) = do m ← content_of; set_content (remove name m)
  answer name again (err e) = if is_busy e then again e else lift (err e)
  answer name again panic = lift panic
  answer name again blocked = lift blocked

  -- The calls of a round: `DelChain` and `Flush`.
  abbrev pub attempt : Option Chain → Action host.S (Outcome (Unit {0}))
  attempt c s = let (o, t) = host.flush (host.del_chain c s) in (ok o, t)

  -- The loop. The number is that of the ticks before the timeout, which `select` then takes.
  unfoldable pub delete_rounds : (ticks : ℕ) → Bytes → Option Chain → ChainsMethod host (Unit {0})
  delete_rounds zero name c = on_host (attempt c) >>= answer name (λ e. lift (err e))
  delete_rounds (suc ticks) name c =
      on_host (attempt c) >>= answer name (λ e. delete_rounds ticks name c)

  -- `DeleteImm`
  unfoldable pub delete_imm : (ticks : ℕ) → Bytes → ChainsMethod host (Unit {0})
  unfolding delete_rounds
  delete_imm ticks name = locked (do
    m ← content_of
    (elim (lookup name m) [
      | some ch ↦ delete_rounds ticks name ch.chain
      | none ↦ lift (err no_chain)
    ]))
