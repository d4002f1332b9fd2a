-- ===== src/Host/Steps.antt =====
-- A store beside the connection: which of the two a step reads and writes.
use nftableslib.Base.{Outcome, ok, err, panic, blocked}
use nftableslib.Host.Monad.{Action}

module _ {S : Type 0} where
  -- Steps on a store R beside the connection.
  module _ {R : Type 0} where
    -- A call that changes the connection alone.
    abbrev pub on_host : {A : Type 0} → Action S A → Action (R × S) A
    on_host m (r, s) = let (o, t) = m s in (o, (r, t))

    -- A call whose error the caller looks at.
    abbrev pub asking : {A : Type 0} → Action S A → Action (R × S) (Outcome A)
    asking m (r, s) = let (o, t) = m s in (ok o, (r, t))

    -- A step on the store alone; without a result the store stays.
    abbrev pub keep : Outcome R → Action (R × S) (Unit {0})
    keep (ok r') (r, s) = (ok tt, (r', s))
    keep (err e) (r, s) = (err e, (r, s))
    keep panic (r, s) = (panic, (r, s))
    keep blocked (r, s) = (blocked, (r, s))

    abbrev pub on_store : (R → Outcome R) → Action (R × S) (Unit {0})
    on_store f (r, s) = keep (f r) (r, s)

    abbrev pub store : Action (R × S) R
    store (r, s) = (ok r, (r, s))
