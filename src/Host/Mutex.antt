-- ===== src/Host/Mutex.antt =====
-- A value beside the `sync.Mutex` that guards it.
use nftableslib.Base.{Outcome, ok, panic, blocked, Bool, true, false}
use nftableslib.Host.Monad.{Action, ◌>>◌}

pub record Guarded (T : Type 0) : Type 0 where
  pub held : Bool
  pub content : T

module _ {T S : Type 0} where
  -- `Lock`: no other goroutine is there to release a lock that is held.
  abbrev pub lock : Action (Guarded T × S) (Unit {0})
  lock (g, s) = elim g.held [
    | true ↦ (blocked, (g, s))
    | false ↦ (ok tt, (record g { held = true }, s))
  ]

  -- `Unlock`, which is fatal for a mutex that is not locked.
  abbrev pub unlock : Action (Guarded T × S) (Unit {0})
  unlock (g, s) = elim g.held [
    | true ↦ (ok tt, (record g { held = false }, s))
    | false ↦ (panic, (g, s))
  ]

  -- `defer Unlock()` behind a function's result.
  abbrev pub release_after :
      {A : Type 0} → Outcome A × (Guarded T × S) → Outcome A × (Guarded T × S)
  release_after (o, (g, s)) = elim g.held [
    | true ↦ (o, (record g { held = false }, s))
    | false ↦ (panic, (g, s))
  ]

  -- `Lock(); defer Unlock()` around the rest of a function.
  abbrev pub locked : {A : Type 0} → Action (Guarded T × S) A → Action (Guarded T × S) A
  locked m = lock >> λ st. release_after (m st)

  -- Reading and writing what is guarded.
  abbrev pub content_of : Action (Guarded T × S) T
  content_of (g, s) = (ok (g.content), (g, s))

  abbrev pub set_content : T → Action (Guarded T × S) (Unit {0})
  set_content t (g, s) = (ok tt, (record g { content = t }, s))
