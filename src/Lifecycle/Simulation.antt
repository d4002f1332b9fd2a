-- ===== src/Lifecycle/Simulation.antt =====
-- Methods over the list on the heap beside the same methods over a plain list.
use nftableslib.Base.{◌≡◌, Outcome, ok, err, panic, blocked}
use nftableslib.Host.{Host, Action, ◌>>=◌}
use nftableslib.RulesList.{RuleStore}
use nftableslib.RulesList.Store.{Ledger, Implements}
use nftableslib.RulesList.Removal.{Matches}

module _ (host : Host) where
  -- The results of a step on the heap and of a step on the plain list: related outcomes, a heap
  -- that implements the plain list, and the same state of the connection.
  abbrev pub Agrees :
      {A B : Type 0}
      → (A → B → Type 0)
      → Outcome A × (RuleStore × host.S)
      → Outcome B × (Ledger × host.S)
      → Type 0
  Agrees P x y = Matches P x.0 y.0 × Implements x.1.0 y.1.0 × (x.1.1 ≡ y.1.1)

  -- The steps agree from every heap that implements the plain list.
  abbrev pub Simulates :
      {A B : Type 0}
      → (A → B → Type 0)
      → Action (RuleStore × host.S) A
      → Action (Ledger × host.S) B
      → Type 0
  Simulates P m m' =
      (r : RuleStore) (l : Ledger) (s : host.S) → Implements r l → Agrees P (m (r, s)) (m' (l, s))

  abbrev pub Same : {A : Type 0} → A → A → Type 0
  Same a b = a ≡ b

  module _ {A B C D : Type 0} (P : A → B → Type 0) (Q : C → D → Type 0) where
    next :
        (x : Outcome A × (RuleStore × host.S)) (y : Outcome B × (Ledger × host.S))
        (f : A → Action (RuleStore × host.S) C) (g : B → Action (Ledger × host.S) D)
        → Agrees P x y
        → ((a : A) (b : B) → P a b → Simulates Q (f a) (g b))
        → Agrees Q
            (((λ (s : RuleStore × host.S). x) >>= f) x.1)
            (((λ (s : Ledger × host.S). y) >>= g) y.1)
    next (ok a, (r, s)) (ok b, (l, t)) f g (p, i, e) h = rw e (h a b p r l t i)
    next (ok a, (r, s)) (err _, (l, t)) f g (p, i, e) h = absurd (cc)
    next (ok a, (r, s)) (panic, (l, t)) f g (p, i, e) h = absurd (cc)
    next (err _, (r, s)) (ok b, (l, t)) f g (p, i, e) h = absurd (cc)
    next (err _, (r, s)) (err _, (l, t)) f g (p, i, e) h = (p, i, e)
    next (err _, (r, s)) (panic, (l, t)) f g (p, i, e) h = absurd (cc)
    next (panic, (r, s)) (ok b, (l, t)) f g (p, i, e) h = absurd (cc)
    next (panic, (r, s)) (err _, (l, t)) f g (p, i, e) h = absurd (cc)
    next (panic, (r, s)) (panic, (l, t)) f g (p, i, e) h = (tt, i, e)
    next (ok a, (r, s)) (blocked, (l, t)) f g (p, i, e) h = absurd (cc)
    next (err _, (r, s)) (blocked, (l, t)) f g (p, i, e) h = absurd (cc)
    next (panic, (r, s)) (blocked, (l, t)) f g (p, i, e) h = absurd (cc)
    next (blocked, (r, s)) (ok b, (l, t)) f g (p, i, e) h = absurd (cc)
    next (blocked, (r, s)) (err _, (l, t)) f g (p, i, e) h = absurd (cc)
    next (blocked, (r, s)) (panic, (l, t)) f g (p, i, e) h = absurd (cc)
    next (blocked, (r, s)) (blocked, (l, t)) f g (p, i, e) h = (tt, i, e)

    pub Simulates-bind :
        (m : Action (RuleStore × host.S) A) (m' : Action (Ledger × host.S) B)
        (f : A → Action (RuleStore × host.S) C) (g : B → Action (Ledger × host.S) D)
        → Simulates P m m'
        → ((a : A) (b : B) → P a b → Simulates Q (f a) (g b))
        → Simulates Q (m >>= f) (m' >>= g)
    Simulates-bind m m' f g h k r l s i = next (m (r, s)) (m' (l, s)) f g (h r l s i) k
