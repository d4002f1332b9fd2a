-- ===== src/Registers/Ensures.antt =====
-- What holds of the value of an outcome or of an action whenever there is one.
use nftableslib.Base.{Outcome, ok, err, panic, blocked}
use nftableslib.Base.{◌>>=◌ as and_then}
use nftableslib.Host.{Action, ◌>>=◌}

abbrev pub OnOk {ℓ} : {A : Type 0} → (A → Type ℓ) → Outcome A → Type ℓ
OnOk P (ok a) = P a
OnOk P (err e) = Unit
OnOk P panic = Unit
OnOk P blocked = Unit

abbrev pub Ensures : {S A : Type 0} → (A → Type 0) → Action S A → Type 0
Ensures {S} P m = (s : S) → OnOk P (m s).0

module _ {A B : Type 0} (P : A → Type 0) (Q : B → Type 0) where
  pub OnOk-bind :
      (m : Outcome A) (f : A → Outcome B)
      → OnOk P m
      → ((a : A) → P a → OnOk Q (f a))
      → OnOk Q (and_then m f)
  OnOk-bind (ok a) f h k = k a h
  OnOk-bind (err e) f h k = tt
  OnOk-bind panic f h k = tt
  OnOk-bind blocked f h k = tt

module _ {S A B : Type 0} (P : A → Type 0) (Q : B → Type 0) where
  bind_pair :
      (r : Outcome A × S) (f : A → Action S B)
      → OnOk P r.0
      → ((a : A) → P a → Ensures Q (f a))
      → OnOk Q (((λ (s : S). r) >>= f) r.1).0
  bind_pair (ok a, t) f h k = k a h t
  bind_pair (err e, t) f h k = tt
  bind_pair (panic, t) f h k = tt
  bind_pair (blocked, t) f h k = tt

  pub Ensures-bind :
      (m : Action S A) (f : A → Action S B)
      → Ensures P m
      → ((a : A) → P a → Ensures Q (f a))
      → Ensures Q (m >>= f)
  Ensures-bind m f h k s = bind_pair (m s) f (h s) k
