-- ===== src/Host/Monad.antt =====
-- State transformers that end in an outcome.
use nftableslib.Base.{Outcome, ok, err, panic, blocked}

-- After an error or a panic the state stays as it was written.
abbrev pub Action : Type 0 → Type 0 → Type 0
Action S A = S → Outcome A × S

module _ {S : Type 0} where
  infixl 5 ◌>>=◌ ◌>>◌
  abbrev pub ◌>>=◌ : {A B : Type 0} → Action S A → (A → Action S B) → Action S B
  ◌>>=◌ m f s =
      let (r, t) = m s in
      elim r [ ok a ↦ f a t | err e ↦ (err e, t) | panic ↦ (panic, t) | blocked ↦ (blocked, t) ]

  abbrev pub ◌>>◌ : {A B : Type 0} → Action S A → Action S B → Action S B
  m >> k = m >>= λ _. k

  abbrev pub pure : {A : Type 0} → A → Action S A
  pure a s = (ok a, s)

  abbrev pub lift : {A : Type 0} → Outcome A → Action S A
  lift r s = (r, s)
