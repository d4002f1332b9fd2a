-- ===== src/Base/Tables.antt =====
-- A test on bytes and other small numbers, decided by evaluating it at each of them.
use mathlib.Core.Path.{◌≡◌}
use mathlib.Core.Bool.{Bool, true, false}
use Prim.Native.Nat.{ℕ, ◌<◌, zero, suc}
use native.Mathlib.Omega.{arith}
use nftableslib.Base.Tests.{if◌then◌else◌}

module _ (test : ℕ → Bool) where
  unfoldable pub passes_up_to : ℕ → Bool
  passes_up_to zero = true
  passes_up_to (suc top) = let below = passes_up_to top in if test top then below else false

  pub passes_at : {top k : ℕ} → passes_up_to top ≡ true → k < top → test k ≡ true
  unfolding passes_up_to
  passes_at {top = zero} passed below = absurd (omega arith)
  passes_at {top = suc top} {k = k} passed below = ground (arith, passes_at {top = top} {k = k})
