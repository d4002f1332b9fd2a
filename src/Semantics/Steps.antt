-- ===== src/Semantics/Steps.antt =====
-- The steps of a rule: a load goes on with what it has loaded, a comparison goes on or stops.
use nftableslib.Base.{
  ℕ, zero, suc, ◌+◌, ◌≤◌, ◌≡◌, refl, inl, inr, true, not, ◌&&◌, List, [], ◌∷◌, Bytes, arith, length,
  take, drop, ◌==◌, if◌then◌else◌, Bool-cases,
}
use nftableslib.Nft.{Expr, CmpOp}
use nftableslib.Rule.{Operator, eq_op, neq_op}
use nftableslib.Expressions.Address.{cmp_op, is_neq}
use nftableslib.Ranges.Value.{value, IsBytes}
use nftableslib.Semantics.Kernel.{Kernel, holds, is_within, accepts, Loads, RunsCmp, RunsRange}

-- The bytes of a header at an offset.
abbrev pub window : (offset len : ℕ) → Bytes → Bytes
window offset len bs = take len (drop offset bs)

pub length-window :
    (offset len : ℕ) (bs : Bytes) → offset + len ≤ length bs → length (window offset len bs) ≡ len
length-window zero zero bs h = refl
length-window zero (suc len) [] h = absurd (omega arith)
length-window zero (suc len) (b ∷ bs) h = omega (arith, length-window zero len bs (omega arith))
length-window (suc offset) zero [] h = absurd (omega arith)
length-window (suc offset) (suc len) [] h = absurd (omega arith)
length-window (suc offset) len (b ∷ bs) h = length-window offset len bs (omega arith)

take-IsBytes : (len : ℕ) (bs : Bytes) → IsBytes bs → IsBytes (take len bs)
take-IsBytes zero bs h = tt
take-IsBytes (suc len) [] h = tt
take-IsBytes (suc len) (b ∷ bs) (hb, hbs) = (hb, take-IsBytes len bs hbs)

pub window-IsBytes : (offset len : ℕ) (bs : Bytes) → IsBytes bs → IsBytes (window offset len bs)
window-IsBytes zero len bs h = take-IsBytes len bs h
window-IsBytes (suc offset) len [] h = take-IsBytes len [] tt
window-IsBytes (suc offset) len (b ∷ bs) (hb, hbs) = window-IsBytes offset len bs hbs

-- The comparison of a test for EQ or NEQ, with which a rule ends.
pub holds-cmp_op :
    (op : Operator) (a b : ℕ)
    → (holds (cmp_op op) a b && true) ≡ (if is_neq op then not (a == b) else a == b)
unfolding holds
holds-cmp_op eq_op a b = ground arith
holds-cmp_op neq_op a b = ground arith

module _ (k : Kernel) (p : k.Packet) where
  pub accepts-load :
      (e : Expr) (es : List Expr) (loaded : Bytes) (r : k.Registers)
      → Loads k p e loaded r
      → (r' : k.Registers) × (accepts k (e ∷ es) p r ≡ accepts k es p r')
        × (k.read 1 (length loaded) r' ≡ loaded)
  unfolding accepts
  accepts-load e es loaded r (r', step, read) = (r', rw (accepts, step) refl, read)

  -- A comparison with as many bytes as were loaded.
  pub accepts-cmp :
      (op : CmpOp) (content loaded : Bytes) (es : List Expr) (r : k.Registers)
      → RunsCmp k
      → IsBytes content
      → 1 ≤ length content
      → length content ≤ 16
      → length content ≡ length loaded
      → k.read 1 (length loaded) r ≡ loaded
      → accepts k (Expr.cmp op 1 content ∷ es) p r
        ≡ (holds op (value loaded) (value content) && accepts k es p r)
  unfolding accepts
  accepts-cmp op content loaded es r runs bytes low high same read =
      elim (Bool-cases (holds op (value loaded) (value content))) [
        | inl holding ↦ rw (accepts, runs p r op content bytes low high, same, read, holding) refl
        | inr failing ↦ rw (accepts, runs p r op content bytes low high, same, read, failing) refl
      ]

  pub accepts-range :
      (from to loaded : Bytes) (es : List Expr) (r : k.Registers)
      → RunsRange k
      → IsBytes from
      → IsBytes to
      → 1 ≤ length from
      → length from ≤ 16
      → length from ≡ length to
      → length from ≡ length loaded
      → k.read 1 (length loaded) r ≡ loaded
      → accepts k (Expr.range CmpOp.neq 1 from to ∷ es) p r
        ≡ (not (is_within (value from) (value to) (value loaded)) && accepts k es p r)
  unfolding accepts
  accepts-range from to loaded es r runs hf ht low high ends same read =
      elim (Bool-cases (is_within (value from) (value to) (value loaded))) [
        | inl holding ↦ rw (accepts, runs p r from to hf ht low high ends, same, read, holding) refl
        | inr failing ↦ rw (accepts, runs p r from to hf ht low high ends, same, read, failing) refl
      ]
