-- ===== src/Json/Pieces.antt =====
-- The steps of `buildIPv6String` stay within its forty pieces, which are all plain.
use mathlib.Core.Path.{subst}
use nftableslib.Base.{
  ℕ, zero, suc, ◌+◌, ◌-◌, ◌<◌, ◌≤◌, ◌≡◌, refl, sym, ◌⊎◌, inl, inr, Bool, true, false, some, List,
  [], ◌∷◌, Bytes, Outcome, ok, ◌>>=◌, arith, ltb, eq_bytes, get_elem?, length, set, ◌==◌,
  if◌then◌else◌, Bool-cases,
}
use nftableslib.Json.Format.{codes, hex, hex2}
use nftableslib.Json.Names.{append_all}
use nftableslib.Json.Tree.{is_plain}
use nftableslib.Json.Plain.{is_plain-append, are_plain, hex-IsPlain, hex2-IsPlain}
use nftableslib.Json.Address.{
  Pieces, put_piece, move_on, put_colon, put_word, put_separator, end_run,
}

are_plain-set :
    (s : List Bytes) (i : ℕ) (v : Bytes)
    → are_plain s ≡ true
    → is_plain v ≡ true
    → are_plain (set s i v) ≡ true
unfolding are_plain
are_plain-set [] i v hs hv = refl
are_plain-set (t ∷ s) zero v hs hv = ground arith
are_plain-set (t ∷ s) (suc i) v hs hv = ground (arith, are_plain-set s i v)

length-set : (s : List Bytes) (i : ℕ) (v : Bytes) → length (set s i v) ≡ length s
length-set [] i v = refl
length-set (t ∷ s) zero v = refl
length-set (t ∷ s) (suc i) v = omega (arith, length-set s i v)

pub append_all-IsPlain : (s : List Bytes) → are_plain s ≡ true → is_plain (append_all s) ≡ true
unfolding are_plain is_plain
append_all-IsPlain [] h = refl
append_all-IsPlain (t ∷ s) h =
    is_plain-append t (append_all s) (ground arith) (append_all-IsPlain s (ground arith))

pub get_elem?-some :
    (s : List Bytes) (i : ℕ) → i < length s → (v : Bytes) × (get_elem? s i ≡ some v)
get_elem?-some [] i h = absurd (omega arith)
get_elem?-some (t ∷ s) zero h = (t, refl)
get_elem?-some (t ∷ s) (suc i) h = get_elem?-some s i (omega arith)

-- Forty pieces, all plain, of which at most `used` are in use.
pub record Good (used : ℕ) (p : Pieces) : Type 0 where
  pub forty : length p.s ≡ 40
  pub plain : are_plain p.s ≡ true
  pub below : p.y ≤ used

-- The action answers pieces of which at most `used` are in use, and one at least.
abbrev pub Goes : ℕ → Outcome Pieces → Type 0
Goes used o = (q : Pieces) × (o ≡ ok q) × Good used q × (0 < q.y)

pub put_piece-Good :
    (k : ℕ) (v : Bytes) (used : ℕ) (p : Pieces)
    → Good used p
    → used + k < 40
    → is_plain v ≡ true
    → (q : Pieces) × (put_piece k v p ≡ ok q)
      × Good used q
      × (q.y ≡ p.y)
      × (q.compressing ≡ p.compressing)
put_piece-Good k v used p good room plain =
    let inside : ltb (p.y + k) (length p.s) ≡ true = ground (arith, good.forty, good.below) in
    let q : Pieces = record p { s = set p.s (p.y + k) v } in
    let good' : Good used q = record {
      forty = omega (arith, length-set p.s (p.y + k) v, good.forty);
      plain = are_plain-set p.s (p.y + k) v good.plain plain;
      below = good.below;
    } in
    (q, rw inside refl, good', refl, refl)

pub put_colon-Goes :
    (used : ℕ) (p : Pieces) → Good used p → used < 40 → Goes (used + 1) (put_colon p)
unfolding put_colon is_plain
put_colon-Goes used p good room =
    let (q, e, g, y, c) = put_piece-Good 0 (codes ":") used p good (omega arith) refl in
    let g' : Good (used + 1) (move_on 1 q) = record {
      forty = g.forty;
      plain = g.plain;
      below = omega (arith, g.below);
    } in
    (move_on 1 q, rw e refl, g', omega arith)

pub Good-more : (used more : ℕ) (p : Pieces) → Good used p → used ≤ more → Good more p
Good-more used more p good le = record {
  forty = good.forty;
  plain = good.plain;
  below = omega (arith, good.below);
}

pub end_run-Good :
    (used : ℕ) (p : Pieces)
    → Good used p
    → used < 40
    → (q : Pieces) × (end_run p ≡ ok q) × Good (used + 1) q × ((0 < q.y) ⊎ (q.y ≡ p.y))
unfolding end_run
end_run-Good used p good room = elim (Bool-cases (p.compressing)) [
  | inl on ↦
      let (q, e, g, pos) = put_colon-Goes used p good room in
      let r : Pieces = record q { compressing = false; nomore = true } in
      let g' : Good (used + 1) r = record { forty = g.forty; plain = g.plain; below = g.below } in
      (
        r,
        subst
            (λ b.
              (if b
                then (do q ← put_colon p; ok (record q { compressing = false; nomore = true }))
                else ok p)
              ≡ ok r)
            (sym on) (rw e refl),
        g',
        inl pos,
      )
  | inr off ↦ (p, rw off refl, Good-more used (used + 1) p good (omega arith), inr refl)
]

pub put_separator-Good :
    (first : Bool) (used : ℕ) (p : Pieces)
    → Good used p
    → used < 40
    → (first ≡ true) ⊎ (0 < p.y)
    → (q : Pieces) × (put_separator first p ≡ ok q) × Good (used + 1) q
unfolding put_separator
put_separator-Good true used p good room start =
    (p, refl, Good-more used (used + 1) p good (omega arith))
put_separator-Good false used p good room (inl start) = absurd (ground arith)
put_separator-Good false used p good room (inr start) =
    let some_piece : (p.y == 0) ≡ false = ground arith in
    let (v, at) = get_elem?-some p.s (p.y - 1) (omega (arith, good.forty, good.below)) in
    elim (Bool-cases (eq_bytes v (codes ":"))) [
      | inl colon ↦
          (p, rw (some_piece, at, colon) refl, Good-more used (used + 1) p good (omega arith))
      | inr other ↦
          let (q, e, g, pos) = put_colon-Goes used p good room in
          (q, rw (some_piece, at, other) e, g)
    ]

pub put_word-Goes :
    (hi lo used : ℕ) (p : Pieces) → Good used p → used + 1 < 40 → Goes (used + 2) (put_word hi lo p)
unfolding put_word
put_word-Goes hi lo used p good room = elim (Bool-cases (hi == 0)) [
  | inl none ↦
      let (q, e, g, y, c) = put_piece-Good 0 (hex lo) used p good (omega arith) (hex-IsPlain lo) in
      let g' : Good (used + 2) (move_on 2 q) = record {
        forty = g.forty;
        plain = g.plain;
        below = omega (arith, g.below);
      } in
      (move_on 2 q, rw (none, e) refl, g', omega arith)
  | inr two ↦
      let (q, e, g, y, c) = put_piece-Good 0 (hex hi) used p good (omega arith) (hex-IsPlain hi) in
      let (r, e', h, y', c') = put_piece-Good 1 (hex2 lo) used q g room (hex2-IsPlain lo) in
      let h' : Good (used + 2) (move_on 2 r) = record {
        forty = h.forty;
        plain = h.plain;
        below = omega (arith, h.below);
      } in
      (move_on 2 r, rw (two, e, e') refl, h', omega arith)
]
