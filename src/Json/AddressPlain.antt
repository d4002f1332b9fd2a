-- ===== src/Json/AddressPlain.antt =====
-- An address of sixteen bytes has a text, and the text stands for itself between quotes.
use mathlib.Core.Path.{subst}
use nftableslib.Base.{
  ℕ, zero, suc, ◌+◌, ◌*◌, ◌<◌, ◌≡◌, refl, sym, ◌⊎◌, inl, inr, Bool, true, false, not, ◌&&◌, [], ◌∷◌,
  Bytes, ok, arith, length, replicate, if◌then◌else◌, Bool-cases,
}
use nftableslib.Json.Format.{codes}
use nftableslib.Json.Names.{append_all}
use nftableslib.Json.Tree.{is_plain}
use nftableslib.Json.Plain.{are_plain}
use nftableslib.Json.Address.{
  Pieces, put_piece, is_zero_word, close_run, add_word, add_words, build_ipv6_string,
}
use nftableslib.Json.Pieces.{
  Good, Goes, append_all-IsPlain, put_piece-Good, put_colon-Goes, Good-more, end_run-Good,
  put_separator-Good, put_word-Goes,
}

-- A loop that starts, or one that has stored a piece.
abbrev Started : Bool → Pieces → Type 0
Started first p = ((first ≡ true) × (p.compressing ≡ false)) ⊎ (0 < p.y)

start_or_later :
    (first : Bool) (p q : Pieces)
    → Started first p
    → (0 < q.y) ⊎ (q.y ≡ p.y)
    → (first ≡ true) ⊎ (0 < q.y)
start_or_later first p q (inl (f, c)) moved = inl f
start_or_later first p q (inr pos) (inl pos') = inr pos'
start_or_later first p q (inr pos) (inr same) = inr (omega arith)

no_run_at_start :
    (first zero_word : Bool) (p : Pieces)
    → Started first p
    → (p.compressing && zero_word) ≡ true
    → 0 < p.y
no_run_at_start first zero_word p (inl (f, c)) h = absurd (ground arith)
no_run_at_start first zero_word p (inr pos) h = pos

add_word-Goes :
    (first : Bool) (hi lo used : ℕ) (p : Pieces)
    → Good used p
    → used + 4 < 40
    → Started first p
    → Goes (used + 4) (add_word first hi lo p)
unfolding add_word
add_word-Goes first hi lo used p good room start =
    elim (Bool-cases (is_zero_word hi lo && (not p.compressing && not p.nomore))) [
      | inl run ↦
          let (q, e, g, pos) = put_colon-Goes used p good (omega arith) in
          let r : Pieces = record q { compressing = true } in
          let h : Good (used + 4) r = record {
            forty = g.forty;
            plain = g.plain;
            below = omega (arith, g.below);
          } in
          (r, rw (run, e) refl, h, pos)
      | inr no_run ↦ elim (Bool-cases (p.compressing && is_zero_word hi lo)) [
        | inl more ↦ (
          p,
          rw (no_run, more) refl,
          Good-more used (used + 4) p good (omega arith),
          no_run_at_start first (is_zero_word hi lo) p start more,
        )
        | inr word ↦
            let (q, e, g, moved) = end_run-Good used p good (omega arith) in
            let after = start_or_later first p q start moved in
            let (r, e', h) = put_separator-Good first (used + 1) q g (omega arith) after in
            let (t, e'', k, pos) = put_word-Goes hi lo (used + 1 + 1) r h (omega arith) in
            (
              t,
              rw (no_run, word, e, e') e'',
              Good-more (used + 1 + 1 + 2) (used + 4) t k (omega arith),
              pos,
            )
      ]
    ]

-- Each two bytes take up to four pieces.
add_words-Goes :
    (n : ℕ) (b : Bytes) (first : Bool) (used : ℕ) (p : Pieces)
    → length b ≡ 2 * n
    → Good used p
    → used + 4 * n < 40
    → Started first p
    → (q : Pieces) × (add_words first b p ≡ ok q) × Good (used + 4 * n) q
unfolding add_words
add_words-Goes n [] first used p even good room start =
    (p, refl, Good-more used (used + 4 * n) p good (omega arith))
add_words-Goes zero (hi ∷ b) first used p even good room start = absurd (omega arith)
add_words-Goes (suc n) (hi ∷ []) first used p even good room start = absurd (omega arith)
add_words-Goes (suc n) (hi ∷ lo ∷ b) first used p even good room start =
    let (q, e, g, pos) = add_word-Goes first hi lo used p good (omega arith) start in
    let (r, e', h) =
      add_words-Goes n b false (used + 4) q (omega arith) g (omega arith) (inr pos) in
    (r, rw e e', Good-more (used + 4 + 4 * n) (used + 4 * suc n) r h (omega arith))

close_run-Good : (p : Pieces) → Good 32 p → (q : Pieces) × (close_run p ≡ ok q) × Good 32 q
unfolding close_run is_plain
close_run-Good p good = elim (Bool-cases (p.compressing)) [
  | inl run ↦
      let (q, e, g, y, c) = put_piece-Good 0 (codes ":") 32 p good (omega arith) refl in
      (q, subst (λ b. (if b then put_piece 0 (codes ":") p else ok p) ≡ ok q) (sym run) e, g)
  | inr done ↦
      (p, subst (λ b. (if b then put_piece 0 (codes ":") p else ok p) ≡ ok p) (sym done) refl, good)
]

-- The text of sixteen bytes.
pub build_ipv6_string-ok :
    (b : Bytes) → length b ≡ 16 → (t : Bytes) × (build_ipv6_string b ≡ ok t) × (is_plain t ≡ true)
unfolding build_ipv6_string is_plain are_plain
build_ipv6_string-ok b h =
    let start : Pieces = record {
      s = replicate 40 [];
      y = 0;
      compressing = false;
      nomore = false;
    } in
    let good : Good 0 start = record { forty = refl; plain = refl; below = omega arith } in
    let (p, e, g) =
      add_words-Goes 8 b true 0 start (omega arith) good (omega arith) (inl (refl, refl)) in
    let (q, e', h) = close_run-Good p g in
    (append_all q.s, rw (e, e') refl, append_all-IsPlain q.s h.plain)
