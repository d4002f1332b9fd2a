-- ===== src/Json/Address.antt =====
-- `buildIPv6String` of nfrules_marshal.go: an IPv6 address as text, with its first run of zero words
-- left out.
use nftableslib.Base.{
  ℕ, ◌+◌, ◌-◌, Bool, true, false, not, ◌&&◌, List, [], ◌∷◌, Bytes, Outcome, ok, panic, ◌>>=◌,
  eq_bytes, get_elem?, deref, length, set, replicate, ltb, ◌==◌, if◌then◌else◌,
}
use nftableslib.Json.Format.{codes, hex, hex2}
use nftableslib.Json.Names.{append_all}

-- The pieces of the text, the index of the next one, and the two flags of the loop.
pub record Pieces : Type 0 where
  pub s : List Bytes
  pub y : ℕ
  pub compressing : Bool
  pub nomore : Bool

-- `s[y+k] = piece`
abbrev pub put_piece : (k : ℕ) → Bytes → Pieces → Outcome Pieces
put_piece k piece p =
    if ltb (p.y + k) (length p.s) then ok (record p { s = set p.s (p.y + k) piece }) else panic

-- `y += k`
abbrev pub move_on : ℕ → Pieces → Pieces
move_on k p = record p { y = p.y + k }

-- `s[y] = ":"; y++`
unfoldable pub put_colon : Pieces → Outcome Pieces
put_colon p = do q ← put_piece 0 (codes ":") p; ok (move_on 1 q)

-- `s[y-1]`
abbrev pub last_piece : Pieces → Outcome Bytes
last_piece p = if p.y == 0 then panic else deref (get_elem? p.s (p.y - 1))

unfoldable pub put_word : (hi lo : ℕ) → Pieces → Outcome Pieces
put_word hi lo p = do
  q ←
      (if hi == 0
        then put_piece 0 (hex lo) p
        else do q ← put_piece 0 (hex hi) p; put_piece 1 (hex2 lo) q)
  ok (move_on 2 q)

-- The colon before a word, but for the first word of the text and after another colon.
unfoldable pub put_separator : (first : Bool) → Pieces → Outcome Pieces
unfolding put_colon
put_separator true p = ok p
put_separator false p = do
  last ← last_piece p
  if eq_bytes last (codes ":") then ok p else put_colon p

abbrev pub is_zero_word : (hi lo : ℕ) → Bool
is_zero_word hi lo = hi == 0 && lo == 0

-- The end of the run of zero words.
unfoldable pub end_run : Pieces → Outcome Pieces
unfolding put_colon
end_run p =
    if p.compressing
    then (do q ← put_colon p; ok (record q { compressing = false; nomore = true }))
    else ok p

-- The body of the loop; a `continue` ends it early.
unfoldable pub add_word : (first : Bool) (hi lo : ℕ) → Pieces → Outcome Pieces
unfolding put_colon end_run put_separator put_word
add_word first hi lo p =
    if is_zero_word hi lo && (not p.compressing && not p.nomore)
    then (do q ← put_colon p; ok (record q { compressing = true }))
    else if p.compressing && is_zero_word hi lo
    then ok p
    else (do q ← end_run p; r ← put_separator first q; put_word hi lo r)

-- `for i := 0; i < len(b); i += 2`; a last byte without its pair is an index out of range.
unfoldable pub add_words : (first : Bool) → Bytes → Pieces → Outcome Pieces
unfolding add_word
add_words first [] p = ok p
add_words first (b ∷ []) p = panic
add_words first (hi ∷ lo ∷ b) p = add_word first hi lo p >>= add_words false b

-- The case of a run that the address ends in, as in `::`.
unfoldable pub close_run : Pieces → Outcome Pieces
close_run p = if p.compressing then put_piece 0 (codes ":") p else ok p

unfoldable pub build_ipv6_string : Bytes → Outcome Bytes
unfolding add_words close_run
build_ipv6_string b = do
  let start : Pieces = record { s = replicate 40 []; y = 0; compressing = false; nomore = false }
  p ← add_words true b start
  q ← close_run p
  ok (append_all q.s)
