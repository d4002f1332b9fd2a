-- ===== src/Lifecycle/Stamp.antt =====
-- What is read back from a rule's user data.
use nftableslib.Base.{
  ℕ, ◌+◌, ◌-◌, ◌*◌, ◌/◌, ◌%◌, ◌^◌, ◌<◌, ◌≤◌, ◌≡◌, refl, ap, sym, ◌∙◌, List, [], ◌∷◌, ◌++◌, Bytes,
  ok, arith, length, length-append, take, drop, set, replicate, copy, ltb, if◌then◌else◌, suc,
  false, zero, inl, inr, Bool-cases,
}
use nftableslib.Host.{BinaryUtil}
use nftableslib.Lifecycle.UserData.{stamp_user_data, read_rule_id, strip_rule_id, make_rule_comment}

-- What the documentation of binaryutil says of BigEndian's PutUint16 and Uint32.
abbrev pub IsBigEndian : BinaryUtil → Type 0
IsBigEndian bin =
    ((n : ℕ) → n < 2 ^ 16 → bin.be_put_uint16 n ≡ n / 256 ∷ n % 256 ∷ [])
    × ((a b c d : ℕ) → bin.be_uint32 (a ∷ b ∷ c ∷ d ∷ []) ≡ ((a * 256 + b) * 256 + c) * 256 + d)

module _ {ℓ} {A : Type ℓ} where
  pub drop-append : (xs ys : List A) (n : ℕ) → drop (length xs + n) (xs ++ ys) ≡ drop n ys
  drop-append [] ys n = let z : 0 + n ≡ n = omega arith in rw z refl
  drop-append (x ∷ xs) ys n =
      let s : length (x ∷ xs) + n ≡ suc (length xs + n) = omega arith in rw s (drop-append xs ys n)

  pub take-append : (xs ys : List A) → take (length xs) (xs ++ ys) ≡ xs
  take-append [] ys = refl
  take-append (x ∷ xs) ys = ap (λ zs. x ∷ zs) (take-append xs ys)

-- The writes into the new slice, for two bytes of the id.
abbrev written : Bytes → Bytes → Bytes
written data_ src =
    let ul = length data_ in
    let d = set (set (copy (replicate (ul + 4) 0) data_) ul 0x2) (ul + 1) 2 in
    take (ul + 2) d ++ copy (drop (ul + 2) d) src

written_lem :
    (data_ : Bytes) (hi lo : ℕ) → written data_ (hi ∷ lo ∷ []) ≡ data_ ++ 2 ∷ 2 ∷ hi ∷ lo ∷ []
written_lem [] hi lo = refl
written_lem (x ∷ xs) hi lo =
    let n = length xs in
    let s4 : suc n + 4 ≡ suc (n + 4) = omega arith in
    let s2 : suc n + 2 ≡ suc (n + 2) = omega arith in
    let s1 : suc n + 1 ≡ suc (n + 1) = omega arith in
    rw (s4, s2, s1) (ap (λ ys. x ∷ ys) (written_lem xs hi lo))

module _ ⦃bin : BinaryUtil⦄ where
  stamp_user_data-eq :
      (data_ : Bytes) (id : ℕ)
      → IsBigEndian bin
      → stamp_user_data data_ id ≡ data_ ++ 2 ∷ 2 ∷ id % 2 ^ 16 / 256 ∷ id % 2 ^ 16 % 256 ∷ []
  unfolding stamp_user_data
  stamp_user_data-eq data_ id (put, get) =
      rw (put (id % 2 ^ 16) (omega arith))
        (written_lem data_ (id % 2 ^ 16 / 256) (id % 2 ^ 16 % 256))

  read_rule_id-eq :
      (data_ : Bytes) (hi lo : ℕ)
      → IsBigEndian bin
      → read_rule_id (data_ ++ 2 ∷ 2 ∷ hi ∷ lo ∷ []) ≡ ok (hi * 256 + lo)
  unfolding read_rule_id
  read_rule_id-eq data_ hi lo (put, get) =
      let d = data_ ++ 2 ∷ 2 ∷ hi ∷ lo ∷ [] in
      let total : length d ≡ length data_ + 4 = length-append data_ (2 ∷ 2 ∷ hi ∷ lo ∷ []) in
      let long : ltb (length d) 4 ≡ false = ground arith in
      let a4 : length d - 4 ≡ length data_ + 0 = omega arith in
      let a2 : length d - 2 ≡ length data_ + 2 = omega arith in
      rw
        (
          long,
          a4,
          a2,
          drop-append data_ (2 ∷ 2 ∷ hi ∷ lo ∷ []) 0,
          drop-append data_ (2 ∷ 2 ∷ hi ∷ lo ∷ []) 2,
        )
        (ap ok (omega (arith, get 0 0 hi lo)))

strip_rule_id-eq : (data_ tlv : Bytes) → length tlv ≡ 4 → strip_rule_id (data_ ++ tlv) ≡ ok data_
unfolding strip_rule_id
strip_rule_id-eq data_ tlv h =
    let total = length-append data_ tlv in
    let long : ltb (length (data_ ++ tlv)) 4 ≡ false = ground arith in
    let a4 : length (data_ ++ tlv) - 4 ≡ length data_ = omega arith in
    rw (long, a4) (ap ok (take-append data_ tlv))

module _ ⦃bin : BinaryUtil⦄ where
  -- From the user data that `create` stamps with an id, `GetRuleHandle` reads the id's low 16 bits,
  -- and `GetRulesUserData` gives the caller's bytes back, provided that binaryutil.BigEndian writes
  -- and reads big-endian numbers.
  pub stamp_user_data-read_rule_id :
      (data_ : Bytes) (id : ℕ)
      → IsBigEndian bin
      → (read_rule_id (stamp_user_data data_ id) ≡ ok (id % 2 ^ 16))
        × (strip_rule_id (stamp_user_data data_ id) ≡ ok data_)
  stamp_user_data-read_rule_id data_ id big =
      let hi = id % 2 ^ 16 / 256 in
      let lo = id % 2 ^ 16 % 256 in
      rw (stamp_user_data-eq data_ id big) (
        read_rule_id-eq data_ hi lo big ∙ ap ok (omega arith),
        strip_rule_id-eq data_ (2 ∷ 2 ∷ hi ∷ lo ∷ []) refl,
      )

copy_into : (c : Bytes) → copy (replicate (length c + 1) 0) c ≡ c ++ 0 ∷ []
copy_into [] = refl
copy_into (x ∷ xs) =
    let s : suc (length xs) + 1 ≡ suc (length xs + 1) = omega arith in
    rw s (ap (λ ys. x ∷ ys) (copy_into xs))

length-take : (n : ℕ) (xs : Bytes) → n ≤ length xs → length (take n xs) ≡ n
length-take zero xs h = refl
length-take (suc n) [] h = absurd (omega arith)
length-take (suc n) (x ∷ xs) h = ap suc (length-take n xs (omega arith))

-- The text that a comment keeps.
abbrev pub comment_text : Bytes → Bytes
comment_text s = if ltb 127 (length s) then take 127 s else s

comment_writes :
    (c : Bytes) (cl : ℕ)
    → length c ≡ cl
    → cl ≤ 127
    → take 2 (set (set (replicate (cl + 3) 0) 0 0x0) 1 ((cl + 1) % 256))
        ++ copy (drop 2 (set (set (replicate (cl + 3) 0) 0 0x0) 1 ((cl + 1) % 256))) c
      ≡ 0 ∷ (cl + 1) ∷ c ++ 0 ∷ []
comment_writes c cl h small =
    let s : cl + 3 ≡ suc (suc (length c + 1)) = omega arith in
    let m : (cl + 1) % 256 ≡ cl + 1 = omega arith in
    rw (s, m) (ap (λ ys. 0 ∷ (cl + 1) ∷ ys) (copy_into c))

-- The comment of a text is the type 0, the length of the kept text and its end mark in one byte,
-- the kept text, which is the first 127 bytes at most, and the end mark 0.
pub make_rule_comment-eq :
    (s : Bytes)
    → (make_rule_comment s ≡ 0 ∷ (length (comment_text s) + 1) ∷ comment_text s ++ 0 ∷ [])
      × (length (comment_text s) ≤ 127)
unfolding make_rule_comment
make_rule_comment-eq s = elim (Bool-cases (ltb 127 (length s))) [
  | inl long ↦
      let kept : length (take 127 s) ≡ 127 = length-take 127 s (ground arith) in
      rw long (
        comment_writes (take 127 s) 127 kept (omega arith)
            ∙ ap (λ n. 0 ∷ (n + 1) ∷ take 127 s ++ 0 ∷ []) (sym kept),
        omega arith,
      )
  | inr short ↦ rw short (comment_writes s (length s) refl (ground arith), ground arith)
]
