-- ===== src/Lifecycle/UserData.antt =====
-- The bytes that a rule carries for its owner, with the rule's id in the last four, and the comment
-- that `MakeRuleComment` makes.
use nftableslib.Base.{
  ℕ, ◌+◌, ◌-◌, ◌%◌, ◌^◌, none, some, List, [], ◌∷◌, ◌++◌, Bytes, Outcome, ok, err, panic,
  no_rule_id_tlv, rule_not_found, ◌>>=◌, ◌>>◌, fail_if, length, set, take, drop, replicate, copy,
  Bool, false, ltb, ◌==◌, ◌&&◌, not, if◌then◌else◌,
}
use nftableslib.Nft.{NfRule}
use nftableslib.Host.{BinaryUtil}

-- `copy(d[at:], src)`
abbrev copy_at : ℕ → Bytes → Bytes → Bytes
copy_at at d src = take at d ++ copy (drop at d) src

module _ ⦃bin : BinaryUtil⦄ where
  -- `make([]byte, ul+4)` and the writes after it, in `create` and in `Update`.
  unfoldable pub stamp_user_data : Bytes → ℕ → Bytes
  stamp_user_data user_data id =
      let ul = length user_data in
      let d0 = replicate (ul + 4) 0 in
      let d1 = copy d0 user_data in
      let d2 = set (set d1 ul 0x2) (ul + 1) 2 in
      copy_at (ul + 2) d2 (bin.be_put_uint16 (id % 2 ^ 16))

  -- The id in a rule's user data, as `GetRuleHandle` reads it.
  unfoldable pub read_rule_id : Bytes → Outcome ℕ
  read_rule_id d = if ltb (length d) 4 then panic else (do
    let tlv = drop (length d - 4) d
    fail_if (not (eq_tlv (take 2 tlv))) no_rule_id_tlv
    ok (bin.be_uint32 (copy_at 2 (replicate 4 0) (drop (length d - 2) d))))
    where
      eq_tlv : Bytes → Bool
      eq_tlv (t ∷ l ∷ _) = t == 0x2 && l == 0x2
      eq_tlv _ = false

  -- The loop of `GetRuleHandle` over the rules that the connection returned.
  unfoldable pub handle_of : ℕ → List NfRule → Outcome ℕ
  unfolding read_rule_id
  handle_of id [] = err rule_not_found
  handle_of id (rule ∷ rules) =
      let rest = handle_of id rules in
      elim rule.user_data [
        | none ↦ rest
        | some d ↦ read_rule_id d >>= λ found. if found == id then ok rule.handle else rest
      ]

-- `rule.UserData[:len(rule.UserData)-4]`
unfoldable pub strip_rule_id : Bytes → Outcome Bytes
strip_rule_id d = if ltb (length d) 4 then panic else ok (take (length d - 4) d)

-- The map that `GetRulesUserData` fills, as the list of its writes.
unfoldable pub users_data : List NfRule → Outcome (List (ℕ × Bytes))
unfolding strip_rule_id
users_data [] = ok []
users_data (rule ∷ rules) = elim rule.user_data [
  | none ↦ users_data rules
  | some d ↦ do data_ ← strip_rule_id d; rest ← users_data rules; ok ((rule.handle, data_) ∷ rest)
]

abbrev pub max_comment_length : ℕ
max_comment_length = 127

-- `MakeRuleComment`
unfoldable pub make_rule_comment : Bytes → Bytes
make_rule_comment s =
    let long = ltb max_comment_length (length s) in
    let cl = if long then max_comment_length else length s in
    let c = if long then take max_comment_length s else s in
    copy_at 2 (set (set (replicate (cl + 3) 0) 0 0x0) 1 ((cl + 1) % 256)) c
