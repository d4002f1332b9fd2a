-- ===== src/Expressions/Meta.antt =====
-- nfexpressions.go: the packet's mark, meta keys, interfaces, routing information and connection tracking.
use Prim.Native.Nat.{bit_and}
use nftableslib.Base.{
  ℕ, ◌+◌, ◌-◌, ◌*◌, ◌/◌, ◌%◌, ◌^◌, true, false, Option, none, some, List, [], ◌∷◌, ◌++◌, Bytes,
  length, copy, replicate, ◌==◌, if◌then◌else◌,
}
use nftableslib.Nft.{CmpOp, Expr, meta_key_mark, meta_key_iifname, meta_key_oifname, ct_key_state}
use nftableslib.Host.{BinaryUtil}
use nftableslib.Rule.{MetaMark, MetaExpr, Fib, Conntrack}
use nftableslib.Expressions.Address.{cmp_op}

-- `make([]byte, 16)` with the name and a zero byte copied over it.
unfoldable pub ifname : Bytes → Bytes
ifname n = copy (replicate 16 0) (n ++ 0 ∷ [])

pub input_intf_by_name : Bytes → List Expr
unfolding ifname
input_intf_by_name intf =
    Expr.meta meta_key_iifname 1 false ∷ Expr.cmp CmpOp.eq 1 (ifname intf) ∷ []

pub output_intf_by_name : Bytes → List Expr
unfolding ifname
output_intf_by_name intf =
    Expr.meta meta_key_oifname 1 false ∷ Expr.cmp CmpOp.eq 1 (ifname intf) ∷ []

unfoldable pub expr_for_counter : List Expr
expr_for_counter = Expr.counter ∷ []

abbrev pub zero_word : Bytes
zero_word = replicate 4 0

module _ ⦃bin : BinaryUtil⦄ where
  -- `mark.Value`, masked unless the mask is 0.
  unfoldable pub masked_mark : MetaMark → ℕ
  masked_mark mark = if mark.mask == 0 then mark.value else bit_and mark.value mark.mask

  -- `mark.Set`: the mark is written.
  set_mark_exprs : MetaMark → List Expr
  unfolding masked_mark
  set_mark_exprs mark =
      (if mark.mask == 0
        then Expr.immediate 1 (bin.ne_put_uint32 (masked_mark mark)) ∷ []
        else Expr.meta meta_key_mark 1 false
          ∷ Expr.bitwise 1 1 4 (bin.ne_put_uint32 (2 ^ 32 - 1 - mark.mask))
              (bin.ne_put_uint32 (masked_mark mark))
          ∷ [])
      ++ Expr.meta meta_key_mark 1 true ∷ []

  -- Otherwise it is compared.
  match_mark_exprs : MetaMark → List Expr
  unfolding masked_mark
  match_mark_exprs mark =
      Expr.meta meta_key_mark 1 false
      ∷ ((if mark.mask == 0
            then []
            else Expr.bitwise 1 1 4 (bin.ne_put_uint32 mark.mask) zero_word ∷ [])
          ++ Expr.cmp CmpOp.eq 1 (bin.ne_put_uint32 (masked_mark mark)) ∷ [])

  unfoldable pub expr_for_meta_mark : Option MetaMark → List Expr
  unfolding set_mark_exprs match_mark_exprs
  expr_for_meta_mark none = []
  expr_for_meta_mark (some mark) =
      if mark.set_mark then set_mark_exprs mark else match_mark_exprs mark

unfoldable pub expr_for_meta_expr : List MetaExpr → List Expr
expr_for_meta_expr [] = []
expr_for_meta_expr (m ∷ ms) =
    Expr.meta m.key 1 false ∷ Expr.cmp (cmp_op m.rel_op) 1 m.value ∷ expr_for_meta_expr ms

-- `len(f.Data) / 4`, one more for a rest, times 4
abbrev pub padded_length : ℕ → ℕ
padded_length n = (if n % 4 == 0 then n / 4 else n / 4 + 1) * 4

unfoldable pub expr_for_fib : Option Fib → List Expr
expr_for_fib none = []
expr_for_fib (some f) =
    Expr.fib (record {
      register = 1;
      result_oif = f.result_oif;
      result_oifname = f.result_oifname;
      result_addrtype = f.result_addrtype;
      flag_saddr = f.flag_saddr;
      flag_daddr = f.flag_daddr;
      flag_mark = f.flag_mark;
      flag_iif = f.flag_iif;
      flag_oif = f.flag_oif;
      flag_present = f.flag_present;
    })
    ∷ Expr.cmp (cmp_op f.rel_op) 1 (copy (replicate (padded_length (length f.content)) 0) f.content)
    ∷ []

-- NFT_CT_STATE is the one key that yields expressions; nil pointers are skipped.
unfoldable pub conntrack_exprs : Option Conntrack → List Expr
conntrack_exprs none = []
conntrack_exprs (some c) =
    if c.key == ct_key_state
    then Expr.ct ct_key_state 1
      ∷ Expr.bitwise 1 1 4 c.value zero_word
      ∷ Expr.cmp CmpOp.neq 1 zero_word
      ∷ []
    else []

unfoldable pub expr_for_conntracks : List (Option Conntrack) → List Expr
unfolding conntrack_exprs
expr_for_conntracks [] = []
expr_for_conntracks (c ∷ cts) = conntrack_exprs c ++ expr_for_conntracks cts
