-- ===== src/Nft/Constants.antt =====
-- The numbers of the Linux interface that the package names through `unix`, `nftables` and `expr`.
use nftableslib.Base.{ℕ, ℤ, pos, negsuc}

abbrev pub family_ipv4 : ℕ
family_ipv4 = 2

abbrev pub family_ipv6 : ℕ
family_ipv6 = 10

-- expr.MetaKey
abbrev pub meta_key_mark : ℕ
meta_key_mark = 3

abbrev pub meta_key_l4proto : ℕ
meta_key_l4proto = 16

-- unix.NFT_JUMP, NFT_GOTO, NFT_RETURN are negative, NFT_DROP and NFT_ACCEPT are nfrules.go's own.
abbrev pub nft_jump : ℤ
nft_jump = negsuc 2

abbrev pub nft_goto : ℤ
nft_goto = negsuc 3

abbrev pub nft_return : ℤ
nft_return = negsuc 4

abbrev pub nft_drop : ℤ
nft_drop = pos 0

abbrev pub nft_accept : ℤ
nft_accept = pos 1

abbrev pub ng_incremental : ℕ
ng_incremental = 0

abbrev pub ng_random : ℕ
ng_random = 1

abbrev pub dynset_op_update : ℕ
dynset_op_update = 1

abbrev pub ct_key_state : ℕ
ct_key_state = 0

-- unix.NFTA_LOG_*
abbrev pub log_group : ℕ
log_group = 1

abbrev pub log_prefix : ℕ
log_prefix = 2

abbrev pub log_snaplen : ℕ
log_snaplen = 3

abbrev pub log_qthreshold : ℕ
log_qthreshold = 4

abbrev pub log_level : ℕ
log_level = 5

-- expr.NATType
abbrev pub nat_source : ℕ
nat_source = 0

abbrev pub nat_dest : ℕ
nat_dest = 1

abbrev pub meta_key_iifname : ℕ
meta_key_iifname = 6

abbrev pub meta_key_oifname : ℕ
meta_key_oifname = 7
