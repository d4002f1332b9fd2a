-- ===== src/Semantics/Bitwise.antt =====
-- What the instruction bitwise makes of a register's bytes.
use Prim.Native.Nat.{bit_and, bit_xor}
use nftableslib.Base.{[], ◌∷◌, Bytes}

-- Each byte and its byte of the mask, then the xor with the third one.
unfoldable pub mask_bytes : (source mask xor : Bytes) → Bytes
mask_bytes (a ∷ xs) (m ∷ ms) (x ∷ ys) = bit_xor (bit_and a m) x ∷ mask_bytes xs ms ys
mask_bytes _ _ _ = []
