-- ===== src/Registers/Append.antt =====
-- The registers of each expression, and lists of expressions that load before they read.
use nftableslib.Base.{
  ℕ, ◌≡◌, refl, Bool, true, ◌&&◌, List, [], ◌∷◌, ◌++◌, arith, mem, ◌==◌, if◌then◌else◌,
}
use nftableslib.Nft.{Expr}

-- Register 0 is the verdict register: as an operand it means that there is none.
operand : ℕ → List ℕ
operand r = if r == 0 then [] else r ∷ []

-- The registers whose content an expression uses.
unfoldable pub reads : Expr → List ℕ
unfolding operand
reads (Expr.meta key r sets) = if sets then r ∷ [] else []
reads (Expr.cmp op r d) = r ∷ []
reads (Expr.payload r b o l) = []
reads (Expr.bitwise src dst l m x) = src ∷ []
reads (Expr.range op r f t) = r ∷ []
reads (Expr.lookup e) = e.source_register ∷ []
reads (Expr.immediate r d) = []
reads (Expr.redir min max) = operand min ++ operand max
reads (Expr.tproxy f t r) = operand r
reads (Expr.masq e) = operand e.reg_proto_min ++ operand e.reg_proto_max
reads (Expr.log k d) = []
reads (Expr.reject t c) = []
reads (Expr.fib e) = []
reads (Expr.ct k r) = []
reads (Expr.nat e) =
    operand e.reg_addr_min
    ++ (operand e.reg_addr_max ++ (operand e.reg_proto_min ++ operand e.reg_proto_max))
reads (Expr.numgen r m t o) = []
reads (Expr.dynset e) = e.src_reg_key ∷ operand e.src_reg_data
reads Expr.counter = []
reads (Expr.verdict v) = []

-- The registers that an expression fills.
unfoldable pub loads : Expr → List ℕ
loads (Expr.meta key r sets) = if sets then [] else r ∷ []
loads (Expr.payload r b o l) = r ∷ []
loads (Expr.bitwise src dst l m x) = dst ∷ []
loads (Expr.lookup e) = if e.is_dest_reg_set then e.dest_register ∷ [] else []
loads (Expr.immediate r d) = r ∷ []
loads (Expr.fib e) = e.register ∷ []
loads (Expr.ct k r) = r ∷ []
loads (Expr.numgen r m t o) = r ∷ []
loads _ = []

pub all_in : List ℕ → List ℕ → Bool
all_in [] known = true
all_in (r ∷ rs) known = mem r known && all_in rs known

-- Every expression reads only registers of `known` and those loaded before it.
unfoldable pub loads_before_use : List ℕ → List Expr → Bool
unfolding reads loads all_in
loads_before_use known [] = true
loads_before_use known (e ∷ es) = all_in (reads e) known && loads_before_use (loads e ++ known) es

abbrev pub IsSafe : List Expr → Type 0
IsSafe es = loads_before_use [] es ≡ true

abbrev IsSubset : List ℕ → List ℕ → Type 0
IsSubset xs ys = (a : ℕ) → mem a xs ≡ true → mem a ys ≡ true

IsSubset-append_left : (zs ys : List ℕ) → IsSubset ys (zs ++ ys)
IsSubset-append_left [] ys a h = h
IsSubset-append_left (z ∷ zs) ys a h = ground (arith, IsSubset-append_left zs ys a h)

IsSubset-append_mono : (zs xs ys : List ℕ) → IsSubset xs ys → IsSubset (zs ++ xs) (zs ++ ys)
IsSubset-append_mono [] xs ys sub a h = sub a h
IsSubset-append_mono (z ∷ zs) xs ys sub a h = ground (arith, IsSubset-append_mono zs xs ys sub a)

all_in_mono : (rs xs ys : List ℕ) → IsSubset xs ys → all_in rs xs ≡ true → all_in rs ys ≡ true
unfolding all_in
all_in_mono [] xs ys sub h = refl
all_in_mono (r ∷ rs) xs ys sub h = ground (arith, sub r, all_in_mono rs xs ys sub)

-- More known registers do no harm.
loads_before_use_mono :
    (es : List Expr) (xs ys : List ℕ)
    → IsSubset xs ys
    → loads_before_use xs es ≡ true
    → loads_before_use ys es ≡ true
unfolding loads_before_use
loads_before_use_mono [] xs ys sub h = refl
loads_before_use_mono (e ∷ es) xs ys sub h = ground (
  arith,
  all_in_mono (reads e) xs ys sub,
  loads_before_use_mono es (loads e ++ xs) (loads e ++ ys)
      (IsSubset-append_mono (loads e) xs ys sub),
)

pub loads_before_use-append :
    (es fs : List Expr) (known : List ℕ)
    → loads_before_use known es ≡ true
    → loads_before_use known fs ≡ true
    → loads_before_use known (es ++ fs) ≡ true
unfolding loads_before_use
loads_before_use-append [] fs known h k = k
loads_before_use-append (e ∷ es) fs known h k = ground (
  arith,
  loads_before_use-append es fs (loads e ++ known),
  loads_before_use_mono fs known (loads e ++ known) (IsSubset-append_left (loads e) known) k,
)

pub IsSafe-append : (es fs : List Expr) → IsSafe es → IsSafe fs → IsSafe (es ++ fs)
IsSafe-append es fs h k = loads_before_use-append es fs [] h k

-- A list that is safe on its own is safe with registers known before it.
pub IsSafe-known : (known : List ℕ) (es : List Expr) → IsSafe es → loads_before_use known es ≡ true
IsSafe-known known es h = loads_before_use_mono es [] known (λ a e. cc) h
