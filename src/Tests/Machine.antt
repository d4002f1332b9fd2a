-- ===== src/Tests/Machine.antt =====
-- A machine with registers of 16 bytes that runs the instructions as nft's documentation says: a read
-- of at most 16 bytes gives as many bytes as it asks for.
use mathlib.Core.Path.{subst}
use nftableslib.Base.{
  ℕ, zero, suc, ◌+◌, ◌≤◌, ◌≡◌, refl, true, Option, none, some, [], ◌∷◌, ◌++◌, replicate, false,
  Bytes, arith, length, take, drop, leb, ◌==◌, if◌then◌else◌,
}
use nftableslib.Nft.{Expr, CmpOp, PayloadBase, meta_key_l4proto}
use nftableslib.Ranges.Value.{value}
use nftableslib.Semantics.Bitwise.{mask_bytes}
use nftableslib.Semantics.Kernel.{
  Kernel, holds, is_within, RunsPayload, RunsMeta, RunsCmp, RunsRange, RunsBitwise,
}

pub record Packet : Type 0 where
  pub network_header : Bytes
  pub transport_header : Bytes
  pub l4_protocol : ℕ

abbrev pub Registers : Type 0
Registers = ℕ → Bytes

-- The first bytes of a register; what was not loaded is 0.
abbrev read_register : (register len : ℕ) → Registers → Bytes
read_register register len r = take len (r register ++ replicate 16 0)

abbrev load : ℕ → Bytes → Registers → Registers
load register loaded r i = if i == register then loaded else r i

-- A payload that the header does not have stops the rule.
abbrev load_window : (register offset len : ℕ) → Bytes → Registers → Option Registers
load_window register offset len header r =
    if leb (offset + len) (length header)
    then some (load register (take len (drop offset header)) r)
    else none

-- A meta that sets a key, the keys and the instructions that are not needed here stop the rule.
abbrev run : Packet → Expr → Registers → Option Registers
run p (Expr.payload register PayloadBase.network offset len) r =
    load_window register offset len p.network_header r
run p (Expr.payload register PayloadBase.transport offset len) r =
    load_window register offset len p.transport_header r
run p (Expr.meta key register true) r = none
run p (Expr.meta key register false) r =
    if key == meta_key_l4proto then some (load register (p.l4_protocol ∷ []) r) else none
run p (Expr.cmp op register content) r =
    if holds op (value (read_register register (length content) r)) (value content)
    then some r
    else none
run p (Expr.range CmpOp.neq register from to) r =
    if is_within (value from) (value to) (value (read_register register (length from) r))
    then none
    else some r
run p (Expr.bitwise source dest len mask xor) r =
    some (load dest (mask_bytes (read_register source len r) mask xor) r)
run p e r = none

abbrev pub machine : Kernel
machine = record {
  Packet = Packet;
  Registers = Registers;
  network_header = λ p. p.network_header;
  transport_header = λ p. p.transport_header;
  l4_protocol = λ p. p.l4_protocol;
  read = read_register;
  step = run;
}

-- A read gives as many bytes as it asks for.
length-read : (n : ℕ) (bs : Bytes) → n ≤ length bs → length (take n bs) ≡ n
length-read zero bs h = refl
length-read (suc n) [] h = absurd (omega arith)
length-read (suc n) (b ∷ bs) h = omega (arith, length-read n bs (omega arith))

length-padded : (bs : Bytes) → 16 ≤ length (bs ++ replicate 16 0)
length-padded [] = omega arith
length-padded (b ∷ bs) = omega (arith, length-padded bs)

length-read_register :
    (register len : ℕ) (r : Registers) → len ≤ 16 → length (read_register register len r) ≡ len
length-read_register register len r fits =
    length-read len _ (omega (arith, length-padded (r register)))

length-mask_bytes :
    (n : ℕ) (bs mask xor : Bytes)
    → length bs ≡ n
    → length mask ≡ n
    → length xor ≡ n
    → length (mask_bytes bs mask xor) ≡ n
unfolding mask_bytes
length-mask_bytes zero [] mask xor a b c = refl
length-mask_bytes zero (x ∷ bs) mask xor a b c = absurd (omega arith)
length-mask_bytes (suc n) [] mask xor a b c = absurd (omega arith)
length-mask_bytes (suc n) (x ∷ bs) [] xor a b c = absurd (omega arith)
length-mask_bytes (suc n) (x ∷ bs) (m ∷ mask) [] a b c = absurd (omega arith)
length-mask_bytes (suc n) (x ∷ bs) (m ∷ mask) (y ∷ xor) a b c =
    omega (arith, length-mask_bytes n bs mask xor (omega arith) (omega arith) (omega arith))

==_refl : (n : ℕ) → (n == n) ≡ true
==_refl n = ground arith

take-++ : (bs more : Bytes) → take (length bs) (bs ++ more) ≡ bs
take-++ [] more = refl
take-++ (b ∷ bs) more = rw (take-++ bs more) refl

-- What a register holds when it was loaded.
read-load :
    (register : ℕ) (loaded : Bytes) (r : Registers)
    → read_register register (length loaded) (load register loaded r) ≡ loaded
read-load register loaded r = rw (==_refl register) (take-++ loaded (replicate 16 0))

load_window-long :
    (register offset len : ℕ) (header : Bytes) (r : Registers)
    → offset + len ≤ length header
    → load_window register offset len header r
      ≡ some (load register (take len (drop offset header)) r)
load_window-long register offset len header r h =
    let long : leb (offset + len) (length header) ≡ true = ground arith in rw long refl

pub runs_network : RunsPayload machine PayloadBase.network (λ p. p.network_header)
runs_network p r offset len low high h =
    let loaded = take len (drop offset p.network_header) in
    (_, load_window-long 1 offset len p.network_header r h, read-load 1 loaded r)

pub runs_transport : RunsPayload machine PayloadBase.transport (λ p. p.transport_header)
runs_transport p r offset len low high h =
    let loaded = take len (drop offset p.transport_header) in
    (_, load_window-long 1 offset len p.transport_header r h, read-load 1 loaded r)

pub runs_meta : RunsMeta machine
runs_meta p r = (_, refl, read-load 1 (p.l4_protocol ∷ []) r)

pub runs_cmp : RunsCmp machine
runs_cmp p r op content bytes low high = refl

pub runs_range : RunsRange machine
runs_range p r from to hf ht low high same = refl

pub runs_bitwise : RunsBitwise machine
runs_bitwise p r len mask xor low high hm hx bm bx =
    let source = read_register 1 len r in
    let cut = mask_bytes source mask xor in
    let same : length cut ≡ len =
      length-mask_bytes len source mask xor (length-read_register 1 len r high) hm hx in
    let read = read-load 1 cut r in
    (load 1 cut r, refl, subst (λ n. read_register 1 n (load 1 cut r) ≡ cut) same read)
