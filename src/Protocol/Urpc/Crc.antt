-- ===== src/Protocol/Urpc/Crc.antt =====
-- The checksum: it vanishes over a body with its checksum behind it, and tells two bodies apart that
-- differ in one byte.
use Prim.Native.Nat.{bit_and, bit_xor}
use devagent.Base.{
  ℕ, zero, suc, ◌+◌, ◌/◌, ◌<◌, ◌≡◌, ◌≢◌, refl, sym, ap, ◌∙◌, Bool, true, ◌&&◌, List, [], ◌∷◌, ◌++◌,
  arith, ltb, ◌==◌, if◌then◌else◌, All,
}
use devagent.Protocol.Bytes.{IsByte, passes_under, passes_under→true, xor_laws, xor_self}
use devagent.Protocol.Urpc.{crc_bit, crc_bits, crc_from, crc8}

-- The inverse of `crc_bit` on bytes.
uncrc_bit : ℕ → ℕ
uncrc_bit c = if bit_and c 1 == 0 then c / 2 else bit_xor c 0x07 / 2 + 128

bit_ok : ℕ → Bool
bit_ok c = ltb (crc_bit c) 256 && (uncrc_bit (crc_bit c) == c)

bit_table : passes_under bit_ok 256 ≡ true
unfolding passes_under bit_ok uncrc_bit crc_bit
bit_table = refl

record BitLaws (c : ℕ) : Type 0 where
  byte : crc_bit c < 256
  undone : uncrc_bit (crc_bit c) ≡ c

bit_laws : (c : ℕ) → c < 256 → BitLaws c
unfolding bit_ok
bit_laws c h =
    let cell : bit_ok c ≡ true = passes_under→true bit_ok 256 c h bit_table in
    record { byte = ground arith; undone = ground arith }

crc_bits_byte : (n c : ℕ) → c < 256 → crc_bits n c < 256
unfolding crc_bits
crc_bits_byte zero c h = h
crc_bits_byte (suc n) c h = crc_bits_byte n (crc_bit c) (bit_laws c h).byte

crc_bits_inj : (n c d : ℕ) → c < 256 → d < 256 → crc_bits n c ≡ crc_bits n d → c ≡ d
unfolding crc_bits
crc_bits_inj zero c d hc hd e = e
crc_bits_inj (suc n) c d hc hd e =
    let bits = crc_bits_inj n (crc_bit c) (crc_bit d) (bit_laws c hc).byte (bit_laws d hd).byte e in
    sym (bit_laws c hc).undone ∙ ap uncrc_bit bits ∙ (bit_laws d hd).undone

crc_bits-zero : crc_bits 8 0 ≡ 0
unfolding crc_bits crc_bit
crc_bits-zero = refl

pub crc_from_byte : (c : ℕ) (bs : List ℕ) → c < 256 → All IsByte bs → crc_from c bs < 256
unfolding crc_from
crc_from_byte c [] h hs = h
crc_from_byte c (b ∷ bs) h hs =
    crc_from_byte (crc_bits 8 (bit_xor c b)) bs
      (crc_bits_byte 8 (bit_xor c b) (xor_laws c b h hs.0).byte) hs.1

pub crc8_byte : (bs : List ℕ) → All IsByte bs → crc8 bs < 256
unfolding crc8
crc8_byte bs hs = crc_from_byte 0 bs (omega arith) hs

crc_from-append : (c : ℕ) (xs ys : List ℕ) → crc_from c (xs ++ ys) ≡ crc_from (crc_from c xs) ys
unfolding crc_from
crc_from-append c [] ys = refl
crc_from-append c (x ∷ xs) ys = crc_from-append (crc_bits 8 (bit_xor c x)) xs ys

-- Two states that differ stay different over the same bytes.
crc_from_inj :
    (c d : ℕ) (bs : List ℕ)
    → c < 256
    → d < 256
    → All IsByte bs
    → crc_from c bs ≡ crc_from d bs
    → c ≡ d
unfolding crc_from
crc_from_inj c d [] hc hd hs e = e
crc_from_inj c d (b ∷ bs) hc hd hs e =
    let xc = xor_laws c b hc hs.0 in
    let xd = xor_laws d b hd hs.0 in
    let states =
      crc_from_inj (crc_bits 8 (bit_xor c b)) (crc_bits 8 (bit_xor d b)) bs
        (crc_bits_byte 8 _ xc.byte) (crc_bits_byte 8 _ xd.byte) hs.1 e in
    let bytes = crc_bits_inj 8 (bit_xor c b) (bit_xor d b) xc.byte xd.byte states in
    sym xc.cancel_right ∙ ap (λ t. bit_xor t b) bytes ∙ xd.cancel_right

-- Bodies of bytes that differ in exactly one place have different checksums.
pub crc8_single_byte :
    (xs ys : List ℕ) (a b : ℕ)
    → All IsByte xs
    → All IsByte ys
    → IsByte a
    → IsByte b
    → a ≢ b
    → crc8 (xs ++ a ∷ ys) ≢ crc8 (xs ++ b ∷ ys)
unfolding crc8
crc8_single_byte xs ys a b hx hy ha hb differ e =
    let c = crc_from 0 xs in
    let hc = crc_from_byte 0 xs (omega arith) hx in
    let xa = xor_laws c a hc ha in
    let xb = xor_laws c b hc hb in
    let tails : crc_from c (a ∷ ys) ≡ crc_from c (b ∷ ys) =
      sym (crc_from-append 0 xs (a ∷ ys)) ∙ e ∙ crc_from-append 0 xs (b ∷ ys) in
    let states =
      crc_from_inj (crc_bits 8 (bit_xor c a)) (crc_bits 8 (bit_xor c b)) ys
        (crc_bits_byte 8 _ xa.byte) (crc_bits_byte 8 _ xb.byte) hy (unfold crc_from in tails) in
    let bytes = crc_bits_inj 8 (bit_xor c a) (bit_xor c b) xa.byte xb.byte states in
    differ (sym xa.cancel_left ∙ ap (bit_xor c) bytes ∙ xb.cancel_left)

-- Over bytes followed by their checksum the checksum is 0: the check that a receiver can make in one
-- pass.
pub crc8-append-crc8 : (bs : List ℕ) → All IsByte bs → crc8 (bs ++ crc8 bs ∷ []) ≡ 0
unfolding crc8
crc8-append-crc8 bs hs =
    let c = crc_from 0 bs in
    rw (crc_from-append 0 bs (c ∷ []), crc_from, crc_from, xor_self c (crc8_byte bs hs))
      crc_bits-zero
