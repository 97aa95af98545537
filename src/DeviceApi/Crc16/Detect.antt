-- ===== src/DeviceApi/Crc16/Detect.antt =====
-- The checksum fits sixteen bits, and it tells apart two messages that differ in one byte: each
-- round of the register can be undone.
use rust_ems.Base.{
  ℕ, zero, suc, ◌*◌, ◌%◌, ◌<◌, ◌≤◌, ◌≡◌, ◌≢◌, refl, sym, ap, ◌∙◌, List, [], ◌∷◌, ◌++◌, bit_and,
  bit_xor, arith, inl, inr, ◌⊎◌, ne→==, eq→==,
}
use Prim.Native.Nat.{differ}
use rust_ems.Base.Bits.{bit_and_top}
use rust_ems.Base.Xor.{bit_xor-lt, bit_xor-mod, bit_xor_injective, bit_xor_injective_right}
use rust_ems.DeviceApi.Crc16.{poly, init, crc_bit, crc_bits, crc_byte, crc_bytes, crc16_ccitt}

-- The two branches, by the register's top bit.
crc_bit_low : (c : ℕ) → c < 32768 → crc_bit c ≡ c * 2
unfolding crc_bit
crc_bit_low c h = rw (eq→== (bit_and c 0x8000) 0 (omega (arith, bit_and_top c))) (omega arith)

crc_bit_high : (c : ℕ) → 32768 ≤ c → c < 65536 → crc_bit c ≡ bit_xor (c * 2 % 65536) poly
unfolding crc_bit
crc_bit_high c l h = rw (ne→== (bit_and c 0x8000) 0 (omega (arith, bit_and_top c)))

low-or-high : (c : ℕ) → (c < 32768) ⊎ (32768 ≤ c)
low-or-high c = omega arith

pub crc_bit-lt : (c : ℕ) → c < 65536 → crc_bit c < 65536
crc_bit-lt c h = elim (low-or-high c) [
  | inl l ↦ rw (crc_bit_low c l) (omega arith)
  | inr l ↦ rw (crc_bit_high c l h) (bit_xor-lt 16 (c * 2 % 65536) poly (omega arith) (omega arith))
]

-- The polynomial is odd, so the lowest bit of the result tells which branch was taken.
crc_bit_parity : (c : ℕ) → 32768 ≤ c → c < 65536 → crc_bit c % 2 ≡ 1
crc_bit_parity c l h = omega (
  arith,
  ap (λ (t : ℕ). t % 2) (crc_bit_high c l h),
  bit_xor-mod (c * 2 % 65536) poly,
  ap (λ (t : ℕ). differ t 1) (even c),
)
  where
    even : (c : ℕ) → c * 2 % 65536 % 2 ≡ 0
    even c = omega arith

crc_bit_injective : (c d : ℕ) → c < 65536 → d < 65536 → crc_bit c ≡ crc_bit d → c ≡ d
crc_bit_injective c d hc hd e = elim (low-or-high c) [
  | inl lc ↦ elim (low-or-high d) [
    | inl ld ↦ omega (arith, crc_bit_low c lc, crc_bit_low d ld)
    | inr ld ↦ absurd (omega (arith, crc_bit_low c lc, crc_bit_parity d ld hd))
  ]
  | inr lc ↦ elim (low-or-high d) [
    | inl ld ↦ absurd (omega (arith, crc_bit_low d ld, crc_bit_parity c lc hc))
    | inr ld ↦
        let same : c * 2 % 65536 ≡ d * 2 % 65536 =
          bit_xor_injective (c * 2 % 65536) (d * 2 % 65536) poly
            (sym (crc_bit_high c lc hc) ∙ e ∙ crc_bit_high d ld hd) in
        omega arith
  ]
]

crc_bits-lt : (n c : ℕ) → c < 65536 → crc_bits n c < 65536
unfolding crc_bits
crc_bits-lt zero c h = h
crc_bits-lt (suc n) c h = crc_bits-lt n (crc_bit c) (crc_bit-lt c h)

crc_bits_injective : (n c d : ℕ) → c < 65536 → d < 65536 → crc_bits n c ≡ crc_bits n d → c ≡ d
unfolding crc_bits
crc_bits_injective zero c d hc hd e = e
crc_bits_injective (suc n) c d hc hd e =
    crc_bit_injective c d hc hd
      (crc_bits_injective n (crc_bit c) (crc_bit d) (crc_bit-lt c hc) (crc_bit-lt d hd) e)

joined-lt : (c b : ℕ) → c < 65536 → bit_xor c (b * 256 % 65536) < 65536
joined-lt c b h = bit_xor-lt 16 c (b * 256 % 65536) h (omega arith)

crc_byte-lt : (c b : ℕ) → c < 65536 → crc_byte c b < 65536
unfolding crc_byte
crc_byte-lt c b h = crc_bits-lt 8 _ (joined-lt c b h)

crc_byte_injective : (c d b : ℕ) → c < 65536 → d < 65536 → crc_byte c b ≡ crc_byte d b → c ≡ d
unfolding crc_byte
crc_byte_injective c d b hc hd e =
    bit_xor_injective c d (b * 256 % 65536)
      (crc_bits_injective 8 _ _ (joined-lt c b hc) (joined-lt d b hd) e)

crc_byte_injective_right :
    (c b b' : ℕ) → c < 65536 → b < 256 → b' < 256 → crc_byte c b ≡ crc_byte c b' → b ≡ b'
unfolding crc_byte
crc_byte_injective_right c b b' h hb hb' e =
    let same : b * 256 % 65536 ≡ b' * 256 % 65536 =
      bit_xor_injective_right c (b * 256 % 65536) (b' * 256 % 65536)
        (crc_bits_injective 8 _ _ (joined-lt c b h) (joined-lt c b' h) e) in
    omega arith

crc_bytes-lt : (bytes : List ℕ) (c : ℕ) → c < 65536 → crc_bytes c bytes < 65536
unfolding crc_bytes
crc_bytes-lt [] c h = h
crc_bytes-lt (b ∷ bytes) c h = crc_bytes-lt bytes (crc_byte c b) (crc_byte-lt c b h)

crc_bytes_injective :
    (bytes : List ℕ) (c d : ℕ)
    → c < 65536
    → d < 65536
    → crc_bytes c bytes ≡ crc_bytes d bytes
    → c ≡ d
unfolding crc_bytes
crc_bytes_injective [] c d hc hd e = e
crc_bytes_injective (b ∷ bytes) c d hc hd e = crc_byte_injective c d b hc hd (
    crc_bytes_injective bytes (crc_byte c b) (crc_byte d b) (crc_byte-lt c b hc)
      (crc_byte-lt d b hd) e)

crc_bytes-append :
    (front back : List ℕ) (c : ℕ) → crc_bytes c (front ++ back) ≡ crc_bytes (crc_bytes c front) back
unfolding crc_bytes
crc_bytes-append [] back c = refl
crc_bytes-append (b ∷ front) back c = crc_bytes-append front back (crc_byte c b)

-- The checksum is a `u16`.
pub crc16_ccitt-lt : (bytes : List ℕ) → crc16_ccitt bytes < 65536
unfolding crc16_ccitt
crc16_ccitt-lt bytes = crc_bytes-lt bytes init (omega arith)

-- Two messages that differ in exactly one byte have different checksums.
pub crc16_ccitt_detects :
    (front back : List ℕ) (b b' : ℕ)
    → b < 256
    → b' < 256
    → b ≢ b'
    → crc16_ccitt (front ++ (b ∷ back)) ≢ crc16_ccitt (front ++ (b' ∷ back))
unfolding crc16_ccitt
crc16_ccitt_detects front back b b' hb hb' ne e = ne (
    crc_byte_injective_right c b b' hc hb hb' (
      crc_bytes_injective back (crc_byte c b) (crc_byte c b') (crc_byte-lt c b hc)
        (crc_byte-lt c b' hc)
        (unfold crc_bytes in
          sym (crc_bytes-append front (b ∷ back) init)
          ∙ e
          ∙ crc_bytes-append front (b' ∷ back) init)))
  where
    c : ℕ
    c = crc_bytes init front

    hc : c < 65536
    hc = crc_bytes-lt front init (omega arith)
