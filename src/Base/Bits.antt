-- ===== src/Base/Bits.antt =====
-- The bit operations at variables: each is a recursion on binary digits, so the laws go from the
-- halves of two numbers to the numbers.
use Prim.Native.Nat.{
  digits, bitwise, differ, bit_and-bitwise, bit_or-bitwise, bit_xor-bitwise, bit_and, bit_or,
  bit_xor, ℕ, zero, suc, ◌+◌, ◌*◌, ◌/◌, ◌%◌, ◌^◌, ◌≤◌, ◌<◌, min, max,
}
use mathlib.Core.Path.{◌≡◌, refl, ap}
use native.Mathlib.Nat.{pow-suc}
use native.Mathlib.Omega.{arith}

module _ (z : ℕ → ℕ) (f : ℕ → ℕ → ℕ) where
  -- Fuel above the number does not change its digits.
  digits_stable : (x y k l : ℕ) → x ≤ k → x ≤ l → digits z f l x y ≡ digits z f k x y
  digits_stable zero y zero zero p q = refl
  digits_stable zero y zero (suc l) p q = refl
  digits_stable zero y (suc k) zero p q = refl
  digits_stable zero y (suc k) (suc l) p q = refl
  digits_stable (suc x) y zero l p q = absurd (omega arith)
  digits_stable (suc x) y (suc k) zero p q = absurd (omega arith)
  digits_stable (suc x) y (suc k) (suc l) p q =
      omega (arith, digits_stable (suc x / 2) (y / 2) k l (omega arith) (omega arith))

  bitwise_step :
      (x y : ℕ)
      → z y ≡ z (y / 2) * 2 + f 0 (y % 2)
      → bitwise z f x y ≡ bitwise z f (x / 2) (y / 2) * 2 + f (x % 2) (y % 2)
  bitwise_step zero y e = e
  bitwise_step (suc x) y e =
      omega (arith, digits_stable (suc x / 2) (y / 2) x (suc x / 2) (omega arith) (omega arith))

pub bit_and_step : (a b : ℕ) → bit_and a b ≡ bit_and (a / 2) (b / 2) * 2 + min (a % 2) (b % 2)
bit_and_step a b = omega (
  arith,
  bit_and-bitwise a b,
  bit_and-bitwise (a / 2) (b / 2),
  bitwise_step (λ _. zero) min a b (omega arith),
)

pub bit_or_step : (a b : ℕ) → bit_or a b ≡ bit_or (a / 2) (b / 2) * 2 + max (a % 2) (b % 2)
bit_or_step a b = omega (
  arith,
  bit_or-bitwise a b,
  bit_or-bitwise (a / 2) (b / 2),
  bitwise_step (λ y. y) max a b (omega arith),
)

pub bit_xor_step : (a b : ℕ) → bit_xor a b ≡ bit_xor (a / 2) (b / 2) * 2 + differ (a % 2) (b % 2)
bit_xor_step a b = omega (
  arith,
  bit_xor-bitwise a b,
  bit_xor-bitwise (a / 2) (b / 2),
  bitwise_step (λ y. y) differ a b (omega arith),
)

pub two_pow_suc : (k : ℕ) → 2 ^ suc k ≡ 2 * 2 ^ k
two_pow_suc k = omega (arith, pow-suc 2 k)

shift_suc : (q k : ℕ) → q * 2 ^ suc k ≡ q * 2 ^ k * 2
shift_suc q k = omega (arith, ap (λ (t : ℕ). q * t) (two_pow_suc k))

-- A field `q << k` joined to a number of `k` bits is a sum.
pub bit_or_field : (k r q : ℕ) → r < 2 ^ k → bit_or r (q * 2 ^ k) ≡ r + q * 2 ^ k
bit_or_field zero zero q h = omega (arith, bit_or-bitwise 0 (q * 1))
bit_or_field zero (suc r) q h = absurd (omega arith)
bit_or_field (suc k) r q h = omega (
  arith,
  two_pow_suc k,
  shift_suc q k,
  bit_or_step r (q * 2 ^ suc k),
  ap (bit_or (r / 2)) (halve q k),
  bit_or_field k (r / 2) q (omega (arith, two_pow_suc k)),
)
  where
    halve : (q k : ℕ) → q * 2 ^ suc k / 2 ≡ q * 2 ^ k
    halve q k = omega (arith, shift_suc q k)

bit_and-zero_below : (n a : ℕ) → a ≤ n → bit_and a 0 ≡ 0
bit_and-zero_below n zero h = refl
bit_and-zero_below zero (suc a) h = elim h [ ]
bit_and-zero_below (suc n) (suc a) h =
    omega (arith, bit_and_step (suc a) 0, bit_and-zero_below n (suc a / 2) (omega arith))

pub bit_and-zero : (a : ℕ) → bit_and a 0 ≡ 0
bit_and-zero a = bit_and-zero_below a a (omega arith)

-- A mask whose lowest bit is set keeps the lowest bit, and one whose lowest bit is clear drops it.
bit_and_odd : (a m : ℕ) → bit_and a (2 * m + 1) ≡ bit_and (a / 2) m * 2 + a % 2
bit_and_odd a m = omega (arith, bit_and_step a (2 * m + 1), ap (bit_and (a / 2)) (halve m))
  where
    halve : (m : ℕ) → (2 * m + 1) / 2 ≡ m
    halve m = omega arith

bit_and_even : (a m : ℕ) → bit_and a (2 * m) ≡ bit_and (a / 2) m * 2
bit_and_even a m = omega (arith, bit_and_step a (2 * m), ap (bit_and (a / 2)) (halve m))
  where
    halve : (m : ℕ) → (2 * m) / 2 ≡ m
    halve m = omega arith

bit_and_nibble : (a : ℕ) → bit_and a 0xf ≡ a % 16
bit_and_nibble a = omega (
  arith,
  bit_and_odd a 7,
  bit_and_odd (a / 2) 3,
  bit_and_odd (a / 2 / 2) 1,
  bit_and_odd (a / 2 / 2 / 2) 0,
  bit_and-zero (a / 2 / 2 / 2 / 2),
)

-- The low byte of a number.
pub bit_and_byte : (a : ℕ) → bit_and a 0xff ≡ a % 256
bit_and_byte a = omega (
  arith,
  bit_and_odd a 127,
  bit_and_odd (a / 2) 63,
  bit_and_odd (a / 2 / 2) 31,
  bit_and_odd (a / 2 / 2 / 2) 15,
  bit_and_nibble (a / 2 / 2 / 2 / 2),
)

bit_and_bit_seven : (a : ℕ) → bit_and a 0x80 ≡ a / 128 % 2 * 128
bit_and_bit_seven a = omega (
  arith,
  bit_and_even a 64,
  bit_and_even (a / 2) 32,
  bit_and_even (a / 2 / 2) 16,
  bit_and_even (a / 2 / 2 / 2) 8,
  bit_and_even (a / 2 / 2 / 2 / 2) 4,
  bit_and_even (a / 2 / 2 / 2 / 2 / 2) 2,
  bit_and_even (a / 2 / 2 / 2 / 2 / 2 / 2) 1,
  bit_and_odd (a / 2 / 2 / 2 / 2 / 2 / 2 / 2) 0,
  bit_and-zero (a / 2 / 2 / 2 / 2 / 2 / 2 / 2 / 2),
)

-- The top bit of sixteen.
pub bit_and_top : (a : ℕ) → bit_and a 0x8000 ≡ a / 32768 % 2 * 32768
bit_and_top a = omega (
  arith,
  bit_and_even a 0x4000,
  bit_and_even (a / 2) 0x2000,
  bit_and_even (a / 2 / 2) 0x1000,
  bit_and_even (a / 2 / 2 / 2) 0x800,
  bit_and_even (a / 2 / 2 / 2 / 2) 0x400,
  bit_and_even (a / 2 / 2 / 2 / 2 / 2) 0x200,
  bit_and_even (a / 2 / 2 / 2 / 2 / 2 / 2) 0x100,
  bit_and_even (a / 2 / 2 / 2 / 2 / 2 / 2 / 2) 0x80,
  bit_and_bit_seven (a / 2 / 2 / 2 / 2 / 2 / 2 / 2 / 2),
)

-- The two bytes of a `u16`, low byte first, joined again.
pub join_bytes : (x : ℕ) → x < 65536 → bit_or (bit_and x 0xff % 256) (x / 256 % 256 * 256) ≡ x
join_bytes x h =
    omega
      (arith, bit_and_byte x, bit_or_field 8 (bit_and x 0xff % 256) (x / 256 % 256) (omega arith))

-- Two bytes joined make a `u16`.
pub joined_bytes : (lo hi : ℕ) → lo < 256 → bit_or lo (hi * 256) ≡ lo + hi * 256
joined_bytes lo hi h = bit_or_field 8 lo hi h

bit_or_comm_below : (n a b : ℕ) → a ≤ n → b ≤ n → bit_or a b ≡ bit_or b a
bit_or_comm_below zero zero zero h k = refl
bit_or_comm_below zero (suc a) b h k = elim h [ ]
bit_or_comm_below zero zero (suc b) h k = elim k [ ]
bit_or_comm_below (suc n) a b h k = omega (
  arith,
  bit_or_step a b,
  bit_or_step b a,
  bit_or_comm_below n (a / 2) (b / 2) (omega arith) (omega arith),
)

-- Two bytes joined with the high one first.
pub joined_be : (hi lo : ℕ) → lo < 256 → bit_or (hi * 256) lo ≡ hi * 256 + lo
joined_be hi lo h = omega (
  arith,
  bit_or_comm_below (hi * 256 + lo) (hi * 256) lo (omega arith) (omega arith),
  joined_bytes lo hi h,
)
