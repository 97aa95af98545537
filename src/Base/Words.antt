-- ===== src/Base/Words.antt =====
-- Integers on the wire in big-endian order: `to_be_bytes` and `from_be_bytes` of u16 and u32, and the
-- wrap-around of u32.
use Prim.Native.Nat.{ℕ, ◌+◌, ◌-◌, ◌*◌, ◌/◌, ◌%◌, ◌<◌, min}
use mathlib.Core.Path.{◌≡◌}
use mathlib.Core.List.{List, [], ◌∷◌}
use native.Mathlib.Omega.{arith}

abbrev pub u16_to_be : ℕ → List ℕ
u16_to_be x = x / 256 % 256 ∷ (x % 256 ∷ [])

abbrev pub u16_from_be : ℕ → ℕ → ℕ
u16_from_be hi lo = hi * 256 + lo

abbrev pub u32_to_be : ℕ → List ℕ
u32_to_be x = x / 16777216 % 256 ∷ (x / 65536 % 256 ∷ (x / 256 % 256 ∷ (x % 256 ∷ [])))

abbrev pub u32_from_be : ℕ → ℕ → ℕ → ℕ → ℕ
u32_from_be a b c d = ((a * 256 + b) * 256 + c) * 256 + d

pub u16_from-to : (x : ℕ) → x < 65536 → u16_from_be (x / 256 % 256) (x % 256) ≡ x
u16_from-to x h = omega arith

pub u32_from-to :
    (x : ℕ)
    → x < 4294967296
    → u32_from_be (x / 16777216 % 256) (x / 65536 % 256) (x / 256 % 256) (x % 256) ≡ x
u32_from-to x h = omega arith

-- `saturating_add` on a u16 and `wrapping_add`, `wrapping_sub` on a u32.
abbrev pub u16_saturating_add : ℕ → ℕ → ℕ
u16_saturating_add x y = min (x + y) 65535

abbrev pub u32_wrapping_add : ℕ → ℕ → ℕ
u32_wrapping_add x y = (x + y) % 4294967296

abbrev pub u32_wrapping_sub : ℕ → ℕ → ℕ
u32_wrapping_sub x y = (x + 4294967296 - y) % 4294967296

abbrev pub u32_saturating_add : ℕ → ℕ → ℕ
u32_saturating_add x y = min (x + y) 4294967295

-- `to_le_bytes` of u16 and u32, and `f32::from_le_bytes`'s four bytes as a u32.
abbrev pub u16_to_le : ℕ → List ℕ
u16_to_le x = x % 256 ∷ (x / 256 % 256 ∷ [])

abbrev pub u32_to_le : ℕ → List ℕ
u32_to_le x = x % 256 ∷ (x / 256 % 256 ∷ (x / 65536 % 256 ∷ (x / 16777216 % 256 ∷ [])))

abbrev pub u32_from_le : ℕ → ℕ → ℕ → ℕ → ℕ
u32_from_le a b c d = a + 256 * (b + 256 * (c + 256 * d))
