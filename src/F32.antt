-- ===== src/F32.antt =====
-- The source's f32, whose arithmetic the model does not define: a record of the operations that the
-- modules take as a parameter. `decimal m d` is the literal m / 10 ^ d. No law is assumed of them
-- but where a theorem names one.
use rust_ems.Base.{ℕ, ◌+◌, ◌-◌, ◌*◌, ◌/◌, ◌^◌, min, max, Bool, ltb, leb, ◌==◌}

pub record F32 (F : Type 0) : Type 0 where
  pub add : F → F → F
  pub sub : F → F → F
  pub mul : F → F → F
  pub div : F → F → F
  pub neg : F → F
  pub abs : F → F
  pub lt : F → F → Bool
  pub le : F → F → Bool
  pub of_int : ℕ → F
  pub decimal : ℕ → ℕ → F
  -- `f32::max`, `f32::clamp` with the bounds first, `==`, `as u32`, and the bits.
  pub max : F → F → F
  pub clamp : F → F → F → F
  pub eq : F → F → Bool
  pub to_u32 : F → ℕ
  -- `as u16`, and `as i16` as its bits.
  pub to_u16 : F → ℕ
  pub to_i16 : F → ℕ
  pub to_bits : F → ℕ
  pub of_bits : ℕ → F

-- Non-negative numbers with three decimals, to run the definitions on.
abbrev pub fixed_point : F32 ℕ
fixed_point = record {
  add = λ x y. x + y;
  sub = λ x y. x - y;
  mul = λ x y. x * y / 1000;
  div = λ x y. x * 1000 / y;
  neg = λ x. x;
  abs = λ x. x;
  lt = ltb;
  le = leb;
  of_int = λ n. n * 1000;
  decimal = λ m d. m * 1000 / 10 ^ d;
  max = λ x y. max x y;
  clamp = λ low high x. min (max x low) high;
  eq = λ x y. x == y;
  to_u32 = λ x. x / 1000;
  to_u16 = λ x. min (x / 1000) 65535;
  to_i16 = λ x. min (x / 1000) 32767;
  to_bits = λ x. x;
  of_bits = λ x. x;
}
