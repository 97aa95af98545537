-- ===== src/EngineCore/Control/Expiry.antt =====
-- How long an override lasts.
use rust_ems.Base.{
  ℕ, zero, suc, ◌+◌, ◌%◌, ◌≤◌, ◌<◌, ◌≡◌, ◌≢◌, inl, inr, refl, ap, List, [], ◌∷◌, length, get_or,
  set, false, Bool-cases, Option-cases, none, some, ◌↔◌, ltb, ltb→lt, ltb→le, lt→ltb, le→ltb,
  if◌then◌else◌, arith,
}
use rust_ems.Base.Words.{u32_wrapping_add, u32_wrapping_sub}
use rust_ems.EngineCore.Control.{
  OverrideTarget, target_index, clamp, Overrides, set_override, get_override, clear_all, any_active,
  spark_cut, fuel_cut, timing_fix, idle_position, boost_duty, injector_duty,
  override_target_from_u8, BenchTarget, bench_target_to_u8, bench_target_from_u8, CalibrateRoutine,
  calibrate_to_u8, calibrate_from_u8,
}

get_or-set {ℓ} :
    {A : Type ℓ} (xs : List A) (i : ℕ) (v d : A) → i < length xs → get_or (set xs i v) i d ≡ v
get_or-set [] i v d h = absurd (omega arith)
get_or-set (x ∷ xs) zero v d h = refl
get_or-set (x ∷ xs) (suc i) v d h = get_or-set xs i v d (omega arith)

get_or-set_other {ℓ} :
    {A : Type ℓ} (xs : List A) (i j : ℕ) (v d : A) → i ≢ j → get_or (set xs i v) j d ≡ get_or xs j d
get_or-set_other [] i j v d ne = refl
get_or-set_other (x ∷ xs) zero zero v d ne = absurd (ne refl)
get_or-set_other (x ∷ xs) zero (suc j) v d ne = refl
get_or-set_other (x ∷ xs) (suc i) zero v d ne = refl
get_or-set_other (x ∷ xs) (suc i) (suc j) v d ne = get_or-set_other xs i j v d (λ e. ne (ap suc e))

target_index-lt : (t : OverrideTarget) → target_index t < 6
target_index-lt t = ground arith

-- The clock wraps around, and the distance on it does not.
before_expiry :
    (now t e : ℕ)
    → now < 4294967296
    → t ≤ 30000
    → e < t
    → 2147483647 ≤ u32_wrapping_sub ((now + e) % 4294967296) (u32_wrapping_add now t)
before_expiry now t e a b c = omega arith

after_expiry :
    (now t e : ℕ)
    → now < 4294967296
    → 1 ≤ t
    → t ≤ e
    → e ≤ 2147483647
    → u32_wrapping_sub ((now + e) % 4294967296) (u32_wrapping_add now t) < 2147483647
after_expiry now t e a b c d = omega arith

module _ {F : Type 0} where
  -- An override read back `e` milliseconds after it was set, for any `e` up to 2 ^ 31 - 1 and also
  -- when the 32-bit clock wraps around between, is there exactly while `e` is below the timeout,
  -- which is clamped to 1 .. 30000.
  pub get_override-set_override :
      (slots : Overrides F) (t : OverrideTarget) (v : F) (timeout now e : ℕ)
      → length slots ≡ 6
      → now < 4294967296
      → e ≤ 2147483647
      → (get_override (set_override slots t v timeout now) t ((now + e) % 4294967296)).1
        ≡ (if ltb e (clamp timeout 1 30000) then some v else none)
  unfolding get_override set_override
  get_override-set_override slots t v timeout now e size a b =
      let n = clamp timeout 1 30000 in
      let stored =
        get_or-set slots (target_index t)
          (some (record { value = v; expires_ms = u32_wrapping_add now n })) none
          (omega (arith, target_index-lt t)) in
      elim (Bool-cases (ltb e n)) [
        | inl l ↦ rw (
          l,
          get_override,
          stored,
          le→ltb (u32_wrapping_sub ((now + e) % 4294967296) (u32_wrapping_add now n)) 2147483647
              (before_expiry now n e a (omega arith) (ltb→lt e n l)),
        )
        | inr g ↦ rw (
          g,
          get_override,
          stored,
          lt→ltb (u32_wrapping_sub ((now + e) % 4294967296) (u32_wrapping_add now n)) 2147483647
              (after_expiry now n e a (omega arith) (ltb→le e n g) b),
        )
      ]

  -- Setting one target does not touch another.
  pub get_override-set_other :
      (slots : Overrides F) (t u : OverrideTarget) (v : F) (timeout now later : ℕ)
      → target_index t ≢ target_index u
      → (get_override (set_override slots t v timeout now) u later).1
        ≡ (get_override slots u later).1
  unfolding get_override set_override
  get_override-set_other slots t u v timeout now later ne =
      let same =
        get_or-set_other slots (target_index t) (target_index u)
          (some (record { value = v; expires_ms = u32_wrapping_add now (clamp timeout 1 30000) }))
          none ne in
      elim (Option-cases (get_or slots (target_index u) none)) [
        | inl e ↦ rw (get_override, same, e)
        | inr (slot, e) ↦
            elim (Bool-cases (ltb (u32_wrapping_sub later slot.expires_ms) 2147483647)) [
              | inl l ↦ rw (get_override, same, e, l)
              | inr g ↦ rw (get_override, same, e, g)
            ]
      ]

  -- After `clear_all` no override is active and none can be read, on any target at any time.
  pub get_override-clear_all :
      (slots : Overrides F) (t : OverrideTarget) (now : ℕ)
      → (any_active (clear_all slots) ≡ false) × ((get_override (clear_all slots) t now).1 ≡ none)
  unfolding get_override clear_all any_active
  get_override-clear_all slots spark_cut now = (refl, refl)
  get_override-clear_all slots fuel_cut now = (refl, refl)
  get_override-clear_all slots timing_fix now = (refl, refl)
  get_override-clear_all slots idle_position now = (refl, refl)
  get_override-clear_all slots boost_duty now = (refl, refl)
  get_override-clear_all slots injector_duty now = (refl, refl)

-- A byte from the wire parses to an override target, a bench target or a calibration routine exactly
-- when it is that value's discriminant.
pub control_from_u8_iff :
    (v : ℕ) (t : OverrideTarget) (b : BenchTarget) (r : CalibrateRoutine)
    → ((override_target_from_u8 v ≡ some t) ↔ (v ≡ target_index t))
      × ((bench_target_from_u8 v ≡ some b) ↔ (v ≡ bench_target_to_u8 b))
      × ((calibrate_from_u8 v ≡ some r) ↔ (v ≡ calibrate_to_u8 r))
unfolding override_target_from_u8 bench_target_from_u8 calibrate_from_u8
control_from_u8_iff v t b r = (ground arith, ground arith, ground arith)
