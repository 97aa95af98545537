-- ===== src/EngineCore/Control.antt =====
-- engine-core/src/comms/control.rs: overrides that expire, and the targets and routines of the
-- control plane. An override's value is an f32 that is only stored: `F`.
pub mod Expiry
mod Tests
use rust_ems.Base.{
  ℕ, zero, suc, ◌+◌, ◌%◌, min, max, List, [], ◌∷◌, replicate, get_or, set, Bool, true, false, ◌||◌,
  Option, none, some, ltb, ◌==◌, if◌then◌else◌,
}
use rust_ems.Base.Words.{u32_wrapping_add, u32_wrapping_sub}
use rust_ems.F32.{F32}

pub data OverrideTarget : Type 0 where
  spark_cut fuel_cut timing_fix idle_position boost_duty injector_duty : OverrideTarget

-- `target as usize`
abbrev pub target_index : OverrideTarget → ℕ
target_index spark_cut = 0
target_index fuel_cut = 1
target_index timing_fix = 2
target_index idle_position = 3
target_index boost_duty = 4
target_index injector_duty = 5

abbrev pub override_targets : ℕ
override_targets = 6

pub override_target_from_u8 : ℕ → Option OverrideTarget
override_target_from_u8 v =
    if v == 0
    then some spark_cut
    else if v == 1
    then some fuel_cut
    else if v == 2
    then some timing_fix
    else if v == 3
    then some idle_position
    else if v == 4
    then some boost_duty
    else if v == 5
    then some injector_duty
    else none

pub data BenchTarget : Type 0 where
  injector ignition_coil fuel_pump fan idle tachometer : BenchTarget

-- The discriminants of the source.
abbrev pub bench_target_to_u8 : BenchTarget → ℕ
bench_target_to_u8 injector = 0
bench_target_to_u8 ignition_coil = 1
bench_target_to_u8 fuel_pump = 2
bench_target_to_u8 fan = 3
bench_target_to_u8 idle = 4
bench_target_to_u8 tachometer = 5

pub bench_target_from_u8 : ℕ → Option BenchTarget
bench_target_from_u8 v =
    if v == 0
    then some injector
    else if v == 1
    then some ignition_coil
    else if v == 2
    then some fuel_pump
    else if v == 3
    then some fan
    else if v == 4
    then some idle
    else if v == 5
    then some tachometer
    else none

pub data CalibrateRoutine : Type 0 where
  tps_closed tps_open map_baro clear_adaptive : CalibrateRoutine

abbrev pub calibrate_to_u8 : CalibrateRoutine → ℕ
calibrate_to_u8 tps_closed = 0
calibrate_to_u8 tps_open = 1
calibrate_to_u8 map_baro = 2
calibrate_to_u8 clear_adaptive = 3

pub calibrate_from_u8 : ℕ → Option CalibrateRoutine
calibrate_from_u8 v =
    if v == 0
    then some tps_closed
    else if v == 1
    then some tps_open
    else if v == 2
    then some map_baro
    else if v == 3
    then some clear_adaptive
    else none

pub record OverrideSlot (F : Type 0) : Type 0 where
  pub value : F
  pub expires_ms : ℕ

abbrev pub clamp : ℕ → ℕ → ℕ → ℕ
clamp x low high = min (max x low) high

abbrev pub is_some {ℓ} : {A : Type ℓ} → Option A → Bool
is_some none = false
is_some (some _) = true

-- The array of `override_targets` slots.
abbrev pub Overrides : Type 0 → Type 0
Overrides F = List (Option (OverrideSlot F))

module _ {F : Type 0} where
  pub new_overrides : Overrides F
  new_overrides = replicate override_targets none

  pub set_override : Overrides F → OverrideTarget → F → ℕ → ℕ → Overrides F
  set_override slots target value timeout_ms now_ms =
      let timeout = clamp timeout_ms 1 30000 in
      set slots (target_index target)
        (some (record { value = value; expires_ms = u32_wrapping_add now_ms timeout }))

  pub clear_override : Overrides F → OverrideTarget → Overrides F × Bool
  clear_override slots target =
      (set slots (target_index target) none, is_some (get_or slots (target_index target) none))

  pub clear_all : Overrides F → Overrides F
  clear_all slots = replicate override_targets none

  pub get_override : Overrides F → OverrideTarget → ℕ → Overrides F × Option F
  get_override slots target now_ms = elim (get_or slots (target_index target) none) [
    | none ↦ (slots, none)
    | some slot ↦
        if ltb (u32_wrapping_sub now_ms slot.expires_ms) 2147483647
        then (set slots (target_index target) none, none)
        else (slots, some slot.value)
  ]

  pub any_active : Overrides F → Bool
  any_active [] = false
  any_active (slot ∷ slots) = is_some slot || any_active slots

pub record BenchTestSpec : Type 0 where
  pub target : BenchTarget
  pub index : ℕ
  pub on_ms : ℕ
  pub off_ms : ℕ
  pub count : ℕ

pub record Calibrations (F : Type 0) : Type 0 where
  pub tps_closed_pct : F
  pub tps_open_pct : F
  pub baro_kpa : F
  pub clear_adaptive_pending : Bool

abbrev pub default_calibrations : {F : Type 0} → F32 F → Calibrations F
default_calibrations f = record {
  tps_closed_pct = f.decimal 0 1;
  tps_open_pct = f.decimal 1000 1;
  baro_kpa = f.decimal 101325 3;
  clear_adaptive_pending = false;
}
