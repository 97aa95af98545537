-- ===== src/EngineCore/Tcu/Tests.antt =====
-- The theorems on the transmission at concrete inputs, over numbers with three decimals.
use rust_ems.Base.{ℕ, ◌+◌, ◌≡◌, refl, [], ◌∷◌, leb, if◌then◌else◌, none, some}
use rust_ems.F32.{fixed_point}
use rust_ems.EngineCore.Shutdown.{SensorData}
use rust_ems.EngineCore.Tcu.{second, third, Tcu, new, request_gear, upshift, default_config, update}
use rust_ems.EngineCore.Tcu.Gears.{
  IsCoherent, made, requested, shifted_up, updated, Reachable-IsCoherent,
}
use rust_ems.EngineCore.Tcu.Shift.{updates, elapsed, request_gear-updates}

abbrev turning : SensorData ℕ
turning = record { battery_volts = none; rpm = some 3000000 }

Reachable-IsCoherent_example :
    IsCoherent (update fixed_point (upshift (request_gear (new fixed_point) second)) turning 300).0
Reachable-IsCoherent_example =
    Reachable-IsCoherent fixed_point
      (updated turning 300 (shifted_up (requested second (made (default_config fixed_point)))))

abbrev in_second : Tcu ℕ
in_second = record (new fixed_point) { current_gear = second; target_gear = second }

request_gear-updates_example :
    (updates fixed_point
      (request_gear in_second third)
      ((turning, 150) ∷ ((turning, 60) ∷ []))).current_gear
    ≡ (if leb 200 (150 + elapsed fixed_point ((turning, 60) ∷ [])) then third else second)
request_gear-updates_example =
    request_gear-updates fixed_point in_second third turning 150 ((turning, 60) ∷ []) refl refl refl
      refl
