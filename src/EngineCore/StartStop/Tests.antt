-- ===== src/EngineCore/StartStop/Tests.antt =====
-- The theorems on the starter at concrete inputs, over numbers with three decimals.
use rust_ems.Base.{ℕ, ◌+◌, ◌<◌, ◌≡◌, refl, [], ◌∷◌, true, none, some}
use rust_ems.F32.{fixed_point}
use rust_ems.EngineCore.Shutdown.{SensorData}
use rust_ems.EngineCore.StartStop.{new, start, update, update_cranking, default_config}
use rust_ems.EngineCore.StartStop.Starter.{
  is_explained, elapsed, made, started, updated, Reachable-is_explained, updates, starter_in_time,
}

abbrev turning : SensorData ℕ
turning = record { battery_volts = none; rpm = some 200000 }

Reachable-is_explained_example :
    is_explained
      (update fixed_point (start (new fixed_point)) turning 5000).0.state
      (update fixed_point (start (new fixed_point)) turning 5000).0.failure_reason
      (update fixed_point (start (new fixed_point)) turning 5000).0.retry_timer_ms
    ≡ true
Reachable-is_explained_example =
    Reachable-is_explained fixed_point
      (updated turning 5000 (started (made (default_config fixed_point))))

starter_in_time_example : elapsed fixed_point ((turning, 1000) ∷ []) + 500 < 5000
unfolding start update update_cranking updates
starter_in_time_example =
    starter_in_time fixed_point ((turning, 1000) ∷ []) turning 500
      (made (default_config fixed_point)) refl refl
