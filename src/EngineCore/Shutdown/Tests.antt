-- ===== src/EngineCore/Shutdown/Tests.antt =====
-- The shutdown sequence's theorems at concrete inputs; a voltage or a speed is a whole number here.
use rust_ems.Base.{ℕ, ◌+◌, ◌≡◌, refl, [], ◌∷◌, false, none, some, ltb}
use rust_ems.EngineCore.Shutdown.{
  key_off, ShutdownConfig, SensorData, with_config, shutdown, update,
}
use rust_ems.EngineCore.Shutdown.Sequence.{
  IsForward, update-IsForward, pump_after, elapsed, pump_after-run,
}

abbrev config : ShutdownConfig ℕ
config = record {
  fuel_pump_run_ms = 2000;
  min_running_rpm = 300;
  start_timeout_ms = 5000;
  battery_shutdown_v = 8;
}

abbrev readings : SensorData ℕ
readings = record { battery_volts = some 12; rpm = none }

update-IsForward_example :
    IsForward ltb (with_config config) (update ltb (with_config config) readings 10)
update-IsForward_example = update-IsForward ltb (with_config config) readings 10

abbrev rolling : SensorData ℕ
rolling = record { battery_volts = some 7; rpm = some 900 }

pump_after-run_example :
    pump_after ltb
      (shutdown (with_config config) key_off)
      ((readings, 500) ∷ ((rolling, 600) ∷ []))
      false
    ≡ ltb (500 + elapsed ltb ((rolling, 600) ∷ [])) 2000
unfolding shutdown
pump_after-run_example =
    pump_after-run ltb readings (shutdown (with_config config) key_off) 500 ((rolling, 600) ∷ [])
      false refl
