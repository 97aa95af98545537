-- ===== src/EngineCore/Shutdown.antt =====
-- engine-core/src/shutdown.rs: the sequence from key-off to a stopped engine. Times are u32; an f32 is
-- a value of `F`, and its comparison `<` is a parameter, since the code only compares.
pub mod Sequence
mod Tests
use rust_ems.Base.{
  ℕ, zero, suc, ◌+◌, ◌-◌, ◌%◌, Bool, true, false, ◌&&◌, Option, none, some, ltb, ◌==◌,
  if◌then◌else◌,
}

pub data ShutdownReason : Type 0 where
  key_off emergency_stop critical_protection low_battery timeout : ShutdownReason

pub data ShutdownState : Type 0 where
  running fuel_pump_on coasting stopped : ShutdownState

pub record ShutdownConfig (F : Type 0) : Type 0 where
  pub fuel_pump_run_ms : ℕ
  pub min_running_rpm : F
  pub start_timeout_ms : ℕ
  pub battery_shutdown_v : F

pub record ShutdownController (F : Type 0) : Type 0 where
  pub cfg : ShutdownConfig F
  pub state : ShutdownState
  pub reason : Option ShutdownReason
  pub fuel_pump_timer_ms : ℕ
  pub uptime_ms : ℕ

-- What the controller reads of `SensorData`.
pub record SensorData (F : Type 0) : Type 0 where
  pub battery_volts : Option F
  pub rpm : Option F

-- `self.state == ShutdownState::Running`
abbrev pub is_running : ShutdownState → Bool
is_running running = true
is_running _ = false

module _ {F : Type 0} where
  abbrev pub with_config : ShutdownConfig F → ShutdownController F
  with_config cfg = record {
    cfg = cfg;
    state = running;
    reason = none;
    fuel_pump_timer_ms = 0;
    uptime_ms = 0;
  }

  pub shutdown : ShutdownController F → ShutdownReason → ShutdownController F
  shutdown c reason =
      if is_running c.state
      then record c {
        state = fuel_pump_on;
        reason = some reason;
        fuel_pump_timer_ms = c.cfg.fuel_pump_run_ms;
      }
      else c

  pub reset : ShutdownController F → ShutdownController F
  reset c = record c { state = running; reason = none; fuel_pump_timer_ms = 0; uptime_ms = 0 }

  abbrev pub set_config : ShutdownController F → ShutdownConfig F → ShutdownController F
  set_config c cfg = record c { cfg = cfg }

  module _ (lt : F → F → Bool) where
    -- `if let Some(x) = reading { if x < limit { … } }`
    abbrev pub below : Option F → F → Bool
    below none limit = false
    below (some x) limit = lt x limit

    pub update_running : ShutdownController F → SensorData F → ShutdownController F × Bool
    unfolding shutdown
    update_running c sensors =
        let c₁ =
          if below sensors.battery_volts c.cfg.battery_shutdown_v
          then shutdown c low_battery
          else c in
        let c₂ =
          if ltb c.cfg.start_timeout_ms c.uptime_ms && below sensors.rpm c.cfg.min_running_rpm
          then shutdown c₁ timeout
          else c₁ in
        (c₂, false)

    -- `saturating_sub` is the subtraction that stops at 0.
    pub update_fuel_pump : ShutdownController F → ℕ → ShutdownController F × Bool
    update_fuel_pump c dt_ms =
        let left = c.fuel_pump_timer_ms - dt_ms in
        if left == 0
        then (record c { fuel_pump_timer_ms = left; state = coasting }, false)
        else (record c { fuel_pump_timer_ms = left }, true)

    -- An engine without a speed reading counts as stopped.
    abbrev pub has_stopped : Option F → F → Bool
    has_stopped none limit = true
    has_stopped (some x) limit = lt x limit

    pub update_coasting : ShutdownController F → SensorData F → ShutdownController F × Bool
    update_coasting c sensors = (
      (if has_stopped sensors.rpm c.cfg.min_running_rpm then record c { state = stopped } else c),
      false,
    )

    pub update_state :
        ShutdownState → ShutdownController F → SensorData F → ℕ → ShutdownController F × Bool
    unfolding update_running update_fuel_pump update_coasting
    update_state running c sensors dt_ms = update_running c sensors
    update_state fuel_pump_on c sensors dt_ms = update_fuel_pump c dt_ms
    update_state coasting c sensors dt_ms = update_coasting c sensors
    update_state stopped c sensors dt_ms = (c, false)

    -- A release build wraps the uptime around.
    pub update : ShutdownController F → SensorData F → ℕ → ShutdownController F × Bool
    unfolding update_state
    update c sensors dt_ms =
        let c' = record c { uptime_ms = (c.uptime_ms + dt_ms) % 4294967296 } in
        update_state c.state c' sensors dt_ms
