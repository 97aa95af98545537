-- ===== src/EngineCore/StartStop.antt =====
-- engine-core/src/start_stop.rs: the start and stop sequence with the starter motor. Times are u32; the
-- model of the sensors is the shutdown's.
pub mod Starter
mod Tests
use rust_ems.Base.{
  ℕ, ◌+◌, ◌-◌, Bool, true, false, ◌&&◌, ◌||◌, Option, none, some, ltb, ◌==◌, if◌then◌else◌,
}
use rust_ems.Base.Words.{u32_wrapping_sub}
use rust_ems.F32.{F32}
use rust_ems.EngineCore.Shutdown.{SensorData}

pub data StartState : Type 0 where
  stopped cranking running start_failed stopping : StartState

pub data StartFailureReason : Type 0 where
  timeout no_rpm sensor_failure : StartFailureReason

pub record StartConfig (F : Type 0) : Type 0 where
  pub crank_timeout_ms : ℕ
  pub start_rpm_threshold : F
  pub stop_rpm_threshold : F
  pub retry_delay_ms : ℕ

pub record StartStopController (F : Type 0) : Type 0 where
  pub cfg : StartConfig F
  pub state : StartState
  pub crank_timer_ms : ℕ
  pub failure_reason : Option StartFailureReason
  pub retry_timer_ms : ℕ

abbrev pub is_stopped_state : StartState → Bool
is_stopped_state stopped = true
is_stopped_state _ = false

abbrev pub is_cranking_state : StartState → Bool
is_cranking_state cranking = true
is_cranking_state _ = false

abbrev pub is_running_state : StartState → Bool
is_running_state running = true
is_running_state _ = false

abbrev pub is_failed_state : StartState → Bool
is_failed_state start_failed = true
is_failed_state _ = false

module _ {F : Type 0} where
  abbrev pub with_config : StartConfig F → StartStopController F
  with_config cfg = record {
    cfg = cfg;
    state = stopped;
    crank_timer_ms = 0;
    failure_reason = none;
    retry_timer_ms = 0;
  }

  pub start : StartStopController F → StartStopController F
  start c =
      if is_stopped_state c.state || is_failed_state c.state
      then record c {
        state = cranking;
        crank_timer_ms = c.cfg.crank_timeout_ms;
        failure_reason = none;
        retry_timer_ms = 0;
      }
      else c

  pub stop : StartStopController F → StartStopController F
  stop c = if is_running_state c.state then record c { state = stopping } else c

  abbrev pub is_running : StartStopController F → Bool
  is_running c = is_running_state c.state

  abbrev pub is_cranking : StartStopController F → Bool
  is_cranking c = is_cranking_state c.state

  abbrev pub is_failed : StartStopController F → Bool
  is_failed c = is_failed_state c.state

  abbrev pub is_ready_to_retry : StartStopController F → Bool
  is_ready_to_retry c = is_failed_state c.state && (c.retry_timer_ms == 0)

  abbrev pub reset : StartStopController F → StartStopController F
  reset c = with_config c.cfg

  abbrev pub set_config : StartStopController F → StartConfig F → StartStopController F
  set_config c cfg = record c { cfg = cfg }

  -- The retry delay of a stopped engine with a failure.
  pub update_stopped : StartStopController F → ℕ → StartStopController F × Bool
  update_stopped c dt_ms = elim c.failure_reason [
    | none ↦ (c, false)
    | some _ ↦
        let left = c.retry_timer_ms - dt_ms in
        let c' = record c { retry_timer_ms = left } in
        (if left == 0 then record c' { failure_reason = none } else c', false)
  ]

  abbrev pub fail : StartStopController F → StartFailureReason → StartStopController F × Bool
  fail c reason = (
    record c {
      state = start_failed;
      failure_reason = some reason;
      retry_timer_ms = c.cfg.retry_delay_ms;
    },
    false,
  )

module _ {F : Type 0} (f : F32 F) where
  abbrev pub default_config : StartConfig F
  default_config = record {
    crank_timeout_ms = 5000;
    start_rpm_threshold = f.decimal 4000 1;
    stop_rpm_threshold = f.decimal 3000 1;
    retry_delay_ms = 2000;
  }

  abbrev pub new : StartStopController F
  new = with_config default_config

  abbrev pub rpm_or_zero : SensorData F → F
  rpm_or_zero sensors = elim sensors.rpm [ none ↦ f.decimal 0 1 | some rpm ↦ rpm ]

  -- A release build wraps around in the subtraction of a second.
  pub update_cranking : StartStopController F → F → ℕ → StartStopController F × Bool
  update_cranking c rpm dt_ms =
      let left = c.crank_timer_ms - dt_ms in
      let c' = record c { crank_timer_ms = left } in
      if f.le c.cfg.start_rpm_threshold rpm
      then (record c' { state = running }, false)
      else if left == 0
      then fail c' timeout
      else if f.lt rpm (f.decimal 500 1) && ltb left (u32_wrapping_sub c.cfg.crank_timeout_ms 1000)
      then fail c' no_rpm
      else (c', true)

  -- Running and stopping alike.
  pub update_turning : StartStopController F → F → StartStopController F × Bool
  update_turning c rpm =
      (if f.lt rpm c.cfg.stop_rpm_threshold then record c { state = stopped } else c, false)

  abbrev pub update_state :
      StartState → StartStopController F → F → ℕ → StartStopController F × Bool
  update_state stopped c rpm dt_ms = update_stopped c dt_ms
  update_state cranking c rpm dt_ms = update_cranking c rpm dt_ms
  update_state running c rpm dt_ms = update_turning c rpm
  update_state start_failed c rpm dt_ms =
      (record c { retry_timer_ms = c.retry_timer_ms - dt_ms }, false)
  update_state stopping c rpm dt_ms = update_turning c rpm

  pub update : StartStopController F → SensorData F → ℕ → StartStopController F × Bool
  unfolding update_stopped update_cranking update_turning
  update c sensors dt_ms = update_state c.state c (rpm_or_zero sensors) dt_ms
