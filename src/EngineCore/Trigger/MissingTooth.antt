-- ===== src/EngineCore/Trigger/MissingTooth.antt =====
-- engine-core/src/trigger/missing_tooth.rs: the decoder of a crank wheel with a gap. Timestamps are u64
-- and only subtracted, with saturation. Fields that count teeth stand in `Cycle`.
pub mod Process
pub mod Reach
mod Tests
use rust_ems.Base.{
  ℕ, ◌+◌, ◌-◌, ◌*◌, ◌/◌, ◌<◌, Bool, true, false, not, ◌&&◌, Option, none, some, Result, ok, err,
  ltb, ◌==◌, if◌then◌else◌, min,
}
use rust_ems.Base.Words.{u32_wrapping_add, u32_wrapping_sub}
use rust_ems.F32.{F32}
use rust_ems.EngineCore.Trigger.{
  SyncEdge, rise, TriggerSignal, SyncState, full_sync, CyclePosition, TriggerError, engine_stalled,
  TriggerState, is_crank, is_crank_synced, is_full_sync, consider, from_phase_and_angle, Cycle,
  new_cycle, count_tooth,
}

abbrev pub max_tooth_duration_us : ℕ
max_tooth_duration_us = 10000000

abbrev pub engine_stall_timeout_us : ℕ
engine_stall_timeout_us = 1000000

pub record MissingToothConfig (F : Type 0) : Type 0 where
  pub total_teeth : ℕ
  pub missing_teeth : ℕ
  pub engine_cycle_deg : F
  pub sync_edge : SyncEdge

pub record MissingToothDecoder (F : Type 0) : Type 0 where
  pub cfg : MissingToothConfig F
  pub prev_timestamp_us : ℕ
  -- `tooth_duration[0]` and `tooth_duration[1]`
  pub duration : ℕ
  pub duration_before : ℕ
  pub first_event : Bool
  pub cycle : Cycle
  pub rpm : Option F
  pub cam_phase : Bool
  pub cam_tooth_count : Option ℕ

module _ {F : Type 0} where
  abbrev pub new_missing_tooth : ℕ → ℕ → F → SyncEdge → MissingToothConfig F
  new_missing_tooth total_teeth missing_teeth engine_cycle_deg sync_edge = record {
    total_teeth = total_teeth;
    missing_teeth = missing_teeth;
    engine_cycle_deg = engine_cycle_deg;
    sync_edge = sync_edge;
  }

  -- A release build wraps around.
  abbrev pub present_teeth : MissingToothConfig F → ℕ
  present_teeth cfg = u32_wrapping_sub cfg.total_teeth cfg.missing_teeth

  abbrev pub new : MissingToothConfig F → MissingToothDecoder F
  new cfg = record {
    cfg = cfg;
    prev_timestamp_us = 0;
    duration = 0;
    duration_before = 0;
    first_event = true;
    cycle = new_cycle;
    rpm = none;
    cam_phase = false;
    cam_tooth_count = none;
  }

  -- The timestamp stays.
  abbrev pub reset : MissingToothDecoder F → MissingToothDecoder F
  reset d = record (new d.cfg) { prev_timestamp_us = d.prev_timestamp_us }

  unfoldable pub check_stall : MissingToothDecoder F → ℕ → MissingToothDecoder F × Bool
  check_stall d now_us =
      if d.first_event
      then (d, false)
      else if ltb engine_stall_timeout_us (now_us - d.prev_timestamp_us)
      then (reset d, true)
      else (d, false)

  pub last_tooth_duration_us : MissingToothDecoder F → Option ℕ
  last_tooth_duration_us d = if ltb 0 d.duration then some d.duration else none

  abbrev pub is_stalled : MissingToothDecoder F → ℕ → Bool
  is_stalled d now_us =
      not d.first_event && ltb max_tooth_duration_us (now_us - d.prev_timestamp_us)

  -- A crank event that `process` has not refused: its time, and the interval before it.
  abbrev pub interval : MissingToothDecoder F → ℕ → ℕ
  interval d now_us =
      if d.first_event then 0 else min (now_us - d.prev_timestamp_us) max_tooth_duration_us

  abbrev pub at_event : MissingToothDecoder F → ℕ → MissingToothDecoder F
  at_event d now_us = record d { first_event = false; prev_timestamp_us = now_us }

  -- The history of intervals is shifted.
  abbrev pub shift : MissingToothDecoder F → ℕ → MissingToothDecoder F
  shift d now_us = record (at_event d now_us) {
    duration_before = d.duration;
    duration = interval d now_us;
  }

  abbrev pub advance : MissingToothDecoder F → ℕ → MissingToothDecoder F
  advance d now_us = record (at_event d now_us) {
    cycle = record d.cycle { tooth_count = u32_wrapping_add d.cycle.tooth_count 1 };
  }

  -- The first cam pulse after crank sync fixes the phase.
  pub at_cam : MissingToothDecoder F → MissingToothDecoder F
  at_cam d =
      if is_crank_synced d.cycle.sync
      then record d {
        cam_tooth_count = some d.cycle.tooth_count;
        cam_phase = ltb (present_teeth d.cfg / 2) d.cycle.tooth_count;
        cycle = record d.cycle { sync = full_sync };
      }
      else d

module _ {F : Type 0} (f : F32 F) where
  abbrev pub gap_ratio_margin : F
  gap_ratio_margin = f.decimal 5 1

  abbrev pub trigger_36_1 : MissingToothConfig F
  trigger_36_1 = new_missing_tooth 36 1 (f.decimal 7200 1) rise

  abbrev pub trigger_60_2 : MissingToothConfig F
  trigger_60_2 = new_missing_tooth 60 2 (f.decimal 7200 1) rise

  abbrev pub trigger_12_1 : MissingToothConfig F
  trigger_12_1 = new_missing_tooth 12 1 (f.decimal 7200 1) rise

  abbrev pub trigger_4_1 : MissingToothConfig F
  trigger_4_1 = new_missing_tooth 4 1 (f.decimal 7200 1) rise

  abbrev pub trigger_24_1 : MissingToothConfig F
  trigger_24_1 = new_missing_tooth 24 1 (f.decimal 7200 1) rise

  abbrev pub trigger_24_2 : MissingToothConfig F
  trigger_24_2 = new_missing_tooth 24 2 (f.decimal 7200 1) rise

  abbrev pub trigger_36_2 : MissingToothConfig F
  trigger_36_2 = new_missing_tooth 36 2 (f.decimal 7200 1) rise

  abbrev pub expected_gap_ratio : MissingToothConfig F → F
  expected_gap_ratio cfg = f.of_int (u32_wrapping_add cfg.missing_teeth 1)

  abbrev pub degrees_per_tooth : MissingToothConfig F → F
  degrees_per_tooth cfg = f.div cfg.engine_cycle_deg (f.of_int cfg.total_teeth)

  pub position_deg : MissingToothDecoder F → F
  position_deg d = f.mul (f.of_int d.cycle.tooth_count) (degrees_per_tooth d.cfg)

  pub absolute_angle_deg : MissingToothDecoder F → F
  absolute_angle_deg d =
      let tooth_deg = f.mul (f.of_int d.cycle.tooth_count) (degrees_per_tooth d.cfg) in
      if is_full_sync d.cycle.sync && d.cam_phase
      then f.add tooth_deg (f.mul d.cfg.engine_cycle_deg (f.decimal 5 1))
      else tooth_deg

  -- The position in the cycle, and the state that `process` returns.
  pub cycle_position : MissingToothDecoder F → Option CyclePosition
  cycle_position d =
      if is_full_sync d.cycle.sync
      then (let tooth_deg = f.mul (f.of_int d.cycle.tooth_count) (degrees_per_tooth d.cfg) in
          some (from_phase_and_angle f d.cam_phase tooth_deg))
      else none

  pub trigger_state : MissingToothDecoder F → TriggerState F
  trigger_state d = record {
    tooth_index = d.cycle.tooth_count;
    sync = d.cycle.sync;
    rpm = d.rpm;
    angle_deg = absolute_angle_deg d;
    cam_phase = d.cam_phase;
    cycle_position = cycle_position d;
    current_cylinder = none;
  }

  -- The gap ratio test on the two last intervals.
  pub is_gap : MissingToothConfig F → ℕ → ℕ → Bool
  is_gap cfg duration duration_before =
      if duration_before == 0
      then false
      else (let gap = f.div (f.of_int duration) (f.of_int duration_before) in
          let expected = expected_gap_ratio cfg in
          let lo = f.sub expected gap_ratio_margin in
          let hi = f.add expected gap_ratio_margin in
          let primary_check = f.le lo gap && f.le gap hi in
          if primary_check && ltb 6 cfg.total_teeth && ltb 0 cfg.missing_teeth
          then (let baseline_ratio =
                if ltb 0 duration_before && ltb 0 duration
                then f.div (f.of_int duration) (f.of_int duration_before)
                else f.decimal 10 1 in
              primary_check && f.lt (f.abs (f.sub baseline_ratio expected)) gap_ratio_margin)
          else primary_check)

  -- The speed of a normal tooth.
  pub estimate_rpm : Bool → MissingToothDecoder F → MissingToothDecoder F
  estimate_rpm is_sync_point d =
      if ltb 0 d.duration_before && not is_sync_point
      then (let tooth_period_us = f.of_int d.duration_before in
          let deg_per_tooth = degrees_per_tooth d.cfg in
          record d {
            rpm = some (
                f.mul (f.div (f.div deg_per_tooth (f.decimal 3600 1)) tooth_period_us)
                  (f.decimal 600000000 1));
          })
      else d

  abbrev pub finish :
      Bool
      → MissingToothDecoder F
      → Cycle × Option TriggerError
      → MissingToothDecoder F × Result TriggerError (TriggerState F)
  finish is_sync_point d (c, some e) = (record d { cycle = c }, err e)
  finish is_sync_point d (c, none) =
      let d' = estimate_rpm is_sync_point (record d { cycle = c }) in (d', ok (trigger_state d'))

  -- A crank edge that counts; `d` has its intervals shifted.
  pub process_tooth :
      MissingToothDecoder F → MissingToothDecoder F × Result TriggerError (TriggerState F)
  unfolding estimate_rpm trigger_state
  process_tooth d =
      let is_sync_point = is_gap d.cfg d.duration d.duration_before in
      finish is_sync_point d (count_tooth is_sync_point (present_teeth d.cfg) d.cycle)

  pub process :
      MissingToothDecoder F
      → TriggerSignal
      → ℕ
      → MissingToothDecoder F × Result TriggerError (TriggerState F)
  unfolding process_tooth
  process d signal now_us =
      if is_stalled d now_us
      then (reset d, err engine_stalled)
      else if not (is_crank signal)
      then (let d' = at_cam d in (d', ok (trigger_state d')))
      else if not (consider d.cfg.sync_edge signal)
      then (let d' = advance d now_us in (d', ok (trigger_state d')))
      else process_tooth (shift d now_us)
