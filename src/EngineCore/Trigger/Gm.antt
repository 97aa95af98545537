-- ===== src/EngineCore/Trigger/Gm.antt =====
-- engine-core/src/trigger/missing_tooth.rs: the decoder of the GM wheel with three gaps of two teeth.
pub mod Gap
use rust_ems.Base.{
  ℕ, ◌+◌, ◌-◌, ◌<◌, Bool, true, false, not, ◌&&◌, ◌||◌, Option, none, some, Result, ok, err, ltb,
  ◌==◌, if◌then◌else◌, min,
}
use rust_ems.Base.Words.{u32_wrapping_add}
use rust_ems.F32.{F32}
use rust_ems.EngineCore.Trigger.{
  SyncEdge, rise, TriggerSignal, SyncState, full_sync, CyclePosition, TriggerError, engine_stalled,
  TriggerState, is_crank, is_crank_synced, is_full_sync, consider, from_phase_and_angle, Cycle,
  new_cycle, count_tooth,
}
use rust_ems.EngineCore.Trigger.MissingTooth.{max_tooth_duration_us}

pub record GmTriggerConfig (F : Type 0) : Type 0 where
  pub engine_cycle_deg : F
  pub sync_edge : SyncEdge

pub record GmTriggerDecoder (F : Type 0) : Type 0 where
  pub cfg : GmTriggerConfig F
  pub prev_timestamp_us : ℕ
  -- `tooth_duration`, the latest first
  pub duration : ℕ
  pub duration_before : ℕ
  pub duration_first : ℕ
  pub first_event : Bool
  pub cycle : Cycle
  pub rpm : Option F
  pub cam_phase : Bool

-- 36 teeth less three times two.
abbrev pub gm_present_teeth : ℕ
gm_present_teeth = 30

module _ {F : Type 0} where
  abbrev pub new : GmTriggerConfig F → GmTriggerDecoder F
  new cfg = record {
    cfg = cfg;
    prev_timestamp_us = 0;
    duration = 0;
    duration_before = 0;
    duration_first = 0;
    first_event = true;
    cycle = new_cycle;
    rpm = none;
    cam_phase = false;
  }

  abbrev pub reset : GmTriggerDecoder F → GmTriggerDecoder F
  reset d = record (new d.cfg) { prev_timestamp_us = d.prev_timestamp_us }

  abbrev pub is_stalled : GmTriggerDecoder F → ℕ → Bool
  is_stalled d now_us =
      not d.first_event && ltb max_tooth_duration_us (now_us - d.prev_timestamp_us)

  abbrev pub interval : GmTriggerDecoder F → ℕ → ℕ
  interval d now_us =
      if d.first_event then 0 else min (now_us - d.prev_timestamp_us) max_tooth_duration_us

  abbrev pub at_event : GmTriggerDecoder F → ℕ → GmTriggerDecoder F
  at_event d now_us = record d { first_event = false; prev_timestamp_us = now_us }

  abbrev pub shift : GmTriggerDecoder F → ℕ → GmTriggerDecoder F
  shift d now_us = record (at_event d now_us) {
    duration_first = d.duration_before;
    duration_before = d.duration;
    duration = interval d now_us;
  }

  abbrev pub advance : GmTriggerDecoder F → ℕ → GmTriggerDecoder F
  advance d now_us = record (at_event d now_us) {
    cycle = record d.cycle { tooth_count = u32_wrapping_add d.cycle.tooth_count 1 };
  }

  pub at_cam : GmTriggerDecoder F → GmTriggerDecoder F
  at_cam d =
      if is_crank_synced d.cycle.sync
      then record d {
        cam_phase = ltb 15 d.cycle.tooth_count;
        cycle = record d.cycle { sync = full_sync };
      }
      else d

module _ {F : Type 0} (f : F32 F) where
  abbrev pub gm_36_2_2_2 : GmTriggerConfig F
  gm_36_2_2_2 = record { engine_cycle_deg = f.decimal 7200 1; sync_edge = rise }

  abbrev pub degrees_per_tooth : GmTriggerConfig F → F
  degrees_per_tooth cfg = f.div cfg.engine_cycle_deg (f.decimal 360 1)

  pub position_deg : GmTriggerDecoder F → F
  position_deg d = f.mul (f.of_int d.cycle.tooth_count) (degrees_per_tooth d.cfg)

  pub absolute_angle_deg : GmTriggerDecoder F → F
  absolute_angle_deg d =
      let tooth_deg = f.mul (f.of_int d.cycle.tooth_count) (degrees_per_tooth d.cfg) in
      if is_full_sync d.cycle.sync && d.cam_phase
      then f.add tooth_deg (f.mul d.cfg.engine_cycle_deg (f.decimal 5 1))
      else tooth_deg

  pub cycle_position : GmTriggerDecoder F → Option CyclePosition
  cycle_position d =
      if is_full_sync d.cycle.sync
      then (let tooth_deg = f.mul (f.of_int d.cycle.tooth_count) (degrees_per_tooth d.cfg) in
          some (from_phase_and_angle f d.cam_phase tooth_deg))
      else none

  pub trigger_state : GmTriggerDecoder F → TriggerState F
  trigger_state d = record {
    tooth_index = d.cycle.tooth_count;
    sync = d.cycle.sync;
    rpm = d.rpm;
    angle_deg = absolute_angle_deg d;
    cam_phase = d.cam_phase;
    cycle_position = cycle_position d;
    current_cylinder = none;
  }

  -- Two long gaps in a row; the margin of 0.5 is GAP_RATIO_MARGIN.
  pub is_gap : ℕ → ℕ → ℕ → Bool
  is_gap duration duration_before duration_first =
      if (duration_before == 0) || (duration_first == 0)
      then false
      else (let gap1 = f.div (f.of_int duration) (f.of_int duration_before) in
          let gap2 = f.div (f.of_int duration_before) (f.of_int duration_first) in
          let expected = f.decimal 30 1 in
          let lo = f.sub expected (f.decimal 5 1) in
          let hi = f.add expected (f.decimal 5 1) in
          f.le lo gap1
          && f.le gap1 hi
          && (f.le (f.decimal 15 1) gap2 && f.le gap2 (f.decimal 35 1)))

  pub estimate_rpm : Bool → GmTriggerDecoder F → GmTriggerDecoder F
  estimate_rpm is_sync_point d =
      if ltb 0 d.duration_before && not is_sync_point
      then (let tooth_period_us = f.of_int d.duration_before in
          let deg_per_tooth = degrees_per_tooth d.cfg in
          record d {
            rpm = some (
                f.mul (f.div (f.div deg_per_tooth (f.decimal 3600 1)) tooth_period_us)
                  (f.decimal 600000000 1));
          })
      else d

  abbrev pub finish :
      Bool
      → GmTriggerDecoder F
      → Cycle × Option TriggerError
      → GmTriggerDecoder F × Result TriggerError (TriggerState F)
  finish is_sync_point d (c, some e) = (record d { cycle = c }, err e)
  finish is_sync_point d (c, none) =
      let d' = estimate_rpm is_sync_point (record d { cycle = c }) in (d', ok (trigger_state d'))

  pub process_tooth : GmTriggerDecoder F → GmTriggerDecoder F × Result TriggerError (TriggerState F)
  unfolding estimate_rpm trigger_state
  process_tooth d =
      let is_sync_point = is_gap d.duration d.duration_before d.duration_first in
      finish is_sync_point d (count_tooth is_sync_point gm_present_teeth d.cycle)

  pub process :
      GmTriggerDecoder F
      → TriggerSignal
      → ℕ
      → GmTriggerDecoder F × Result TriggerError (TriggerState F)
  unfolding process_tooth
  process d signal now_us =
      if is_stalled d now_us
      then (reset d, err engine_stalled)
      else if not (is_crank signal)
      then (let d' = at_cam d in (d', ok (trigger_state d')))
      else if not (consider d.cfg.sync_edge signal)
      then (let d' = advance d now_us in (d', ok (trigger_state d')))
      else process_tooth (shift d now_us)
