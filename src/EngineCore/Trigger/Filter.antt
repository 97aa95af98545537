-- ===== src/EngineCore/Trigger/Filter.antt =====
-- engine-core/src/trigger/missing_tooth.rs: the noise filter of a trigger input, and the choice of the
-- injection mode.
pub mod Debounce
pub mod Mode
mod Tests
use rust_ems.Base.{
  ℕ, ◌+◌, ◌-◌, ◌/◌, Bool, true, false, not, ◌&&◌, Option, none, some, leb, if◌then◌else◌,
}
use rust_ems.Base.Words.{u32_wrapping_add, u32_saturating_add}
use rust_ems.EngineCore.Trigger.{TriggerState, is_full_sync}

pub record TriggerNoiseFilter : Type 0 where
  pub min_pulse_width_us : ℕ
  pub last_valid_edge_us : ℕ
  pub last_raw_state : Bool
  pub filtered_state : Bool
  pub stable_count : ℕ
  pub stability_threshold : ℕ

abbrev pub new_filter : ℕ → ℕ → TriggerNoiseFilter
new_filter min_pulse_width_us stability_threshold = record {
  min_pulse_width_us = min_pulse_width_us;
  last_valid_edge_us = 0;
  last_raw_state = false;
  filtered_state = false;
  stable_count = 0;
  stability_threshold = stability_threshold;
}

abbrev pub default_vr_filter : TriggerNoiseFilter
default_vr_filter = new_filter 50 2

-- `!=` of two levels.
abbrev pub differs : Bool → Bool → Bool
differs true b = not b
differs false b = b

-- A sample with the level of the one before it; `n` is the number of those in a row.
pub process_stable : TriggerNoiseFilter → Bool → ℕ → ℕ → TriggerNoiseFilter × Option Bool
process_stable s raw_state now_us n =
    let s' = record s { stable_count = n } in
    if leb s.stability_threshold n
      && (differs raw_state s.filtered_state
          && leb s.min_pulse_width_us (now_us - s.last_valid_edge_us))
    then (record s' { filtered_state = raw_state; last_valid_edge_us = now_us }, some raw_state)
    else (s', none)

pub process : TriggerNoiseFilter → Bool → ℕ → TriggerNoiseFilter × Option Bool
unfolding process_stable
process s raw_state now_us =
    if differs raw_state s.last_raw_state
    then (record s { stable_count = 0; last_raw_state = raw_state }, none)
    else process_stable s raw_state now_us (u32_wrapping_add s.stable_count 1)

abbrev pub reset_filter : TriggerNoiseFilter → TriggerNoiseFilter
reset_filter s = record s {
  filtered_state = false;
  last_raw_state = false;
  stable_count = 0;
  last_valid_edge_us = 0;
}

pub data InjectionMode : Type 0 where
  simultaneous grouped sequential : InjectionMode

pub record SequentialModeSelector : Type 0 where
  pub mode : InjectionMode
  pub required_cycles : ℕ
  pub sync_cycle_count : ℕ

abbrev pub new_selector : ℕ → SequentialModeSelector
new_selector required_cycles = record {
  mode = simultaneous;
  required_cycles = required_cycles;
  sync_cycle_count = 0;
}

abbrev pub reset_selector : SequentialModeSelector → SequentialModeSelector
reset_selector s = record s { mode = simultaneous; sync_cycle_count = 0 }

-- The mode that the selector returns is its field.
pub update : {F : Type 0} → SequentialModeSelector → TriggerState F → SequentialModeSelector
update s trigger_state =
    if is_full_sync trigger_state.sync
    then (let count = u32_saturating_add s.sync_cycle_count 1 in
        let s' = record s { sync_cycle_count = count } in
        if leb s.required_cycles count
        then record s' { mode = sequential }
        else if leb (s.required_cycles / 2) count
        then record s' { mode = grouped }
        else s')
    else reset_selector s
