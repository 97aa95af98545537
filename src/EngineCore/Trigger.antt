-- ===== src/EngineCore/Trigger.antt =====
-- engine-core/src/trigger/mod.rs: the types of the crank and cam decoders. `Cycle` is the part of the
-- decoders' state that counts teeth, which the two decoders of missing_tooth.rs handle alike.
pub mod MissingTooth
pub mod Gm
pub mod Counting
pub mod Filter
use rust_ems.Base.{
  ℕ, ◌+◌, ◌-◌, Bool, true, false, not, ◌&&◌, Option, none, some, ltb, leb, ◌==◌, if◌then◌else◌, min,
}
use rust_ems.Base.Words.{u32_wrapping_add, u32_saturating_add}
use rust_ems.F32.{F32}

pub data SyncEdge : Type 0 where
  both rise fall : SyncEdge

pub data TriggerSignal : Type 0 where
  crank_rise crank_fall cam_rise cam_fall : TriggerSignal

pub data SyncState : Type 0 where
  unsynced crank_synced full_sync : SyncState

pub data CyclePosition : Type 0 where
  intake compression power exhaust : CyclePosition

pub data TriggerError : Type 0 where
  too_many_teeth too_few_teeth engine_stalled invalid_gap_ratio : TriggerError

pub record TriggerState (F : Type 0) : Type 0 where
  pub tooth_index : ℕ
  pub sync : SyncState
  pub rpm : Option F
  pub angle_deg : F
  pub cam_phase : Bool
  pub cycle_position : Option CyclePosition
  pub current_cylinder : Option ℕ

-- The tests of a signal and of a state.
abbrev pub is_crank : TriggerSignal → Bool
is_crank crank_rise = true
is_crank crank_fall = true
is_crank cam_rise = false
is_crank cam_fall = false

abbrev pub is_rise : TriggerSignal → Bool
is_rise crank_rise = true
is_rise crank_fall = false
is_rise cam_rise = true
is_rise cam_fall = false

abbrev pub is_unsynced : SyncState → Bool
is_unsynced unsynced = true
is_unsynced _ = false

abbrev pub is_crank_synced : SyncState → Bool
is_crank_synced crank_synced = true
is_crank_synced _ = false

abbrev pub is_full_sync : SyncState → Bool
is_full_sync full_sync = true
is_full_sync _ = false

abbrev pub consider : SyncEdge → TriggerSignal → Bool
consider both signal = true
consider rise signal = is_rise signal
consider fall signal = not (is_rise signal)

pub is_sequential_ready : {F : Type 0} → TriggerState F → Bool
is_sequential_ready s =
    is_full_sync s.sync && elim s.cycle_position [ none ↦ false | some _ ↦ true ]

module _ {F : Type 0} (f : F32 F) where
  -- `low..=high` of a `match` on a float.
  abbrev pub within : F → F → F → Bool
  within low high x = f.le low x && f.le x high

  pub from_phase_and_angle : Bool → F → CyclePosition
  from_phase_and_angle cam_phase tooth_deg =
      let absolute_deg = if cam_phase then f.add tooth_deg (f.decimal 3600 1) else tooth_deg in
      if within (f.decimal 0 1) (f.decimal 1800 1) absolute_deg
      then intake
      else if within (f.decimal 1800 1) (f.decimal 3600 1) absolute_deg
      then compression
      else if within (f.decimal 3600 1) (f.decimal 5400 1) absolute_deg
      then power
      else exhaust

pub record Cycle : Type 0 where
  pub sync : SyncState
  pub sync_counter : ℕ
  pub tooth_count : ℕ

abbrev pub new_cycle : Cycle
new_cycle = record { sync = unsynced; sync_counter = 0; tooth_count = 0 }

-- The synchronisation point is reached: the revolution must have had `expected` teeth.
pub at_sync_point : ℕ → Cycle → Cycle × Option TriggerError
at_sync_point expected c =
    if not (is_unsynced c.sync) && not (c.tooth_count == expected)
    then (
      record c { sync = unsynced; tooth_count = 0 },
      some (if ltb c.tooth_count expected then too_few_teeth else too_many_teeth),
    )
    else (
      record {
        sync = crank_synced;
        sync_counter = if is_unsynced c.sync then 0 else u32_saturating_add c.sync_counter 1;
        tooth_count = 0;
      },
      none,
    )

-- Another tooth of the revolution.
pub at_tooth : ℕ → Cycle → Cycle × Option TriggerError
at_tooth expected c =
    if not (is_unsynced c.sync) && leb expected c.tooth_count
    then (record c { sync = unsynced; tooth_count = 0 }, some too_many_teeth)
    else (record c { tooth_count = u32_wrapping_add c.tooth_count 1 }, none)

abbrev pub count_tooth : Bool → ℕ → Cycle → Cycle × Option TriggerError
count_tooth is_sync_point expected c =
    if is_sync_point then at_sync_point expected c else at_tooth expected c
