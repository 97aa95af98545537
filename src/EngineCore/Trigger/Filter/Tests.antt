-- ===== src/EngineCore/Trigger/Filter/Tests.antt =====
-- The theorems on the noise filter and the mode selector at concrete inputs.
use rust_ems.Base.{
  ℕ, ◌≡◌, refl, [], ◌∷◌, length, true, false, none, ◌&&◌, leb, if◌then◌else◌, arith,
}
use rust_ems.EngineCore.Trigger.{TriggerState, SyncState, unsynced, full_sync}
use rust_ems.EngineCore.Trigger.Filter.{default_vr_filter, new_selector}
use rust_ems.EngineCore.Trigger.Filter.Debounce.{samples, samples_debounced}
use rust_ems.EngineCore.Trigger.Filter.Mode.{earned, updates, updates-earned}

samples_debounced_example :
    (samples default_vr_filter true (90 ∷ (100 ∷ (110 ∷ [])))).filtered_state ≡ (
      if leb 1 (length {A = ℕ} (100 ∷ (110 ∷ []))) && leb 2 (length {A = ℕ} (100 ∷ (110 ∷ [])))
      then true
      else false)
samples_debounced_example =
    samples_debounced default_vr_filter true 90 (100 ∷ (110 ∷ [])) refl refl (omega arith)
      (omega arith, (omega arith, _))

abbrev state : SyncState → TriggerState ℕ
state sync = record {
  tooth_index = 0;
  sync = sync;
  rpm = none;
  angle_deg = 0;
  cam_phase = false;
  cycle_position = none;
  current_cylinder = none;
}

updates-earned_example :
    (updates (new_selector 4) (state unsynced ∷ (state full_sync ∷ (state full_sync ∷ [])))).mode
    ≡ earned 4 (length (state full_sync ∷ (state full_sync ∷ [])))
updates-earned_example =
    updates-earned (new_selector 4) (state unsynced) (state full_sync ∷ (state full_sync ∷ [])) refl
      (refl, (refl, _)) (omega arith)
