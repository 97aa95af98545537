-- ===== src/EngineCore/Trigger/MissingTooth/Tests.antt =====
-- The theorems on the missing-tooth decoder at concrete inputs, over numbers with three decimals.
use rust_ems.Base.{is_ok, arith, ℕ, ◌≡◌, refl, true, false, ◌==◌, if◌then◌else◌}
use rust_ems.F32.{fixed_point}
use rust_ems.EngineCore.Trigger.{both, crank_rise, cam_rise, unsynced, crank_synced, at_tooth}
use rust_ems.EngineCore.Trigger.MissingTooth.{
  MissingToothConfig, MissingToothDecoder, new_missing_tooth, new, trigger_4_1, is_gap,
  estimate_rpm, process_tooth, process,
}
use rust_ems.EngineCore.Trigger.MissingTooth.Process.{IsEdge, start, tooth, process_revolution}
use rust_ems.EngineCore.Trigger.MissingTooth.Reach.{IsInStep, made, processed, Reachable-IsInStep}

-- A decoder for four teeth less one that a gap has just synchronised.
abbrev synced : MissingToothDecoder ℕ
synced = record (new (trigger_4_1 fixed_point)) {
  prev_timestamp_us = 4000;
  duration = 2000;
  duration_before = 1000;
  first_event = false;
  cycle = record { sync = crank_synced; sync_counter = 0; tooth_count = 0 };
}

abbrev after : MissingToothDecoder ℕ → ℕ → MissingToothDecoder ℕ
after d now_us = (process fixed_point d crank_rise now_us).0

IsEdge-5000 : IsEdge fixed_point false synced crank_rise 5000
unfolding is_gap
IsEdge-5000 = record { in_time = refl; crank = refl; counts = refl; has_gap = refl }

IsEdge-6000 : IsEdge fixed_point false (after synced 5000) crank_rise 6000
unfolding is_gap process process_tooth estimate_rpm at_tooth
IsEdge-6000 = record { in_time = refl; crank = refl; counts = refl; has_gap = refl }

IsEdge-7000 : IsEdge fixed_point false (after (after synced 5000) 6000) crank_rise 7000
unfolding is_gap process process_tooth estimate_rpm at_tooth
IsEdge-7000 = record { in_time = refl; crank = refl; counts = refl; has_gap = refl }

IsEdge-9000 : IsEdge fixed_point true (after (after (after synced 5000) 6000) 7000) crank_rise 9000
unfolding is_gap process process_tooth estimate_rpm at_tooth
IsEdge-9000 = record { in_time = refl; crank = refl; counts = refl; has_gap = refl }

process_revolution_example :
    ((after (after (after (after synced 5000) 6000) 7000) 9000).cycle.sync
      ≡ (if 3 == 3 then crank_synced else unsynced))
    × (is_ok (process fixed_point (after (after (after synced 5000) 6000) 7000) crank_rise 9000).1
        ≡ (3 == 3))
process_revolution_example =
    process_revolution fixed_point synced crank_rise 9000 refl refl (omega arith)
      (tooth crank_rise 7000
        (tooth crank_rise 6000 (tooth crank_rise 5000 start IsEdge-5000) IsEdge-6000) IsEdge-7000)
      IsEdge-9000

abbrev both_edges : MissingToothConfig ℕ
both_edges = new_missing_tooth 4 1 720000 both

Reachable-IsInStep_example :
    IsInStep fixed_point both_edges
      (process fixed_point (process fixed_point (new both_edges) crank_rise 1000).0 cam_rise 2000).0
Reachable-IsInStep_example =
    Reachable-IsInStep fixed_point both_edges refl
      (processed cam_rise 2000 (processed crank_rise 1000 made))
