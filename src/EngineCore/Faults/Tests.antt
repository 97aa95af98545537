-- ===== src/EngineCore/Faults/Tests.antt =====
-- The fault store's theorems at concrete inputs.
use rust_ems.Base.{ℕ, ◌+◌, ◌≡◌, refl, [], ◌∷◌, ◌++◌, length, replicate, true, false, arith}
use rust_ems.Heapless.{list_vec, list_retain, list_deque}
use rust_ems.EngineCore.Faults.{
  FaultStore, warn, critical, knock, EventRecord, new_store, new_record, raise, resolve, clear_mask,
  find_update,
}
use rust_ems.EngineCore.Faults.Store.{IsSound}
use rust_ems.EngineCore.Faults.Report.{resolve-raise}
use rust_ems.EngineCore.Faults.Clear.{
  actives, created, raised, masked, Reachable-IsSound, clear_mask_lem,
}
use rust_ems.EngineCore.Faults.Events.{push_all, recent, push_all-recent}

abbrev two_faults : FaultStore
two_faults = new_record 3 warn 0 5 ∷ (new_record 16 critical 2 9 ∷ [])

abbrev one_cleared : FaultStore
one_cleared = new_record 3 warn 0 5 ∷ (record (new_record 16 critical 2 9) { active = false } ∷ [])

resolve-raise_example : (resolve (raise list_vec one_cleared 16 warn 7 20).0 16).1 ≡ true
unfolding raise find_update
resolve-raise_example = resolve-raise list_vec one_cleared 16 warn 7 20 refl

Reachable-IsSound_example :
    IsSound (raise list_vec (clear_mask list_retain new_store 1).0 3 warn 0 5).0
Reachable-IsSound_example =
    Reachable-IsSound list_vec list_retain (raised 3 warn 0 5 (masked 1 created))

clear_mask_lem_example :
    (actives (clear_mask list_retain one_cleared 3).0 ≡ actives one_cleared)
    × ((clear_mask list_retain one_cleared 3).1 + length (clear_mask list_retain one_cleared 3).0
        ≡ 2)
clear_mask_lem_example = clear_mask_lem list_retain one_cleared 3

abbrev event : EventRecord ℕ
event = record { kind = knock; ts_ms = 1; a = 2; b = 3 }

push_all-recent_example :
    push_all list_deque (event ∷ []) (replicate 9 event)
    ≡ recent ((event ∷ []) ++ replicate 9 event)
push_all-recent_example = push_all-recent list_deque (event ∷ []) (replicate 9 event) (omega arith)
