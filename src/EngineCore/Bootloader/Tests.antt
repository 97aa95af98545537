-- ===== src/EngineCore/Bootloader/Tests.antt =====
-- The bootloader's theorems at concrete inputs.
use rust_ems.Base.{sum, ◌≡◌, refl, [], ◌∷◌, leb, if◌then◌else◌}
use rust_ems.EngineCore.Bootloader.{
  normal, bootloader, start_update, new, default_config, process_command, receive_firmware,
}
use rust_ems.EngineCore.Bootloader.Update.{IsSafe, Reachable-IsSafe, started, commanded, received}
use rust_ems.EngineCore.Bootloader.Timer.{run, run-boots}

Reachable-IsSafe_example :
    IsSafe default_config (receive_firmware (process_command new start_update) (1 ∷ (2 ∷ []))).0
Reachable-IsSafe_example =
    Reachable-IsSafe default_config (received (1 ∷ (2 ∷ [])) (commanded start_update started))

run-boots_example :
    (run new (2000 ∷ (3000 ∷ []))).state
    ≡ (if leb 5000 (sum (2000 ∷ (3000 ∷ []))) then normal else bootloader)
run-boots_example = run-boots new 2000 (3000 ∷ []) refl
