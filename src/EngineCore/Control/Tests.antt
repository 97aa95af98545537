-- ===== src/EngineCore/Control/Tests.antt =====
-- The overrides' theorems at concrete inputs.
use rust_ems.Base.{ℕ, ◌+◌, ◌%◌, ◌≡◌, refl, none, some, ltb, if◌then◌else◌, arith}
use rust_ems.EngineCore.Control.{fuel_cut, clamp, set_override, get_override, new_overrides}
use rust_ems.EngineCore.Control.Expiry.{get_override-set_override}

-- The value of an override.
abbrev percent : ℕ
percent = 1

-- Set 100 ms before the clock wraps around, read 50 ms after that.
get_override-set_override_example :
    (get_override
      (set_override new_overrides fuel_cut percent 200 4294967196)
      fuel_cut
      ((4294967196 + 150) % 4294967296)).1
    ≡ (if ltb 150 (clamp 200 1 30000) then some percent else none)
unfolding new_overrides
get_override-set_override_example =
    get_override-set_override new_overrides fuel_cut percent 200 4294967196 150 refl (omega arith)
      (omega arith)
