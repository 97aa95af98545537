-- ===== src/EngineCore/Bootloader.antt =====
-- engine-core/src/bootloader.rs: the state machine of a firmware update. Times and sizes are u32, and
-- `usize` is wide enough for the sum of two sizes.
pub mod Update
pub mod Timer
mod Tests
use rust_ems.Base.{
  ℕ, zero, suc, ◌+◌, ◌-◌, ◌%◌, List, [], ◌∷◌, length, Bool, true, false, not, ◌||◌, ◌&&◌, Option,
  none, some, ltb, ◌==◌, if◌then◌else◌,
}

pub data BootloaderState : Type 0 where
  normal bootloader receiving programming verifying rollback_available boot_failed : BootloaderState

pub data BootloaderCommand : Type 0 where
  enter_bootloader start_update cancel_update verify rollback boot_application : BootloaderCommand

pub record BootloaderConfig : Type 0 where
  pub boot_timeout_ms : ℕ
  pub max_firmware_size : ℕ
  pub enable_rollback : Bool
  pub crc_polynomial : ℕ

abbrev pub default_config : BootloaderConfig
default_config = record {
  boot_timeout_ms = 5000;
  max_firmware_size = 524288;
  enable_rollback = true;
  crc_polynomial = 0x04c11db7;
}

pub record BootloaderStatus : Type 0 where
  pub state : BootloaderState
  pub firmware_size : ℕ
  pub firmware_crc : Option ℕ
  pub boot_attempts : ℕ

pub record Bootloader : Type 0 where
  pub cfg : BootloaderConfig
  pub state : BootloaderState
  pub boot_timer_ms : ℕ
  pub firmware_size : ℕ
  pub boot_attempts : ℕ

abbrev pub with_config : BootloaderConfig → Bootloader
with_config cfg = record {
  cfg = cfg;
  state = bootloader;
  boot_timer_ms = cfg.boot_timeout_ms;
  firmware_size = 0;
  boot_attempts = 0;
}

abbrev pub new : Bootloader
new = with_config default_config

-- The comparisons of states.
abbrev pub is_bootloader : BootloaderState → Bool
is_bootloader bootloader = true
is_bootloader _ = false

abbrev pub is_receiving : BootloaderState → Bool
is_receiving receiving = true
is_receiving _ = false

abbrev pub is_programming : BootloaderState → Bool
is_programming programming = true
is_programming _ = false

abbrev pub is_normal : BootloaderState → Bool
is_normal normal = true
is_normal _ = false

pub process_command : Bootloader → BootloaderCommand → Bootloader
process_command b enter_bootloader = record b {
  state = bootloader;
  boot_timer_ms = b.cfg.boot_timeout_ms;
}
process_command b start_update =
    if is_bootloader b.state then record b { state = receiving; firmware_size = 0 } else b
process_command b cancel_update =
    if is_receiving b.state || is_programming b.state
    then record b { state = bootloader; firmware_size = 0 }
    else b
process_command b verify = if is_programming b.state then record b { state = verifying } else b
process_command b rollback =
    if b.cfg.enable_rollback then record b { state = rollback_available } else b
process_command b boot_application = record b { state = normal; boot_attempts = 0 }

-- The auto-boot timer; `saturating_sub` is the subtraction that stops at 0.
pub tick : Bootloader → ℕ → Bootloader
tick b dt_ms =
    if is_bootloader b.state
    then (let b' = record b { boot_timer_ms = b.boot_timer_ms - dt_ms } in
        if b'.boot_timer_ms == 0 then record b' { state = normal } else b')
    else b

pub update : Bootloader → ℕ → Bootloader × BootloaderStatus
unfolding tick
update b dt_ms =
    let b' = tick b dt_ms in
    (
      b',
      record {
        state = b'.state;
        firmware_size = b'.firmware_size;
        firmware_crc = none;
        boot_attempts = b'.boot_attempts;
      },
    )

pub receive_firmware : Bootloader → List ℕ → Bootloader × Bool
receive_firmware b data_ =
    if not (is_receiving b.state)
    then (b, false)
    else if ltb b.cfg.max_firmware_size (b.firmware_size + length data_)
    then (b, false)
    else (
      record b { firmware_size = (b.firmware_size + length data_ % 4294967296) % 4294967296 },
      true,
    )

abbrev pub is_bootloader_active : Bootloader → Bool
is_bootloader_active b = not (is_normal b.state)

abbrev pub is_rollback_available : Bootloader → Bool
is_rollback_available b = b.cfg.enable_rollback && ltb 0 b.boot_attempts

abbrev pub set_config : Bootloader → BootloaderConfig → Bootloader
set_config b cfg = record b { cfg = cfg }

-- A release build wraps around.
pub increment_boot_attempts : Bootloader → Bootloader
increment_boot_attempts b = record b { boot_attempts = (b.boot_attempts + 1) % 4294967296 }
