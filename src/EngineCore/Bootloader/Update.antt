-- ===== src/EngineCore/Bootloader/Update.antt =====
-- The states that the bootloader can be in, and the size of an image.
use rust_ems.Base.{
  ℕ, ◌+◌, ◌-◌, ◌%◌, ◌≤◌, ◌≡◌, ◌≢◌, inl, inr, refl, ap, List, length, Bool, Bool-cases, true, false,
  ◌||◌, ltb, ltb→le, ◌==◌, if◌then◌else◌, arith,
}
use rust_ems.EngineCore.Bootloader.{
  BootloaderState, normal, bootloader, receiving, programming, verifying, rollback_available,
  boot_failed, BootloaderCommand, enter_bootloader, start_update, cancel_update, verify, rollback,
  boot_application, BootloaderConfig, Bootloader, with_config, process_command, tick, update,
  receive_firmware, increment_boot_attempts, is_programming, is_receiving, is_bootloader,
}

-- The bootloaders that calls can lead to under one configuration.
pub data Reachable (cfg : BootloaderConfig) : Bootloader → Type 0 where
  started : Reachable cfg (with_config cfg)
  commanded :
      {b : Bootloader} (cmd : BootloaderCommand)
      → Reachable cfg b
      → Reachable cfg (process_command b cmd)
  updated : {b : Bootloader} (dt_ms : ℕ) → Reachable cfg b → Reachable cfg (update b dt_ms).0
  received :
      {b : Bootloader} (data_ : List ℕ)
      → Reachable cfg b
      → Reachable cfg (receive_firmware b data_).0
  failed : {b : Bootloader} → Reachable cfg b → Reachable cfg (increment_boot_attempts b)

-- The four states that the code enters.
abbrev pub IsEntered : BootloaderState → Type 0
IsEntered s = (s ≢ programming) × (s ≢ verifying) × (s ≢ boot_failed)

-- What holds of them.
pub record IsSafe (cfg : BootloaderConfig) (b : Bootloader) : Type 0 where
  pub same_config : b.cfg ≡ cfg
  pub fits : b.firmware_size ≤ cfg.max_firmware_size
  pub entered : IsEntered b.state

programming_true : (s : BootloaderState) → is_programming s ≡ true → s ≡ programming
programming_true s e = ground arith

module _ (cfg : BootloaderConfig) where
  if-IsSafe :
      (c : Bool) (x y : Bootloader) → IsSafe cfg x → IsSafe cfg y → IsSafe cfg (if c then x else y)
  if-IsSafe true x y p q = p
  if-IsSafe false x y p q = q

  -- A new state among the four, and a size of zero.
  moved :
      (b : Bootloader) (s : BootloaderState) (timer attempts : ℕ)
      → IsEntered s
      → IsSafe cfg b
      → IsSafe cfg (record b { state = s; boot_timer_ms = timer; boot_attempts = attempts })
  moved b s timer attempts e safe = record {
    same_config = safe.same_config;
    fits = safe.fits;
    entered = e;
  }

  emptied :
      (b : Bootloader) (s : BootloaderState)
      → IsEntered s
      → IsSafe cfg b
      → IsSafe cfg (record b { state = s; firmware_size = 0 })
  emptied b s e safe = record { same_config = safe.same_config; fits = omega arith; entered = e }

  process_command-IsSafe :
      (b : Bootloader) (cmd : BootloaderCommand) → IsSafe cfg b → IsSafe cfg (process_command b cmd)
  unfolding process_command
  process_command-IsSafe b enter_bootloader safe =
      moved b bootloader b.cfg.boot_timeout_ms b.boot_attempts (cc, cc, cc) safe
  process_command-IsSafe b start_update safe =
      if-IsSafe (is_bootloader b.state) _ b (emptied b receiving (cc, cc, cc) safe) safe
  process_command-IsSafe b cancel_update safe =
      if-IsSafe (is_receiving b.state || is_programming b.state) _ b
        (emptied b bootloader (cc, cc, cc) safe) safe
  process_command-IsSafe b verify safe = elim (Bool-cases (is_programming b.state)) [
    | inl e ↦ absurd (safe.entered.0 (programming_true b.state e))
    | inr e ↦ rw (process_command, e) safe
  ]
  process_command-IsSafe b rollback safe =
      if-IsSafe b.cfg.enable_rollback _ b
        (moved b rollback_available b.boot_timer_ms b.boot_attempts (cc, cc, cc) safe) safe
  process_command-IsSafe b boot_application safe =
      moved b normal b.boot_timer_ms 0 (cc, cc, cc) safe

  update-IsSafe : (b : Bootloader) (dt_ms : ℕ) → IsSafe cfg b → IsSafe cfg (update b dt_ms).0
  unfolding update tick
  update-IsSafe b dt_ms safe =
      if-IsSafe (is_bootloader b.state) _ b
        (if-IsSafe (b.boot_timer_ms - dt_ms == 0) _ _
          (moved b normal (b.boot_timer_ms - dt_ms) b.boot_attempts (cc, cc, cc) safe)
          (moved b b.state (b.boot_timer_ms - dt_ms) b.boot_attempts safe.entered safe))
        safe

  receive_firmware-IsSafe :
      (b : Bootloader) (data_ : List ℕ) → IsSafe cfg b → IsSafe cfg (receive_firmware b data_).0
  unfolding receive_firmware
  receive_firmware-IsSafe b data_ safe = elim (Bool-cases (is_receiving b.state)) [
    | inr e ↦ rw (e, receive_firmware) safe
    | inl e ↦ elim (Bool-cases (ltb b.cfg.max_firmware_size (b.firmware_size + length data_))) [
      | inl l ↦ rw (e, receive_firmware, l) safe
      | inr g ↦
          let small = ltb→le b.cfg.max_firmware_size (b.firmware_size + length data_) g in
          let same = ap (λ (c : BootloaderConfig). c.max_firmware_size) safe.same_config in
          rw (e, receive_firmware, g)
            (record {
              same_config = safe.same_config;
              fits = omega (arith, same);
              entered = safe.entered;
            })
    ]
  ]

  -- Under one configuration, whatever calls are made, the size received stays within the maximum; and
  -- the state is never `Programming`, `Verifying` or `BootFailed`.
  pub Reachable-IsSafe : {b : Bootloader} → Reachable cfg b → IsSafe cfg b
  unfolding increment_boot_attempts
  Reachable-IsSafe started = record {
    same_config = refl;
    fits = omega arith;
    entered = (cc, cc, cc);
  }
  Reachable-IsSafe (commanded {b} cmd r) = process_command-IsSafe b cmd (Reachable-IsSafe r)
  Reachable-IsSafe (updated {b} dt_ms r) = update-IsSafe b dt_ms (Reachable-IsSafe r)
  Reachable-IsSafe (received {b} data_ r) = receive_firmware-IsSafe b data_ (Reachable-IsSafe r)
  Reachable-IsSafe (failed {b} r) =
      moved b b.state b.boot_timer_ms ((b.boot_attempts + 1) % 4294967296)
        (Reachable-IsSafe r).entered (Reachable-IsSafe r)
