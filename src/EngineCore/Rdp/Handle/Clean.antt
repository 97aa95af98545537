-- ===== src/EngineCore/Rdp/Handle/Clean.antt =====
-- The mark for unsaved changes and the checksum of the flash, over the life of a device.
use rust_ems.Base.{ℕ, ◌≡◌, refl, ◌∙◌, List, Bool, true, ◌⊎◌, inl, inr, if◌then◌else◌}
use rust_ems.EngineCore.Config.{EngineConfig}
use rust_ems.EngineCore.Rdp.{Externals, Device, DeviceIdentity, RdpServer, RdpContext, crc, new}
use rust_ems.EngineCore.Rdp.Report.{Report, Report-IsAside}
use rust_ems.EngineCore.Rdp.Settings.Keep.{IsEdit, kept, noted}
use rust_ems.EngineCore.Rdp.Actuate.Keep.{IsAside, aside}
use rust_ems.EngineCore.Rdp.Handle.{Handled, handle}
use rust_ems.EngineCore.Rdp.Handle.Outcome.{
  IsOutcome, edits, sides, saves, reloads, handle-IsOutcome,
}

module _ {F : Type 0} (x : Externals F) where
  -- Against what is in the flash: its checksum is known, and without the mark the configuration in memory is
  -- the same.
  pub data IsClean (flash : EngineConfig F) (d : Device F) : Type 0 where
    clean :
        d.server.flash_crc ≡ crc x flash
        → (d.server.dirty ≡ true) ⊎ (d.ram ≡ flash)
        → IsClean flash d

  -- The flash after the caller has done what a request asks for.
  abbrev pub persisted : RdpContext F → Handled F → EngineConfig F
  persisted ctx h = if h.actions.save then h.device.ram else ctx.flash

  IsEdit-IsClean :
      {flash : EngineConfig F} {d d' : Device F} → IsEdit d d' → IsClean flash d → IsClean flash d'
  IsEdit-IsClean (kept a b e _) (clean s (inl m)) = clean (e ∙ s) (inl (b ∙ m))
  IsEdit-IsClean (kept a b e _) (clean s (inr same)) = clean (e ∙ s) (inr (a ∙ same))
  IsEdit-IsClean (noted m e _) (clean s either) = clean (e ∙ s) (inl m)

  IsAside-IsClean :
      {running : Bool} {flash : EngineConfig F} {d d' : Device F}
      → d'.ram ≡ d.ram
      → IsAside running d.server d'.server
      → IsClean flash d
      → IsClean flash d'
  IsAside-IsClean r (aside b e _) (clean c (inl m)) = clean (e ∙ c) (inl (b ∙ m))
  IsAside-IsClean r (aside b e _) (clean c (inr same)) = clean (e ∙ c) (inr (r ∙ same))

  IsOutcome-IsClean :
      (ctx : RdpContext F) {d : Device F} (h : Handled F)
      → IsOutcome x ctx.engine_running ctx.flash d h
      → IsClean ctx.flash d
      → IsClean (persisted ctx h) h.device
  IsOutcome-IsClean ctx h (edits s e) c = rw s (IsEdit-IsClean e c)
  IsOutcome-IsClean ctx h (sides s r a) c = rw s (IsAside-IsClean r a c)
  IsOutcome-IsClean ctx h (saves s sum _) c = rw s (clean sum (inr refl))
  IsOutcome-IsClean ctx h (reloads s r e _) (clean sum _) = rw s (clean (e ∙ sum) (inr r))

  pub handle-IsClean :
      (ctx : RdpContext F) (req : List ℕ) (d : Device F) (out : List ℕ)
      → IsClean ctx.flash d
      → IsClean (persisted ctx (handle x req ctx d out)) (handle x req ctx d out).device
  handle-IsClean ctx req d out c =
      IsOutcome-IsClean ctx (handle x req ctx d out) (handle-IsOutcome x ctx req d out) c

  -- A device with what is in its flash, since it was started: requests, the caller of `handle` saving the
  -- configuration when asked to, and every other call of the server.
  pub data Reachable : EngineConfig F → Device F → Type 0 where
    booted :
        (identity : DeviceIdentity) (flash : EngineConfig F)
        → Reachable flash (record { server = new x identity flash; ram = flash })
    handled :
        (ctx : RdpContext F) (req : List ℕ) {d : Device F} (out : List ℕ)
        → Reachable ctx.flash d
        → Reachable (persisted ctx (handle x req ctx d out)) (handle x req ctx d out).device
    reported :
        {flash : EngineConfig F} {d : Device F} {s : RdpServer F}
        → Report x d.server s
        → Reachable flash d
        → Reachable flash (record d { server = s })

  -- From its start on, whatever requests arrive, with the caller of `handle` saving the configuration when
  -- asked to, and whatever other calls of the server are made, or changes to its public fields: a device
  -- that does not mark its configuration as changed has in memory exactly what is in the flash, and the
  -- checksum that it reports for the flash is that of the configuration there.
  pub Reachable-IsClean :
      {flash : EngineConfig F} {d : Device F} → Reachable flash d → IsClean flash d
  Reachable-IsClean (booted identity flash) = clean refl (inr refl)
  Reachable-IsClean (handled ctx req {d = d} out r) =
      handle-IsClean ctx req d out (Reachable-IsClean r)
  Reachable-IsClean (reported report r) =
      IsAside-IsClean refl (Report-IsAside x report) (Reachable-IsClean r)
