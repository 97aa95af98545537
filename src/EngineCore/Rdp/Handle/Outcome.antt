-- ===== src/EngineCore/Rdp/Handle/Outcome.antt =====
-- What a request does with the server and the configuration, in the cases that the properties tell apart.
use rust_ems.Base.{
  ℕ, ◌≡◌, refl, List, Bool, Bool-cases, true, false, Option-cases, inl, inr, Result-cases, ◌==◌,
  if_holds,
}
use rust_ems.EngineCore.Config.{EngineConfig}
use rust_ems.DeviceApi.Message.{read_message_header}
use rust_ems.EngineCore.Rdp.{Externals, Device, RdpContext, crc}
use rust_ems.EngineCore.Rdp.Respond.{Reply}
use rust_ems.EngineCore.Rdp.Settings.Keep.{
  IsEdit, kept, noted, op_param_set-IsEdit, op_table_set_cell-IsEdit, op_table_set_axis-IsEdit,
}
use rust_ems.EngineCore.Rdp.Actuate.Keep.{
  IsAside, op_subscribe-IsAside, op_unsubscribe-IsAside, op_clear_faults-IsAside,
  op_set_override-IsAside, op_clear_override-IsAside, op_bench_test-IsAside, op_calibrate-IsAside,
}
use rust_ems.EngineCore.Rdp.Handle.{
  Handled, is_request, op_enter_bootloader, op_config_save, op_config_discard,
  op_config_reset_defaults, dispatch, handle,
}

module _ {F : Type 0} (x : Externals F) where
  -- The configuration is left or edited; or only the server changes, but for the marks of the
  -- configuration; or the configuration is to be saved; or it is loaded from the flash.
  pub data IsOutcome (running : Bool) (flash : EngineConfig F) (d : Device F) (h : Handled F)
      : Type 0 where
    edits : h.actions.save ≡ false → IsEdit d h.device → IsOutcome running flash d h
    sides :
        h.actions.save ≡ false
        → h.device.ram ≡ d.ram
        → IsAside running d.server h.device.server
        → IsOutcome running flash d h
    saves :
        h.actions.save ≡ true
        → h.device.server.flash_crc ≡ crc x h.device.ram
        → h.device.server.pending_bench ≡ d.server.pending_bench
        → IsOutcome running flash d h
    reloads :
        h.actions.save ≡ false
        → h.device.ram ≡ flash
        → h.device.server.flash_crc ≡ d.server.flash_crc
        → h.device.server.pending_bench ≡ d.server.pending_bench
        → IsOutcome running flash d h

  same :
      (d : Device F) {running : Bool} {flash : EngineConfig F} {reply : Reply}
      {reboot enter_bootloader : Bool}
      → IsOutcome running flash d (record {
        device = d;
        reply = reply;
        actions = record { save = false; reboot = reboot; enter_bootloader = enter_bootloader };
      })
  same d = edits refl (kept refl refl refl refl)

module _ {F : Type 0} (x : Externals F) (ctx : RdpContext F) where
  abbrev IsServed : Device F → Handled F → Type 0
  IsServed d h = IsOutcome x ctx.engine_running ctx.flash d h

  op_enter_bootloader-IsOutcome :
      (op : ℕ) (body : List ℕ) (d : Device F) (out : List ℕ)
      → IsServed d (op_enter_bootloader x op body d out)
  unfolding op_enter_bootloader
  op_enter_bootloader-IsOutcome op body d out =
      elim (Option-cases (x.cbor.decode_enter_bootloader body)) [
        | inl bad ↦ rw (bad, op_enter_bootloader) (same x d)
        | inr (r, good) ↦ elim (Bool-cases (r.confirm == 0xb007)) [
          | inl right ↦ rw (good, right, op_enter_bootloader) (same x d)
          | inr wrong ↦ rw (good, wrong, op_enter_bootloader) (same x d)
        ]
      ]

  op_config_save-IsOutcome :
      (op : ℕ) (d : Device F) (out : List ℕ) → IsServed d (op_config_save x op d out)
  unfolding op_config_save
  op_config_save-IsOutcome op d out = saves refl refl refl

  op_config_discard-IsOutcome :
      (op : ℕ) (d : Device F) (out : List ℕ) → IsServed d (op_config_discard x op ctx d out)
  unfolding op_config_discard
  op_config_discard-IsOutcome op d out = reloads refl refl refl refl

  op_config_reset_defaults-IsOutcome :
      (op : ℕ) (body : List ℕ) (d : Device F) (out : List ℕ)
      → IsServed d (op_config_reset_defaults x op body ctx d out)
  unfolding op_config_reset_defaults
  op_config_reset_defaults-IsOutcome op body d out =
      elim (Option-cases (x.cbor.decode_config_reset_defaults body)) [
        | inl bad ↦ rw (bad, op_config_reset_defaults) (same x d)
        | inr (r, good) ↦ elim (Bool-cases (r.confirm == 0xdefa)) [
          | inr wrong ↦ rw (good, wrong, op_config_reset_defaults) (same x d)
          | inl right ↦ elim (Bool-cases ctx.engine_running) [
            | inl on ↦ rw (good, right, on, op_config_reset_defaults) (same x d)
            | inr off ↦
                rw (good, right, off, op_config_reset_defaults) (edits refl (noted refl refl refl))
          ]
        ]
      ]

  dispatch-IsOutcome :
      (op : ℕ) (body : List ℕ) (d : Device F) (out : List ℕ)
      → IsServed d (dispatch x op body ctx d out)
  unfolding dispatch
  dispatch-IsOutcome op body d out = if_holds (IsServed d) (op == 0x0101) (same x d) (
      if_holds (IsServed d) (op == 0x0102) (same x d) (
        if_holds (IsServed d) (op == 0x0103) (same x d) (
          if_holds (IsServed d) (op == 0x0104) (op_enter_bootloader-IsOutcome op body d out) (
            if_holds (IsServed d) (op == 0x0201) (same x d) (
              if_holds (IsServed d) (op == 0x0202) (same x d) (
                if_holds (IsServed d) (op == 0x0203) (same x d) (
                  if_holds (IsServed d) (op == 0x0204) (same x d) (
                    if_holds (IsServed d) (op == 0x0301) (same x d) (
                      if_holds (IsServed d) (op == 0x0302)
                        (edits refl (op_param_set-IsEdit x op body ctx.engine_running d out))
                        (if_holds (IsServed d) (op == 0x0303) (same x d) (
                          if_holds (IsServed d) (op == 0x0304)
                            (edits refl (op_table_set_cell-IsEdit x op body d out))
                            (if_holds (IsServed d) (op == 0x0305)
                              (edits refl (op_table_set_axis-IsEdit x op body d out))
                              (if_holds (IsServed d) (op == 0x0306)
                                (op_config_save-IsOutcome op d out)
                                (if_holds (IsServed d) (op == 0x0307)
                                  (op_config_discard-IsOutcome op d out)
                                  (if_holds (IsServed d) (op == 0x0308)
                                    (op_config_reset_defaults-IsOutcome op body d out)
                                    (if_holds (IsServed d) (op == 0x0309) (same x d) (
                                      if_holds (IsServed d) (op == 0x0401)
                                        (sides refl refl
                                          (op_subscribe-IsAside x op body ctx.now_ms d.server out))
                                        (if_holds (IsServed d) (op == 0x0402)
                                          (sides refl refl
                                            (op_unsubscribe-IsAside x op body d.server out))
                                          (if_holds (IsServed d) (op == 0x0403) (same x d) (
                                            if_holds (IsServed d) (op == 0x0501)
                                              (sides refl refl (
                                                op_bench_test-IsAside x op body ctx.engine_running
                                                  d.server out))
                                              (if_holds (IsServed d) (op == 0x0502)
                                                (sides refl refl (
                                                  op_set_override-IsAside x op body ctx.now_ms
                                                    d.server out))
                                                (if_holds (IsServed d) (op == 0x0503)
                                                  (sides refl refl (
                                                    op_clear_override-IsAside x op body d.server
                                                      out))
                                                  (if_holds (IsServed d) (op == 0x0504)
                                                    (sides refl refl (
                                                      op_calibrate-IsAside x op body ctx d.server
                                                        out))
                                                    (if_holds (IsServed d) (op == 0x0601) (same x d)
                                                      (if_holds (IsServed d) (op == 0x0602)
                                                        (sides refl refl (
                                                          op_clear_faults-IsAside x op body d.server
                                                            out))
                                                        (same x d))))))))))))))))))))))))))

  pub handle-IsOutcome :
      (req : List ℕ) (d : Device F) (out : List ℕ) → IsServed d (handle x req ctx d out)
  unfolding handle
  handle-IsOutcome req d out = elim (Result-cases (read_message_header req)) [
    | inr (e, bad) ↦ rw (bad, handle) (same x d)
    | inl ((header, body), good) ↦
        rw (good, handle)
          (if_holds (IsServed d) (is_request header.kind) (dispatch-IsOutcome header.op body d out)
            (same x d))
  ]
