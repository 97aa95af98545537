-- ===== src/EngineCore/Rdp/Handle.antt =====
-- engine-core/src/comms/rdp.rs: RdpServer::handle, which reads a request's header and calls its operation.

pub mod Outcome
pub mod Gate
pub mod Clean
mod Tests
use rust_ems.Base.{
  ℕ, List, Bool, true, false, Option, none, some, Result, ok, err, ◌==◌, if◌then◌else◌,
}
use rust_ems.EngineCore.Config.{EngineConfig}
use rust_ems.DeviceApi.Message.{
  Kind, request, response, event, telemetry, ok_code, unknown_op, bad_request, busy,
  read_message_header,
}
use rust_ems.DeviceApi.Cbor.{config_save_response, config_status_response}
use rust_ems.EngineCore.Rdp.{Externals, Device, RdpServer, RdpContext, RdpActions, no_actions, crc}
use rust_ems.EngineCore.Rdp.Respond.{Reply, respond_status, respond_body}
use rust_ems.EngineCore.Rdp.Describe.{
  op_hello, op_ping, op_schema_info, op_param_catalog, op_table_catalog, op_telemetry_catalog,
}
use rust_ems.EngineCore.Rdp.Settings.{
  op_param_get, op_param_set, op_table_get, op_table_set_cell, op_table_set_axis,
}
use rust_ems.EngineCore.Rdp.Actuate.{
  Served, op_subscribe, op_unsubscribe, op_read_once, op_bench_test, op_set_override,
  op_clear_override, op_calibrate, op_get_faults, op_clear_faults,
}

pub record Handled (F : Type 0) : Type 0 where
  pub device : Device F
  pub reply : Reply
  pub actions : RdpActions

abbrev pub is_request : Kind → Bool
is_request request = true
is_request response = false
is_request event = false
is_request telemetry = false

module _ {F : Type 0} where
  -- What changes neither the server nor the configuration, and what changes one or both.
  abbrev pub answer : Device F → Reply → Handled F
  answer d reply = record { device = d; reply = reply; actions = no_actions }

  abbrev pub changed : Device F × Reply → Handled F
  changed (d, reply) = answer d reply

  abbrev pub served : Device F → RdpServer F × Reply → Handled F
  served d (s, reply) = answer (record d { server = s }) reply

module _ {F : Type 0} (x : Externals F) where
  unfoldable pub op_enter_bootloader : ℕ → List ℕ → Device F → List ℕ → Handled F
  op_enter_bootloader opcode body d out =
      let refused = answer d (respond_status x.cbor opcode bad_request 0 out) in
      elim (x.cbor.decode_enter_bootloader body) [
        | none ↦ refused
        | some r ↦
            if r.confirm == 0xb007
            then record {
              device = d;
              reply = respond_status x.cbor opcode ok_code 0 out;
              actions = record no_actions { enter_bootloader = true };
            }
            else refused
      ]

  unfoldable pub op_config_save : ℕ → Device F → List ℕ → Handled F
  op_config_save opcode d out =
      let sum = crc x d.ram in
      record {
        device = record d { server = record d.server { dirty = false; flash_crc = sum } };
        reply =
            respond_body x.cbor opcode
              (config_save_response (record { saved_bytes = x.config_bytes; crc = sum })) out;
        actions = record no_actions { save = true };
      }

  unfoldable pub op_config_discard : ℕ → RdpContext F → Device F → List ℕ → Handled F
  op_config_discard opcode ctx d out =
      answer (record { server = record d.server { dirty = false }; ram = ctx.flash })
        (respond_status x.cbor opcode ok_code 0 out)

  unfoldable pub op_config_reset_defaults :
      ℕ → List ℕ → RdpContext F → Device F → List ℕ → Handled F
  op_config_reset_defaults opcode body ctx d out =
      let refused = answer d (respond_status x.cbor opcode bad_request 0 out) in
      elim (x.cbor.decode_config_reset_defaults body) [
        | none ↦ refused
        | some r ↦
            if r.confirm == 0xdefa
            then if ctx.engine_running
              then answer d (respond_status x.cbor opcode busy 0 out)
              else answer (record { server = record d.server { dirty = true }; ram = ctx.defaults })
                  (respond_status x.cbor opcode ok_code 0 out)
            else refused
      ]

  pub op_config_status : ℕ → Device F → List ℕ → Reply
  op_config_status opcode d out =
      respond_body x.cbor opcode
        (config_status_response (record {
          dirty = d.server.dirty;
          ram_crc = crc x d.ram;
          flash_crc = d.server.flash_crc;
        }))
        out

  pub dispatch : ℕ → List ℕ → RdpContext F → Device F → List ℕ → Handled F
  dispatch op body ctx d out =
      if op == 0x0101
      then answer d (op_hello x d.server.identity op out)
      else if op == 0x0102
      then answer d (op_ping x op body ctx.now_ms out)
      else if op == 0x0103
      then record {
        device = d;
        reply = respond_status x.cbor op ok_code 0 out;
        actions = record no_actions { reboot = true };
      }
      else if op == 0x0104
      then op_enter_bootloader op body d out
      else if op == 0x0201
      then answer d (op_schema_info x op out)
      else if op == 0x0202
      then answer d (op_param_catalog x op body out)
      else if op == 0x0203
      then answer d (op_table_catalog x op body out)
      else if op == 0x0204
      then answer d (op_telemetry_catalog x op body out)
      else if op == 0x0301
      then answer d (op_param_get x op body d.ram out)
      else if op == 0x0302
      then changed (op_param_set x op body ctx.engine_running d out)
      else if op == 0x0303
      then answer d (op_table_get x op body d.ram out)
      else if op == 0x0304
      then changed (op_table_set_cell x op body d out)
      else if op == 0x0305
      then changed (op_table_set_axis x op body d out)
      else if op == 0x0306
      then op_config_save op d out
      else if op == 0x0307
      then op_config_discard op ctx d out
      else if op == 0x0308
      then op_config_reset_defaults op body ctx d out
      else if op == 0x0309
      then answer d (op_config_status op d out)
      else if op == 0x0401
      then served d (op_subscribe x op body ctx.now_ms d.server out)
      else if op == 0x0402
      then served d (op_unsubscribe x op body d.server out)
      else if op == 0x0403
      then answer d (op_read_once x op body ctx.outputs out)
      else if op == 0x0501
      then served d (op_bench_test x op body ctx.engine_running d.server out)
      else if op == 0x0502
      then served d (op_set_override x op body ctx.now_ms d.server out)
      else if op == 0x0503
      then served d (op_clear_override x op body d.server out)
      else if op == 0x0504
      then served d (op_calibrate x op body ctx d.server out)
      else if op == 0x0601
      then answer d (op_get_faults x op d.server out)
      else if op == 0x0602
      then served d (op_clear_faults x op body d.server out)
      else answer d (respond_status x.cbor op unknown_op 0 out)

  pub handle : List ℕ → RdpContext F → Device F → List ℕ → Handled F
  unfolding dispatch
  handle req ctx d out = elim (read_message_header req) [
    | err _ ↦ answer d (out, 0)
    | ok (header, body) ↦
        if is_request header.kind then dispatch header.op body ctx d out else answer d (out, 0)
  ]
