-- ===== src/EngineCore/Rdp/Actuate.antt =====
-- engine-core/src/comms/rdp.rs: telemetry, control and diagnostics, and the frames that the device pushes.
pub mod Keep
use rust_ems.Base.{
  ℕ, ◌+◌, List, [], ◌∷◌, length, map, Bool, true, false, Option, none, some, Result, ok, err, ltb,
  if◌then◌else◌, take, drop, ◌++◌,
}
use rust_ems.EngineCore.Config.{push_each}
use rust_ems.DeviceApi.Message.{
  ErrorCode, ok_code, bad_request, not_found, busy, event, message_header_len, write_message_header,
}
use rust_ems.DeviceApi.Cbor.{
  FaultEntry, EventBody, SubscribeRequest, event_body, subscribe_response, read_once_response,
  calibrate_response, get_faults_response, clear_faults_response,
}
use rust_ems.EngineCore.Control.{
  BenchTestSpec, bench_target_from_u8, CalibrateRoutine, calibrate_from_u8, tps_closed, tps_open,
  map_baro, clear_adaptive, override_target_from_u8, set_override, clear_override, Calibrations,
}
use rust_ems.EngineCore.Faults.{
  FaultRecord, Severity, info, warn, critical, EventKind, fault_set, fault_cleared, knock,
  protection_cut, limp_mode, sync_state, config_changed, clear_mask, pop,
}
use rust_ems.EngineCore.Telemetry.{OutputChannels, channel_value}
use rust_ems.EngineCore.Telemetry.Streams.{
  SubscribeError, no_free_stream, too_many_channels, bad_channel, subscribe, unsubscribe,
}
use rust_ems.EngineCore.Rdp.{Externals, RdpServer, RdpContext}
use rust_ems.EngineCore.Rdp.Respond.{Reply, respond_status, respond_body, write_body}

-- `rec.severity as u8`, `rec.kind as u8`
abbrev pub severity_to_u8 : Severity → ℕ
severity_to_u8 info = 0
severity_to_u8 warn = 1
severity_to_u8 critical = 2

module _ {F : Type 0} (x : Externals F) where
  -- A request that changes the server alone.
  abbrev pub Served : Type 0
  Served = RdpServer F × Reply

  pub finish_subscribe :
      ℕ → SubscribeRequest → RdpServer F → List ℕ → Result SubscribeError (ℕ × ℕ) → Served
  finish_subscribe opcode req s out (ok (stream_id, rate_hz)) = (
    s,
    respond_body x.cbor opcode
        (subscribe_response
          (record { stream_id = stream_id; layout = req.channels; rate_hz = rate_hz }))
        out,
  )
  finish_subscribe opcode req s out (err (bad_channel ch)) =
      (s, respond_status x.cbor opcode not_found ch out)
  finish_subscribe opcode req s out (err no_free_stream) =
      (s, respond_status x.cbor opcode busy 0 out)
  finish_subscribe opcode req s out (err too_many_channels) =
      (s, respond_status x.cbor opcode bad_request 0 out)

  pub op_subscribe : ℕ → List ℕ → ℕ → RdpServer F → List ℕ → Served
  unfolding finish_subscribe
  op_subscribe opcode body now_ms s out = elim (x.cbor.decode_subscribe body) [
    | none ↦ (s, respond_status x.cbor opcode bad_request 0 out)
    | some req ↦
        let (streams, r) = subscribe x.f (x.vec ℕ) s.streams req.channels req.rate_hz now_ms in
        finish_subscribe opcode req (record s { streams = streams }) out r
  ]

  pub op_unsubscribe : ℕ → List ℕ → RdpServer F → List ℕ → Served
  op_unsubscribe opcode body s out = elim (x.cbor.decode_unsubscribe body) [
    | none ↦ (s, respond_status x.cbor opcode bad_request 0 out)
    | some r ↦
        let (streams, done) = unsubscribe s.streams r.stream_id in
        (
          record s { streams = streams },
          if done
              then respond_status x.cbor opcode ok_code 0 out
              else respond_status x.cbor opcode not_found r.stream_id out,
        )
  ]

  pub read_channels : OutputChannels F → List ℕ → Result ℕ (List F)
  read_channels oc [] = ok []
  read_channels oc (ch ∷ later) =
      let rest = read_channels oc later in
      elim (channel_value x.f oc ch) [
        | none ↦ err ch
        | some v ↦ elim rest [ err e ↦ err e | ok values ↦ ok (v ∷ values) ]
      ]

  pub op_read_once : ℕ → List ℕ → OutputChannels F → List ℕ → Reply
  unfolding read_channels
  op_read_once opcode body outputs out = elim (x.cbor.decode_read_once body) [
    | none ↦ respond_status x.cbor opcode bad_request 0 out
    | some req ↦ elim (read_channels outputs req.channels) [
      | err ch ↦ respond_status x.cbor opcode not_found ch out
      | ok values ↦
          respond_body x.cbor opcode
            (read_once_response (record { values = push_each (x.vec F) 32 [] values })) out
    ]
  ]

  unfoldable pub op_bench_test : ℕ → List ℕ → Bool → RdpServer F → List ℕ → Served
  op_bench_test opcode body engine_running s out = elim (x.cbor.decode_bench_test body) [
    | none ↦ (s, respond_status x.cbor opcode bad_request 0 out)
    | some req ↦
        if engine_running
        then (s, respond_status x.cbor opcode busy 0 out)
        else elim (bench_target_from_u8 req.target) [
          | none ↦ (s, respond_status x.cbor opcode not_found req.target out)
          | some target ↦ (
            record s {
              pending_bench = some (record {
                target = target;
                index = req.index;
                on_ms = req.on_ms;
                off_ms = req.off_ms;
                count = req.count;
              });
            },
            respond_status x.cbor opcode ok_code 0 out,
          )
        ]
  ]

  pub op_set_override : ℕ → List ℕ → ℕ → RdpServer F → List ℕ → Served
  op_set_override opcode body now_ms s out = elim (x.cbor.decode_set_override body) [
    | none ↦ (s, respond_status x.cbor opcode bad_request 0 out)
    | some r ↦ elim (override_target_from_u8 r.target) [
      | none ↦ (s, respond_status x.cbor opcode not_found r.target out)
      | some target ↦ (
        record s { overrides = set_override s.overrides target r.value r.timeout_ms now_ms },
        respond_status x.cbor opcode ok_code 0 out,
      )
    ]
  ]

  pub op_clear_override : ℕ → List ℕ → RdpServer F → List ℕ → Served
  op_clear_override opcode body s out = elim (x.cbor.decode_clear_override body) [
    | none ↦ (s, respond_status x.cbor opcode bad_request 0 out)
    | some r ↦ elim (override_target_from_u8 r.target) [
      | none ↦ (s, respond_status x.cbor opcode not_found r.target out)
      | some target ↦ (
        record s { overrides = (clear_override s.overrides target).0 },
        respond_status x.cbor opcode ok_code 0 out,
      )
    ]
  ]

  -- The calibrations after a routine and its results; `none` while the engine runs, where that matters.
  pub calibrate :
      CalibrateRoutine → OutputChannels F → Bool → Calibrations F → Option (Calibrations F × List F)
  calibrate tps_closed outputs engine_running c =
      some (record c { tps_closed_pct = outputs.tps_pct }, outputs.tps_pct ∷ [])
  calibrate tps_open outputs engine_running c =
      some (record c { tps_open_pct = outputs.tps_pct }, outputs.tps_pct ∷ [])
  calibrate map_baro outputs engine_running c =
      if engine_running
      then none
      else some (record c { baro_kpa = outputs.map_kpa }, outputs.map_kpa ∷ [])
  calibrate clear_adaptive outputs engine_running c =
      some (record c { clear_adaptive_pending = true }, [])

  pub op_calibrate : ℕ → List ℕ → RdpContext F → RdpServer F → List ℕ → Served
  unfolding calibrate
  op_calibrate opcode body ctx s out = elim (x.cbor.decode_calibrate body) [
    | none ↦ (s, respond_status x.cbor opcode bad_request 0 out)
    | some req ↦ elim (calibrate_from_u8 req.routine) [
      | none ↦ (s, respond_status x.cbor opcode not_found req.routine out)
      | some routine ↦ elim (calibrate routine ctx.outputs ctx.engine_running s.calibrations) [
        | none ↦ (s, respond_status x.cbor opcode busy 0 out)
        | some (c, result) ↦ (
          record s { calibrations = c },
          respond_body x.cbor opcode
              (calibrate_response (record { result = push_each (x.vec F) 8 [] result })) out,
        )
      ]
    ]
  ]

  abbrev pub fault_entry : FaultRecord → FaultEntry
  fault_entry rec = record {
    code = rec.code;
    severity = severity_to_u8 rec.severity;
    active = rec.active;
    count = rec.count;
    first_ts_ms = rec.first_ts_ms;
    last_ts_ms = rec.last_ts_ms;
    detail = rec.detail;
  }

  pub op_get_faults : ℕ → RdpServer F → List ℕ → Reply
  op_get_faults opcode s out =
      respond_body x.cbor opcode
        (get_faults_response
          (record { faults = push_each (x.vec FaultEntry) 16 [] (map fault_entry s.faults) }))
        out

  pub op_clear_faults : ℕ → List ℕ → RdpServer F → List ℕ → Served
  op_clear_faults opcode body s out = elim (x.cbor.decode_clear_faults body) [
    | none ↦ (s, respond_status x.cbor opcode bad_request 0 out)
    | some r ↦
        let (store, cleared) = clear_mask x.retain s.faults r.mask in
        (
          record s { faults = store },
          respond_body x.cbor opcode (clear_faults_response (record { cleared = cleared })) out,
        )
  ]
