-- ===== src/EngineCore/Rdp/Actuate/Keep.antt =====
-- What the requests of telemetry, control and diagnostics leave alone.
use rust_ems.Base.{
  ℕ, ◌≡◌, refl, List, Option-cases, Bool, true, false, inl, inr, Result, ok, err, arith,
}
use rust_ems.DeviceApi.Cbor.{SubscribeRequest}
use rust_ems.EngineCore.Control.{bench_target_from_u8, calibrate_from_u8, override_target_from_u8}
use rust_ems.EngineCore.Telemetry.Streams.{
  SubscribeError, no_free_stream, too_many_channels, bad_channel, subscribe,
}
use rust_ems.EngineCore.Rdp.{Externals, RdpServer, RdpContext}
use rust_ems.EngineCore.Rdp.Actuate.{
  finish_subscribe, op_subscribe, op_unsubscribe, op_bench_test, op_set_override, op_clear_override,
  calibrate, op_calibrate, op_clear_faults,
}

-- The marks of the configuration stay, and while the engine runs also the bench test asked for.
pub data IsAside {F : Type 0} (running : Bool) (s s' : RdpServer F) : Type 0 where
  aside :
      s'.dirty ≡ s.dirty
      → s'.flash_crc ≡ s.flash_crc
      → (running ≡ true → s'.pending_bench ≡ s.pending_bench)
      → IsAside running s s'

-- Where the bench test may change.
pub unmarked :
    {F : Type 0} (s s' : RdpServer F)
    → s'.dirty ≡ s.dirty
    → s'.flash_crc ≡ s.flash_crc
    → IsAside false s s'
unmarked s s' d c = aside d c (λ e. absurd (ground (arith, e)))

module _ {F : Type 0} (x : Externals F) where
  finish_subscribe-IsAside :
      {running : Bool} (opcode : ℕ) (req : SubscribeRequest) (s s' : RdpServer F) (out : List ℕ)
      (r : Result SubscribeError (ℕ × ℕ))
      → IsAside running s s'
      → IsAside running s (finish_subscribe x opcode req s' out r).0
  unfolding finish_subscribe
  finish_subscribe-IsAside opcode req s s' out (ok (stream_id, rate_hz)) a = a
  finish_subscribe-IsAside opcode req s s' out (err (bad_channel ch)) a = a
  finish_subscribe-IsAside opcode req s s' out (err no_free_stream) a = a
  finish_subscribe-IsAside opcode req s s' out (err too_many_channels) a = a

  pub op_subscribe-IsAside :
      {running : Bool} (opcode : ℕ) (body : List ℕ) (now_ms : ℕ) (s : RdpServer F) (out : List ℕ)
      → IsAside running s (op_subscribe x opcode body now_ms s out).0
  unfolding op_subscribe
  op_subscribe-IsAside opcode body now_ms s out =
      elim (Option-cases (x.cbor.decode_subscribe body)) [
        | inl bad ↦ rw (bad, op_subscribe) (aside refl refl (λ _. refl))
        | inr (req, good) ↦
            let r = subscribe x.f (x.vec ℕ) s.streams req.channels req.rate_hz now_ms in
            rw (good, op_subscribe)
              (finish_subscribe-IsAside opcode req s (record s { streams = r.0 }) out r.1
                (aside refl refl (λ _. refl)))
      ]

  pub op_unsubscribe-IsAside :
      {running : Bool} (opcode : ℕ) (body : List ℕ) (s : RdpServer F) (out : List ℕ)
      → IsAside running s (op_unsubscribe x opcode body s out).0
  unfolding op_unsubscribe
  op_unsubscribe-IsAside opcode body s out = elim (Option-cases (x.cbor.decode_unsubscribe body)) [
    | inl bad ↦ rw (bad, op_unsubscribe) (aside refl refl (λ _. refl))
    | inr (req, good) ↦ rw (good, op_unsubscribe) (aside refl refl (λ _. refl))
  ]

  pub op_clear_faults-IsAside :
      {running : Bool} (opcode : ℕ) (body : List ℕ) (s : RdpServer F) (out : List ℕ)
      → IsAside running s (op_clear_faults x opcode body s out).0
  unfolding op_clear_faults
  op_clear_faults-IsAside opcode body s out =
      elim (Option-cases (x.cbor.decode_clear_faults body)) [
        | inl bad ↦ rw (bad, op_clear_faults) (aside refl refl (λ _. refl))
        | inr (req, good) ↦ rw (good, op_clear_faults) (aside refl refl (λ _. refl))
      ]

  pub op_set_override-IsAside :
      {running : Bool} (opcode : ℕ) (body : List ℕ) (now_ms : ℕ) (s : RdpServer F) (out : List ℕ)
      → IsAside running s (op_set_override x opcode body now_ms s out).0
  unfolding op_set_override
  op_set_override-IsAside opcode body now_ms s out =
      elim (Option-cases (x.cbor.decode_set_override body)) [
        | inl bad ↦ rw (bad, op_set_override) (aside refl refl (λ _. refl))
        | inr (req, good) ↦ elim (Option-cases (override_target_from_u8 req.target)) [
          | inl missing ↦ rw (good, missing, op_set_override) (aside refl refl (λ _. refl))
          | inr (target, known) ↦ rw (good, known, op_set_override) (aside refl refl (λ _. refl))
        ]
      ]

  pub op_clear_override-IsAside :
      {running : Bool} (opcode : ℕ) (body : List ℕ) (s : RdpServer F) (out : List ℕ)
      → IsAside running s (op_clear_override x opcode body s out).0
  unfolding op_clear_override
  op_clear_override-IsAside opcode body s out =
      elim (Option-cases (x.cbor.decode_clear_override body)) [
        | inl bad ↦ rw (bad, op_clear_override) (aside refl refl (λ _. refl))
        | inr (req, good) ↦ elim (Option-cases (override_target_from_u8 req.target)) [
          | inl missing ↦ rw (good, missing, op_clear_override) (aside refl refl (λ _. refl))
          | inr (target, known) ↦ rw (good, known, op_clear_override) (aside refl refl (λ _. refl))
        ]
      ]

  pub op_bench_test-IsAside :
      (opcode : ℕ) (body : List ℕ) (running : Bool) (s : RdpServer F) (out : List ℕ)
      → IsAside running s (op_bench_test x opcode body running s out).0
  unfolding op_bench_test
  op_bench_test-IsAside opcode body true s out =
      elim (Option-cases (x.cbor.decode_bench_test body)) [
        | inl bad ↦ rw (bad, op_bench_test) (aside refl refl (λ _. refl))
        | inr (req, good) ↦ rw (good, op_bench_test) (aside refl refl (λ _. refl))
      ]
  op_bench_test-IsAside opcode body false s out =
      elim (Option-cases (x.cbor.decode_bench_test body)) [
        | inl bad ↦ rw (bad, op_bench_test) (aside refl refl (λ _. refl))
        | inr (req, good) ↦ elim (Option-cases (bench_target_from_u8 req.target)) [
          | inl missing ↦ rw (good, missing, op_bench_test) (aside refl refl (λ _. refl))
          | inr (target, known) ↦
              rw (good, known, op_bench_test) (aside refl refl (λ e. absurd (ground (arith, e))))
        ]
      ]

  pub op_calibrate-IsAside :
      {running : Bool} (opcode : ℕ) (body : List ℕ) (ctx : RdpContext F) (s : RdpServer F)
      (out : List ℕ)
      → IsAside running s (op_calibrate x opcode body ctx s out).0
  unfolding op_calibrate
  op_calibrate-IsAside opcode body ctx s out = elim (Option-cases (x.cbor.decode_calibrate body)) [
    | inl bad ↦ rw (bad, op_calibrate) (aside refl refl (λ _. refl))
    | inr (req, good) ↦ elim (Option-cases (calibrate_from_u8 req.routine)) [
      | inl missing ↦ rw (good, missing, op_calibrate) (aside refl refl (λ _. refl))
      | inr (routine, known) ↦
          elim (Option-cases (calibrate x routine ctx.outputs ctx.engine_running s.calibrations)) [
            | inl gated ↦ rw (good, known, gated, op_calibrate) (aside refl refl (λ _. refl))
            | inr ((c, result), done) ↦
                rw (good, known, done, op_calibrate) (aside refl refl (λ _. refl))
          ]
    ]
  ]
