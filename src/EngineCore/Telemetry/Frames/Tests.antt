-- ===== src/EngineCore/Telemetry/Frames/Tests.antt =====
-- The theorems on telemetry frames at concrete inputs, over numbers with three decimals.
use rust_ems.Base.{ℕ, ◌+◌, ◌≡◌, [], ◌∷◌, length, replicate, none, some, arith}
use rust_ems.F32.{fixed_point}
use rust_ems.EngineCore.Telemetry.{zeroed, channel_meta}
use rust_ems.EngineCore.Telemetry.Streams.{Stream}
use rust_ems.EngineCore.Telemetry.Frames.{
  Packed, count_channel, count_layout, packed_data_len, encode_stream, encode_due_frame,
}
use rust_ems.EngineCore.Telemetry.Frames.Fit.{encode_stream-packed_data_len}
use rust_ems.EngineCore.Telemetry.Frames.Total.{IsServed, encode_due_frame-IsServed}

-- The speed and two flags.
abbrev stream : Stream
stream = record { channels = 1 ∷ (32 ∷ (33 ∷ [])); interval_ms = 100; next_due_ms = 500; seq = 7 }

encode_stream-packed_data_len_example :
    (p : Packed) × (encode_stream fixed_point (zeroed fixed_point) 0 stream 600 (replicate 32 0)
      ≡ some p)
    × (p.pos ≡ 7 + packed_data_len fixed_point stream.channels)
    × (length p.buf ≡ length {A = ℕ} (replicate 32 0))
unfolding packed_data_len count_layout count_channel channel_meta
encode_stream-packed_data_len_example =
    encode_stream-packed_data_len fixed_point (zeroed fixed_point) 0 stream 600 (replicate 32 0)
      (omega arith)

encode_due_frame-IsServed_example : IsServed 2 32 (
    encode_due_frame fixed_point
      (zeroed fixed_point)
      (none ∷ (some stream ∷ []))
      600
      (replicate 32 0))
encode_due_frame-IsServed_example =
    encode_due_frame-IsServed fixed_point (zeroed fixed_point) (none ∷ (some stream ∷ [])) 600
      (replicate 32 0)
