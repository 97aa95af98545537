-- ===== src/EngineCore/Telemetry/Frames/Total.antt =====
-- No call of `encode_due_frame` panics.
use rust_ems.Base.{
  ℕ, suc, ◌+◌, ◌%◌, ◌≤◌, ◌≡◌, refl, ap, List, [], ◌∷◌, length, Bool-cases, inl, inr, Option, none,
  some, ltb, ltb→le, arith,
}
use rust_ems.Base.Words.{u32_wrapping_add}
use rust_ems.F32.{F32}
use rust_ems.EngineCore.Telemetry.{OutputChannels}
use rust_ems.EngineCore.Telemetry.Streams.{Stream, TelemetryStreams}
use rust_ems.EngineCore.Telemetry.Frames.{
  packed_data_len, Due, serve, skip, encode_slots, encode_due_frame,
}
use rust_ems.EngineCore.Telemetry.Frames.Fit.{encode_stream-packed_data_len}

-- The call returns; the buffer and the number of slots keep their sizes, and a frame stands in the buffer.
pub data IsServed (slots out : ℕ) (r : Option Due) : Type 0 where
  idle :
      (d : Due)
      → r ≡ some d
      → d.written ≡ none
      → length d.out ≡ out
      → length d.slots ≡ slots
      → IsServed slots out r
  sent :
      (d : Due) (n : ℕ)
      → r ≡ some d
      → d.written ≡ some n
      → n ≤ out
      → length d.out ≡ out
      → length d.slots ≡ slots
      → IsServed slots out r

skip-IsServed :
    {slots out : ℕ} (slot : Option Stream) (r : Option Due)
    → IsServed slots out r
    → IsServed (suc slots) out (skip slot r)
skip-IsServed slot r (idle d e w o s) =
    idle (record d { slots = slot ∷ d.slots }) (ap (skip slot) e) w o (ap (λ n. suc n) s)
skip-IsServed slot r (sent d n e w h o s) =
    sent (record d { slots = slot ∷ d.slots }) n (ap (skip slot) e) w h o (ap (λ n. suc n) s)

module _ {F : Type 0} (f : F32 F) where
  serve-IsServed :
      (oc : OutputChannels F) (idx : ℕ) (stream : Stream) (later : TelemetryStreams) (now_ms : ℕ)
      (out : List ℕ)
      → IsServed (suc (length later)) (length out) (serve f oc idx stream later now_ms out)
  unfolding serve
  serve-IsServed oc idx stream later now_ms out =
      let due : Stream = record stream {
        next_due_ms = u32_wrapping_add now_ms stream.interval_ms;
      } in
      elim (Bool-cases (ltb (length out) (7 + packed_data_len f stream.channels))) [
        | inl short ↦
            idle (record { slots = some due ∷ later; out = out; written = none })
              (rw (short, serve)) refl refl refl
        | inr room ↦
            let fits = ltb→le (length out) (7 + packed_data_len f stream.channels) room in
            let (p, e, at, size) = encode_stream-packed_data_len f oc idx due now_ms out fits in
            sent
              (record {
                slots = some (record due { seq = (due.seq + 1) % 65536 }) ∷ later;
                out = p.buf;
                written = some p.pos;
              })
              p.pos (rw (room, e, serve)) refl (omega (arith, at, fits)) size refl
      ]

  encode_slots-IsServed :
      (oc : OutputChannels F) (idx : ℕ) (slots : TelemetryStreams) (now_ms : ℕ) (out : List ℕ)
      → IsServed (length slots) (length out) (encode_slots f oc idx slots now_ms out)
  unfolding encode_slots
  encode_slots-IsServed oc idx [] now_ms out =
      idle (record { slots = []; out = out; written = none }) refl refl refl refl
  encode_slots-IsServed oc idx (none ∷ later) now_ms out =
      skip-IsServed none (encode_slots f oc (suc idx) later now_ms out)
        (encode_slots-IsServed oc (suc idx) later now_ms out)
  encode_slots-IsServed oc idx (some stream ∷ later) now_ms out =
      elim (Bool-cases (ltb now_ms stream.next_due_ms)) [
        | inl early ↦
            rw (early, encode_slots)
              (skip-IsServed (some stream) (encode_slots f oc (suc idx) later now_ms out)
                (encode_slots-IsServed oc (suc idx) later now_ms out))
        | inr time ↦ rw (time, encode_slots) (serve-IsServed oc idx stream later now_ms out)
      ]

  -- Whatever streams there are and whatever buffer is given, `encode_due_frame` returns: no write goes
  -- outside of the buffer, which keeps its length, as the streams keep their number, and the length it
  -- reports of a frame is at most the buffer's.
  pub encode_due_frame-IsServed :
      (oc : OutputChannels F) (slots : TelemetryStreams) (now_ms : ℕ) (out : List ℕ)
      → IsServed (length slots) (length out) (encode_due_frame f oc slots now_ms out)
  unfolding encode_due_frame
  encode_due_frame-IsServed oc slots now_ms out = encode_slots-IsServed oc 0 slots now_ms out
