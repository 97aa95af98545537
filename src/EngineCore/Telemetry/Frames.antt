-- ===== src/EngineCore/Telemetry/Frames.antt =====
-- engine-core/src/comms/telemetry.rs: the frame of a stream that is due. `none` is the panic of a write outside
-- the buffer.
pub mod Fit
pub mod Total
mod Tests
use rust_ems.Base.{
  ℕ, zero, suc, ◌+◌, ◌-◌, ◌/◌, ◌%◌, ◌^◌, List, [], ◌∷◌, length, Bool, true, false, Option, none,
  some, ltb, leb, ◌==◌, if◌then◌else◌, bit_or,
}
use rust_ems.Base.Buffer.{copy_at}
use rust_ems.Base.Words.{u16_to_le, u32_to_le, u32_wrapping_add}
use rust_ems.F32.{F32}
use rust_ems.EngineCore.Telemetry.{
  WireType, u16, i16, bit, wire_len, OutputChannels, channel_meta, channel_value,
}
use rust_ems.EngineCore.Telemetry.Streams.{Stream, TelemetryStreams}

infixl 5 ◌>>=◌
abbrev pub ◌>>=◌ : {A B : Type 0} → Option A → (A → Option B) → Option B
none >>= k = none
some a >>= k = k a

-- A frame as far as it is packed: the place of the next byte, and the bits that wait for one.
pub record Packed : Type 0 where
  pub buf : List ℕ
  pub pos : ℕ
  pub acc : ℕ
  pub count : ℕ

-- `out[at..at + xs.len()].copy_from_slice(xs)`, and `out[at] = x`
pub write_at : List ℕ → ℕ → List ℕ → Option (List ℕ)
write_at buf at xs = if leb (at + length xs) (length buf) then some (copy_at buf at xs) else none

pub put : Packed → List ℕ → Option Packed
unfolding write_at
put p xs = elim (write_at p.buf p.pos xs) [
  | none ↦ none
  | some buf ↦ some (record p { buf = buf; pos = p.pos + length xs })
]

pub pack_bit : Bool → Packed → Option Packed
unfolding put
pack_bit is_zero p =
    let acc = if is_zero then p.acc else bit_or p.acc (2 ^ p.count) in
    if p.count + 1 == 8
    then put (record p { acc = 0; count = 0 }) (acc ∷ [])
    else some (record p { acc = acc; count = p.count + 1 })

-- The byte of the bits that are left.
pub flush : Packed → Option Packed
unfolding put
flush p = if ltb 0 p.count then put p (p.acc ∷ []) else some p

abbrev pub count_wire : WireType → ℕ × ℕ → ℕ × ℕ
count_wire bit (bytes, bits) = (bytes, bits + 1)
count_wire u16 (bytes, bits) = (bytes + wire_len u16, bits)
count_wire i16 (bytes, bits) = (bytes + wire_len i16, bits)

module _ {F : Type 0} (f : F32 F) where
  abbrev pub value_or_zero : OutputChannels F → ℕ → F
  value_or_zero oc ch = elim (channel_value f oc ch) [ none ↦ f.decimal 0 1 | some v ↦ v ]

  pub pack_value : WireType → F → F → Packed → Option Packed
  unfolding put pack_bit
  pack_value u16 scale value p =
      put p
        (u16_to_le (f.to_u16 (f.clamp (f.decimal 0 1) (f.decimal 655350 1) (f.div value scale))))
  pack_value i16 scale value p = put p (
      u16_to_le
        (f.to_i16 (f.clamp (f.neg (f.decimal 327680 1)) (f.decimal 327670 1) (f.div value scale))))
  pack_value bit scale value p = pack_bit (f.eq value (f.decimal 0 1)) p

  pub pack_channel : OutputChannels F → Packed → ℕ → Option Packed
  unfolding pack_value
  pack_channel oc p ch = elim (channel_meta f ch) [
    | none ↦ some p
    | some meta ↦ pack_value meta.wire meta.scale (value_or_zero oc ch) p
  ]

  pub pack : OutputChannels F → Packed → List ℕ → Option Packed
  unfolding pack_channel
  pack oc p [] = some p
  pack oc p (ch ∷ later) = elim (pack_channel oc p ch) [ none ↦ none | some p' ↦ pack oc p' later ]

  -- The bytes and the bits of a layout.
  pub count_channel : ℕ → ℕ × ℕ → ℕ × ℕ
  count_channel ch n = elim (channel_meta f ch) [ none ↦ n | some meta ↦ count_wire meta.wire n ]

  pub count_layout : ℕ × ℕ → List ℕ → ℕ × ℕ
  unfolding count_channel
  count_layout n [] = n
  count_layout n (ch ∷ later) = count_layout (count_channel ch n) later

  pub packed_data_len : List ℕ → ℕ
  unfolding count_layout
  packed_data_len channels =
      let (bytes, bits) = count_layout (0, 0) channels in bytes + (bits + 7) / 8

  pub write_header : ℕ → Stream → ℕ → List ℕ → Option Packed
  unfolding put
  write_header idx stream now_ms out = do
    p₁ ← put (record { buf = out; pos = 0; acc = 0; count = 0 }) ((idx + 1) ∷ [])
    p₂ ← put p₁ (u16_to_le stream.seq)
    put p₂ (u32_to_le now_ms)

  -- The frame of one stream behind the check of the buffer's length.
  pub encode_stream : OutputChannels F → ℕ → Stream → ℕ → List ℕ → Option Packed
  unfolding write_header pack flush
  encode_stream oc idx stream now_ms out = do
    p₁ ← write_header idx stream now_ms out
    p₂ ← pack oc p₁ stream.channels
    flush p₂

-- What a call leaves: the streams, the buffer, and the length of the frame in it, if any.
pub record Due : Type 0 where
  pub slots : TelemetryStreams
  pub out : List ℕ
  pub written : Option ℕ

abbrev pub skip : Option Stream → Option Due → Option Due
skip slot none = none
skip slot (some d) = some (record d { slots = slot ∷ d.slots })

module _ {F : Type 0} (f : F32 F) where
  -- The stream that is due; its new time stays also where the buffer has no room for the frame.
  pub serve : OutputChannels F → ℕ → Stream → TelemetryStreams → ℕ → List ℕ → Option Due
  unfolding encode_stream packed_data_len
  serve oc idx stream later now_ms out =
      let due = record stream { next_due_ms = u32_wrapping_add now_ms stream.interval_ms } in
      if ltb (length out) (7 + packed_data_len f stream.channels)
      then some (record { slots = some due ∷ later; out = out; written = none })
      else elim (encode_stream f oc idx due now_ms out) [
        | none ↦ none
        | some p ↦ some (record {
          slots = some (record due { seq = (due.seq + 1) % 65536 }) ∷ later;
          out = p.buf;
          written = some p.pos;
        })
      ]

  -- The loop over the slots from `idx` on.
  pub encode_slots : OutputChannels F → ℕ → TelemetryStreams → ℕ → List ℕ → Option Due
  unfolding serve
  encode_slots oc idx [] now_ms out = some (record { slots = []; out = out; written = none })
  encode_slots oc idx (slot ∷ later) now_ms out =
      let skipped = skip slot (encode_slots oc (suc idx) later now_ms out) in
      elim slot [
        | none ↦ skipped
        | some stream ↦
            if ltb now_ms stream.next_due_ms then skipped else serve oc idx stream later now_ms out
      ]

  pub encode_due_frame : OutputChannels F → TelemetryStreams → ℕ → List ℕ → Option Due
  unfolding encode_slots
  encode_due_frame oc slots now_ms out = encode_slots oc 0 slots now_ms out
