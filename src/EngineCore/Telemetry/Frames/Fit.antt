-- ===== src/EngineCore/Telemetry/Frames/Fit.antt =====
-- A frame fills exactly the bytes that its layout announces.
use rust_ems.Base.{
  ℕ, ◌+◌, ◌/◌, ◌%◌, ◌^◌, ◌≤◌, ◌<◌, ◌≡◌, refl, ◌∙◌, List, [], ◌∷◌, ◌++◌, length, length-append,
  length-take, length-drop, take, drop, Option-cases, Bool, Bool-cases, inl, inr, Option, some, ltb,
  le→leb, ◌==◌, if◌then◌else◌, bit_or, arith,
}
use rust_ems.Base.Buffer.{copy_at}
use rust_ems.Base.Words.{u16_to_le, u32_to_le}
use rust_ems.F32.{F32}
use rust_ems.EngineCore.Telemetry.{WireType, u16, i16, bit, OutputChannels, channel_meta}
use rust_ems.EngineCore.Telemetry.Streams.{Stream}
use rust_ems.EngineCore.Telemetry.Frames.{
  Packed, write_at, put, pack_bit, flush, value_or_zero, pack_value, pack, pack_channel, count_wire,
  count_channel, count_layout, packed_data_len, write_header, encode_stream,
}

-- A buffer of `size` bytes with the header, `n.0` bytes of channels and `n.1` bits.
data IsPacked (size : ℕ) (n : ℕ × ℕ) (r : Option Packed) : Type 0 where
  packed :
      (p : Packed)
      → r ≡ some p
      → p.pos ≡ 7 + n.0 + n.1 / 8
      → p.count ≡ n.1 % 8
      → length p.buf ≡ size
      → IsPacked size n r

length-copy_at :
    (buf xs : List ℕ) (at : ℕ)
    → at + length xs ≤ length buf
    → length (copy_at buf at xs) ≡ length buf
length-copy_at buf xs at h = omega (
  arith,
  length-append (take at buf) (xs ++ drop (at + length xs) buf),
  length-append xs (drop (at + length xs) buf),
  length-take at buf,
  length-drop (at + length xs) buf,
)

put_fits :
    (p : Packed) (xs : List ℕ)
    → p.pos + length xs ≤ length p.buf
    → put p xs ≡ some (record p { buf = copy_at p.buf p.pos xs; pos = p.pos + length xs })
unfolding put write_at
put_fits p xs h = rw (put, le→leb (p.pos + length xs) (length p.buf) h)

pack_bit-IsPacked :
    (is_zero : Bool) (p : Packed) (size bytes bits : ℕ)
    → p.pos ≡ 7 + bytes + bits / 8
    → p.count ≡ bits % 8
    → length p.buf ≡ size
    → 7 + bytes + (bits + 1 + 7) / 8 ≤ size
    → IsPacked size (bytes, bits + 1) (pack_bit is_zero p)
unfolding pack_bit
pack_bit-IsPacked is_zero p size bytes bits e c s room =
    let acc = if is_zero then p.acc else bit_or p.acc (2 ^ p.count) in
    elim (Bool-cases (p.count + 1 == 8)) [
      | inr more ↦
          packed (record p { acc = acc; count = p.count + 1 }) (rw (more, pack_bit))
            (ground (arith, more, e, c)) (ground (arith, more, c)) s
      | inl full ↦
          let p' = record p { acc = 0; count = 0 } in
          let last : p.count ≡ 7 = ground (arith, full) in
          packed (record p' { buf = copy_at p.buf p.pos (acc ∷ []); pos = p.pos + 1 })
            (rw (full, pack_bit) (put_fits p' (acc ∷ []) (omega (arith, e, c, s, room, last))))
            (omega (arith, e, c, last)) (omega (arith, c, last))
            (length-copy_at p.buf (acc ∷ []) p.pos (omega (arith, e, c, s, room, last)) ∙ s)
    ]

two_bytes-IsPacked :
    (p : Packed) (x size bytes bits : ℕ)
    → p.pos ≡ 7 + bytes + bits / 8
    → p.count ≡ bits % 8
    → length p.buf ≡ size
    → 7 + (bytes + 2) + (bits + 7) / 8 ≤ size
    → IsPacked size (bytes + 2, bits) (put p (u16_to_le x))
two_bytes-IsPacked p x size bytes bits e c s room =
    packed (record p { buf = copy_at p.buf p.pos (u16_to_le x); pos = p.pos + 2 })
      (put_fits p (u16_to_le x) (omega (arith, e, s, room))) (omega (arith, e)) c
      (length-copy_at p.buf (u16_to_le x) p.pos (omega (arith, e, s, room)) ∙ s)

count_wire_grows :
    (wire : WireType) (n : ℕ × ℕ) → (n.0 ≤ (count_wire wire n).0) × (n.1 ≤ (count_wire wire n).1)
count_wire_grows u16 n = (omega arith, omega arith)
count_wire_grows i16 n = (omega arith, omega arith)
count_wire_grows bit n = (omega arith, omega arith)

module _ {F : Type 0} (f : F32 F) where
  pack_value-IsPacked :
      (wire : WireType) (scale value : F) (p : Packed) (size : ℕ) (n : ℕ × ℕ)
      → p.pos ≡ 7 + n.0 + n.1 / 8
      → p.count ≡ n.1 % 8
      → length p.buf ≡ size
      → 7 + (count_wire wire n).0 + ((count_wire wire n).1 + 7) / 8 ≤ size
      → IsPacked size (count_wire wire n) (pack_value f wire scale value p)
  unfolding pack_value
  pack_value-IsPacked u16 scale value p size n e c s room =
      two_bytes-IsPacked p
        (f.to_u16 (f.clamp (f.decimal 0 1) (f.decimal 655350 1) (f.div value scale))) size n.0 n.1 e
        c s room
  pack_value-IsPacked i16 scale value p size n e c s room =
      two_bytes-IsPacked p
        (f.to_i16 (f.clamp (f.neg (f.decimal 327680 1)) (f.decimal 327670 1) (f.div value scale)))
        size n.0 n.1 e c s room
  pack_value-IsPacked bit scale value p size n e c s room =
      pack_bit-IsPacked (f.eq value (f.decimal 0 1)) p size n.0 n.1 e c s room

  count_channel_grows :
      (ch : ℕ) (n : ℕ × ℕ) → (n.0 ≤ (count_channel f ch n).0) × (n.1 ≤ (count_channel f ch n).1)
  unfolding count_channel
  count_channel_grows ch n = elim (Option-cases (channel_meta f ch)) [
    | inl unknown ↦ rw (unknown, count_channel) (omega arith, omega arith)
    | inr (meta, known) ↦ rw (known, count_channel) (count_wire_grows meta.wire n)
  ]

  count_layout_grows :
      (n : ℕ × ℕ) (channels : List ℕ)
      → (n.0 ≤ (count_layout f n channels).0) × (n.1 ≤ (count_layout f n channels).1)
  unfolding count_layout
  count_layout_grows n [] = (omega arith, omega arith)
  count_layout_grows n (ch ∷ later) =
      let (a, b) = count_channel_grows ch n in
      let (c, d) = count_layout_grows (count_channel f ch n) later in
      (omega (arith, a, c), omega (arith, b, d))

  pack_channel-IsPacked :
      (oc : OutputChannels F) (ch size : ℕ) (n : ℕ × ℕ) (p : Packed)
      → p.pos ≡ 7 + n.0 + n.1 / 8
      → p.count ≡ n.1 % 8
      → length p.buf ≡ size
      → 7 + (count_channel f ch n).0 + ((count_channel f ch n).1 + 7) / 8 ≤ size
      → IsPacked size (count_channel f ch n) (pack_channel f oc p ch)
  unfolding pack_channel count_channel
  pack_channel-IsPacked oc ch size n p e c s room = elim (Option-cases (channel_meta f ch)) [
    | inl unknown ↦ rw (unknown, pack_channel, count_channel) (packed p refl e c s)
    | inr (meta, known) ↦
        rw (known, pack_channel, count_channel)
          (pack_value-IsPacked meta.wire meta.scale (value_or_zero f oc ch) p size n e c s
            (rw (known, count_channel) at room))
  ]

  pack-IsPacked :
      (oc : OutputChannels F) (size : ℕ) (n : ℕ × ℕ) (p : Packed) (channels : List ℕ)
      → p.pos ≡ 7 + n.0 + n.1 / 8
      → p.count ≡ n.1 % 8
      → length p.buf ≡ size
      → 7 + (count_layout f n channels).0 + ((count_layout f n channels).1 + 7) / 8 ≤ size
      → IsPacked size (count_layout f n channels) (pack f oc p channels)
  unfolding pack count_layout
  pack-IsPacked oc size n p [] e c s room = packed p refl e c s
  pack-IsPacked oc size n p (ch ∷ later) e c s room =
      let (a, b) = count_layout_grows (count_channel f ch n) later in
      elim (pack_channel-IsPacked oc ch size n p e c s (omega (arith, a, b, room))) [
        | packed p' e' at' count' size' ↦
            rw (e', pack)
              (pack-IsPacked oc size (count_channel f ch n) p' later at' count' size' room)
      ]

  -- The header takes seven bytes.
  write_header-IsPacked :
      (idx : ℕ) (stream : Stream) (now_ms : ℕ) (out : List ℕ)
      → 7 ≤ length out
      → IsPacked (length out) (0, 0) (write_header f idx stream now_ms out)
  unfolding write_header
  write_header-IsPacked idx stream now_ms out h =
      let p₀ : Packed = record { buf = out; pos = 0; acc = 0; count = 0 } in
      let buf₁ = copy_at out 0 ((idx + 1) ∷ []) in
      let p₁ : Packed = record p₀ { buf = buf₁; pos = 1 } in
      let size₁ = length-copy_at out ((idx + 1) ∷ []) 0 (omega arith) in
      let buf₂ = copy_at buf₁ 1 (u16_to_le stream.seq) in
      let p₂ : Packed = record p₀ { buf = buf₂; pos = 3 } in
      let size₂ = length-copy_at buf₁ (u16_to_le stream.seq) 1 (omega (arith, size₁)) in
      let size₃ = length-copy_at buf₂ (u32_to_le now_ms) 3 (omega (arith, size₁, size₂)) in
      packed (record p₀ { buf = copy_at buf₂ 3 (u32_to_le now_ms); pos = 7 })
        (rw
          (
            write_header,
            put_fits p₀ ((idx + 1) ∷ []) (omega arith),
            put_fits p₁ (u16_to_le stream.seq) (omega (arith, size₁)),
          )
          (put_fits p₂ (u32_to_le now_ms) (omega (arith, size₁, size₂))))
        (omega arith) (omega arith) (size₃ ∙ size₂ ∙ size₁)

  flush_fits :
      (p : Packed) (size bytes bits : ℕ)
      → p.pos ≡ 7 + bytes + bits / 8
      → p.count ≡ bits % 8
      → length p.buf ≡ size
      → 7 + bytes + (bits + 7) / 8 ≤ size
      → (q : Packed) × (flush p ≡ some q)
        × (q.pos ≡ 7 + bytes + (bits + 7) / 8)
        × (length q.buf ≡ size)
  unfolding flush
  flush_fits p size bytes bits e c s room = elim (Bool-cases (ltb 0 p.count)) [
    | inr none_left ↦ (p, rw (none_left, flush), ground (arith, none_left, e, c), s)
    | inl some_left ↦
        let waiting : 0 < p.count = ground (arith, some_left) in
        (
          record p { buf = copy_at p.buf p.pos (p.acc ∷ []); pos = p.pos + 1 },
          rw (some_left, flush) (put_fits p (p.acc ∷ []) (omega (arith, e, c, s, room, waiting))),
          omega (arith, e, c, waiting),
          length-copy_at p.buf (p.acc ∷ []) p.pos (omega (arith, e, c, s, room, waiting)) ∙ s,
        )
  ]

  -- The frame of a stream, into a buffer with room for the seven bytes of its header and for its packed
  -- data: no write goes outside of the buffer, which keeps its length, and the frame has exactly the
  -- announced length.
  pub encode_stream-packed_data_len :
      (oc : OutputChannels F) (idx : ℕ) (stream : Stream) (now_ms : ℕ) (out : List ℕ)
      → 7 + packed_data_len f stream.channels ≤ length out
      → (p : Packed) × (encode_stream f oc idx stream now_ms out ≡ some p)
        × (p.pos ≡ 7 + packed_data_len f stream.channels)
        × (length p.buf ≡ length out)
  unfolding encode_stream packed_data_len
  encode_stream-packed_data_len oc idx stream now_ms out room =
      elim (write_header-IsPacked idx stream now_ms out (omega (arith, room))) [
        | packed p₁ e₁ at₁ count₁ size₁ ↦
            elim (pack-IsPacked oc (length out) (0, 0) p₁ stream.channels at₁ count₁ size₁
              (omega (arith, room))) [
                | packed p₂ e₂ at₂ count₂ size₂ ↦
                    let n = count_layout f (0, 0) stream.channels in
                    let (q, e₃, at₃, size₃) =
                      flush_fits p₂ (length out) n.0 n.1 at₂ count₂ size₂ (omega (arith, room)) in
                    (q, rw (encode_stream, e₁, e₂) e₃, omega (arith, at₃), size₃)
              ]
      ]
