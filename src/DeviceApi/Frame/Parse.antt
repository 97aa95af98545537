-- ===== src/DeviceApi/Frame/Parse.antt =====
-- `decode_frame_raw` reads the raw frame back, and refuses one whose payload was damaged.
use rust_ems.Base.{
  ℕ, ◌+◌, ◌*◌, ◌<◌, ◌≡◌, ◌≢◌, refl, sym, ap, ◌∙◌, List, [], ◌∷◌, ◌++◌, length, get_or, take-append,
  append_assoc, length-append, ok, err, bit_or, arith, le→ltb, eq→==, ne→==, not, if◌then◌else◌,
  ◌==◌,
}
use rust_ems.Base.Buffer.{get_or-append}
use rust_ems.Base.Bits.{join_bytes}
use rust_ems.DeviceApi.Crc16.{crc16_ccitt}
use rust_ems.DeviceApi.Crc16.Detect.{crc16_ccitt-lt, crc16_ccitt_detects}
use rust_ems.DeviceApi.Frame.{FrameHeader, decode_frame_raw, crc_mismatch}
use rust_ems.DeviceApi.Frame.Raw.{
  frame_body, header_bytes, crc_bytes_of, raw_frame, low_byte, high_byte,
}

-- A well-formed body with any two bytes for its checksum.
decode_frame_raw_body :
    (h : FrameHeader) (payload : List ℕ) (c d : ℕ)
    → h.version ≡ 1
    → h.seq < 65536
    → length payload < 65536
    → decode_frame_raw (frame_body h payload ++ (c ∷ (d ∷ []))) ≡ (
        if not (bit_or c (d * 256) == crc16_ccitt (frame_body h payload))
        then err crc_mismatch
        else ok (h, payload))
unfolding decode_frame_raw
decode_frame_raw_body h payload c d v s l = rw (
  le→ltb (length raw) 8 (omega (arith, len)),
  eq→== h.version 1 v,
  join_bytes h.seq s,
  join_bytes (length payload) l,
  eq→== (length raw) (6 + length payload + 2) len,
  get_or-append (frame_body h payload) (d ∷ []) c (6 + length payload) 0 refl',
  second,
  take-append (6 + length payload) (frame_body h payload) (c ∷ (d ∷ [])) refl',
)
  where
    raw : List ℕ
    raw = frame_body h payload ++ (c ∷ (d ∷ []))

    len : length raw ≡ 6 + length payload + 2
    len = omega (arith, length-append payload (c ∷ (d ∷ [])))

    refl' : 6 + length payload ≡ length (frame_body h payload)
    refl' = omega arith

    second : get_or raw (6 + length payload + 1) 0 ≡ d
    second =
        ap (λ zs. get_or zs (6 + length payload + 1) 0)
          (sym (append_assoc (frame_body h payload) (c ∷ []) (d ∷ [])))
        ∙ get_or-append (frame_body h payload ++ (c ∷ [])) [] d (6 + length payload + 1) 0
            (omega (arith, length-append payload (c ∷ [])))

pub decode_frame_raw_lem :
    (h : FrameHeader) (payload : List ℕ)
    → h.version ≡ 1
    → h.seq < 65536
    → length payload < 65536
    → decode_frame_raw (raw_frame h payload) ≡ ok (h, payload)
decode_frame_raw_lem h payload v s l =
    decode_frame_raw_body h payload (low_byte crc) (high_byte crc) v s l
    ∙ rw
        (eq→== (bit_or (low_byte crc) (high_byte crc * 256)) crc
          (join_bytes crc (crc16_ccitt-lt (frame_body h payload))))
        refl
  where
    crc : ℕ
    crc = crc16_ccitt (frame_body h payload)

-- A raw frame of version 1 (a payload and a sequence number below 2 ^ 16) in which one byte of the
-- payload was changed on the way is refused for its checksum, whatever the byte and wherever it stands.
pub decode_frame_raw_damaged :
    (h : FrameHeader) (front back : List ℕ) (b b' : ℕ)
    → h.version ≡ 1
    → h.seq < 65536
    → length (front ++ (b ∷ back)) < 65536
    → b < 256
    → b' < 256
    → b ≢ b'
    → decode_frame_raw
        (frame_body h (front ++ (b' ∷ back)) ++ crc_bytes_of (frame_body h (front ++ (b ∷ back))))
      ≡ err crc_mismatch
decode_frame_raw_damaged h front back b b' v s l hb hb' ne =
    decode_frame_raw_body h (front ++ (b' ∷ back)) (low_byte crc) (high_byte crc) v s
      (omega (arith, len))
    ∙ rw
        (
          join_bytes crc (crc16_ccitt-lt (frame_body h (front ++ (b ∷ back)))),
          ne→== crc (crc16_ccitt (frame_body h (front ++ (b' ∷ back)))) differs,
        )
        refl
  where
    crc : ℕ
    crc = crc16_ccitt (frame_body h (front ++ (b ∷ back)))

    len : length (front ++ (b' ∷ back)) ≡ length (front ++ (b ∷ back))
    len = omega (arith, length-append front (b ∷ back), length-append front (b' ∷ back))

    differs : crc ≢ crc16_ccitt (frame_body h (front ++ (b' ∷ back)))
    differs e =
        crc16_ccitt_detects (header_bytes h (length (front ++ (b ∷ back))) ++ front) back b b' hb
          hb' ne (e ∙ ap (λ k. crc16_ccitt (header_bytes h k ++ (front ++ (b' ∷ back)))) len)
