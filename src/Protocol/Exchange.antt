-- ===== src/Protocol/Exchange.antt =====
-- The packet of either end is the layout, and the other end reads it.
use rust_ems.Base.{
  ℕ, ◌+◌, ◌*◌, ◌/◌, ◌%◌, ◌≤◌, ◌<◌, ◌≡◌, refl, sym, ap, ◌∙◌, List, [], ◌∷◌, ◌++◌, length, take, drop,
  set, replicate, length-append, length-replicate, append_assoc, append-nil, ok, some, take-append,
  drop_all, le→ltb, eq→==, ne→==, arith, bit_or,
}
use rust_ems.Base.Bits.{joined_be}
use rust_ems.Base.Buffer.{copy_at, over, copy_at-over, set-over, length-over}
use rust_ems.Base.Words.{u16_to_be, u16_from-to, u32_to_be}
use rust_ems.Protocol.Packet.{
  encode_packet, encode_packet_vec, decode_packet, write_packet, write_crc,
}
use rust_ems.Protocol.Layout.{packet, length-packet, take-packet, crc-packet}
use rust_ems.EngineCore.Comms.{crc32, decode_frame, encode_frame}

pub crc32-lt : (payload : List ℕ) → crc32 payload < 4294967296
unfolding crc32
crc32-lt payload = omega arith

-- The device.
decode_frame-packet :
    (payload rest : List ℕ)
    → length payload < 65536
    → decode_frame (packet crc32 payload ++ rest) ≡ ok (payload, length payload + 6)
unfolding decode_frame
decode_frame-packet payload rest h =
    let total : length (packet crc32 payload ++ rest) ≡ length payload + 6 + length rest =
      omega (arith, length-append (packet crc32 payload) rest, length-packet crc32 payload) in
    rw (
      le→ltb (length (packet crc32 payload ++ rest)) 6 (omega arith),
      u16_from-to (length payload) h,
      le→ltb (length (packet crc32 payload ++ rest)) (length payload + 6) (omega arith),
      take-packet crc32 payload rest,
      crc-packet crc32 payload rest (2 + length payload) refl (crc32-lt payload),
      eq→== (crc32 payload) (crc32 payload) refl,
    )

encode_frame-packet :
    (payload out : List ℕ)
    → length payload < 65536
    → length payload + 6 ≤ length out
    → encode_frame payload out ≡ some (length payload + 6, over (packet crc32 payload) out)
unfolding encode_frame
encode_frame-packet payload out h room =
    let len : length payload % 65536 ≡ length payload = omega arith in
    let head = u16_to_be (length payload) in
    rw
      (
        le→ltb (length out) (length payload + 6) room,
        le→ltb 65535 (length payload) (omega arith),
        len,
      )
      (ap (λ zs. some (length payload + 6, zs))
        (ap (λ zs. copy_at zs (2 + length payload) (u32_to_be (crc32 payload)))
            (copy_at-over head payload out 2 refl)
          ∙ copy_at-over (head ++ payload) (u32_to_be (crc32 payload)) out (2 + length payload)
              (omega arith)))

module _ (crc : List ℕ → ℕ) (payload : List ℕ) (small : crc payload < 4294967296)
    (ne : 0 < length payload) (h : length payload ≤ 32768) where
  decode_packet-packet :
      (rest : List ℕ) → decode_packet crc (packet crc payload ++ rest) ≡ ok payload
  unfolding decode_packet
  decode_packet-packet rest =
      let total : length (packet crc payload ++ rest) ≡ length payload + 6 + length rest =
        omega (arith, length-append (packet crc payload) rest, length-packet crc payload) in
      let joined : bit_or (length payload / 256 % 256 * 256) (length payload % 256)
          ≡ length payload =
        omega
          (arith, joined_be (length payload / 256 % 256) (length payload % 256) (omega arith)) in
      rw (
        le→ltb (length (packet crc payload ++ rest)) 6 (omega arith),
        joined,
        ne→== (length payload) 0 (omega arith),
        le→ltb (length (packet crc payload ++ rest)) (length payload + 6) (omega arith),
        take-packet crc payload rest,
        crc-packet crc payload rest (2 + length payload) refl small,
        eq→== (crc payload) (crc payload) refl,
      )

  write_crc_lem :
      (xs buf : List ℕ) (at : ℕ)
      → at ≡ length xs
      → length xs + 4 ≤ length buf
      → write_crc crc at payload (over xs buf) ≡ over (xs ++ u32_to_be (crc payload)) buf
  unfolding write_crc
  write_crc_lem xs buf at e room =
      let a = crc payload / 16777216 % 256 in
      let b = crc payload / 65536 % 256 in
      let c = crc payload / 256 % 256 in
      let d = crc payload % 256 in
      let ya = xs ++ (a ∷ []) in
      let yb = ya ++ (b ∷ []) in
      let yc = yb ++ (c ∷ []) in
      let la = length-append xs (a ∷ []) in
      let lb = length-append ya (b ∷ []) in
      let lc = length-append yb (c ∷ []) in
      ap (λ zs. set (set (set zs (at + 1) b) (at + 2) c) (at + 3) d)
        (set-over xs buf at a e (omega arith))
      ∙ ap (λ zs. set (set zs (at + 2) c) (at + 3) d)
          (set-over ya buf (at + 1) b (omega (arith, la)) (omega arith))
      ∙ ap (λ zs. set zs (at + 3) d)
          (set-over yb buf (at + 2) c (omega (arith, la, lb)) (omega arith))
      ∙ set-over yc buf (at + 3) d (omega (arith, la, lb, lc)) (omega arith)
      ∙ ap (λ zs. over zs buf)
          (append_assoc yb (c ∷ []) (d ∷ [])
            ∙ append_assoc ya (b ∷ []) (c ∷ (d ∷ []))
            ∙ append_assoc xs (a ∷ []) (b ∷ (c ∷ (d ∷ []))))

  write_packet-packet :
      (buf : List ℕ)
      → length payload + 6 ≤ length buf
      → write_packet crc payload buf ≡ ok (length payload + 6, over (packet crc payload) buf)
  unfolding write_packet
  write_packet-packet buf room =
      let len : length payload % 65536 ≡ length payload = omega arith in
      let hi = length payload / 256 % 256 in
      let lo = length payload % 256 in
      rw (le→ltb 32768 (length payload) h, le→ltb (length buf) (length payload + 6) room, len)
        (ap (λ zs. ok (length payload + 6, zs))
          (ap (λ zs. write_crc crc (2 + length payload) payload (copy_at (set zs 1 lo) 2 payload))
              (set-over [] buf 0 hi refl (omega arith))
            ∙ ap (λ zs. write_crc crc (2 + length payload) payload (copy_at zs 2 payload))
                (set-over (hi ∷ []) buf 1 lo refl (omega arith))
            ∙ ap (λ zs. write_crc crc (2 + length payload) payload zs)
                (copy_at-over (hi ∷ (lo ∷ [])) payload buf 2 refl)
            ∙ write_crc_lem (hi ∷ (lo ∷ payload)) buf (2 + length payload) (omega arith)
                (omega arith)))

encode_packet_nonempty :
    (crc : List ℕ → ℕ) (payload buf : List ℕ)
    → 0 < length payload
    → encode_packet crc payload buf ≡ write_packet crc payload buf
unfolding encode_packet
encode_packet_nonempty crc [] buf ne = absurd (omega arith)
encode_packet_nonempty crc (b ∷ payload) buf ne = refl

encode_packet_vec-packet :
    (crc : List ℕ → ℕ) (payload : List ℕ)
    → crc payload < 4294967296
    → 0 < length payload
    → length payload ≤ 32768
    → encode_packet_vec crc payload ≡ ok (packet crc payload)
unfolding encode_packet_vec
encode_packet_vec-packet crc payload small ne h =
    let buf = replicate (length payload + 6) 0 in
    let room : length buf ≡ length payload + 6 = length-replicate {A = ℕ} (length payload + 6) 0 in
    let none_left : over (packet crc payload) buf ≡ packet crc payload =
      ap (λ zs. packet crc payload ++ zs)
        (drop_all (length (packet crc payload)) buf
          (omega (arith, room, length-packet crc payload)))
      ∙ append-nil (packet crc payload) in
    rw
      (
        encode_packet_nonempty crc payload buf ne,
        write_packet-packet crc payload small ne h buf (omega (arith, room)),
      )
      (ap ok none_left)

-- When the checksums of the two ends are the same function, the packet that the host makes of a
-- payload of 1 to 32768 bytes is what the device takes from the front of its receive buffer,
-- whatever follows it there, and the device consumes exactly that packet.
pub decode_frame-encode_packet_vec :
    (crc : List ℕ → ℕ) (payload rest : List ℕ)
    → crc ≡ crc32
    → 0 < length payload
    → length payload ≤ 32768
    → (bytes : List ℕ) × (encode_packet_vec crc payload ≡ ok bytes)
      × (decode_frame (bytes ++ rest) ≡ ok (payload, length bytes))
decode_frame-encode_packet_vec crc payload rest same ne h =
    let size : length (packet crc32 payload) ≡ length payload + 6 = length-packet crc32 payload in
    (
      packet crc32 payload,
      ap (λ f. encode_packet_vec f payload) same
          ∙ encode_packet_vec-packet crc32 payload (crc32-lt payload) ne h,
      decode_frame-packet payload rest (omega arith) ∙ ap (λ n. ok (payload, n)) (sym size),
    )

-- When the checksums of the two ends are the same function, a payload of 1 to 32768 bytes that the
-- device frames into a buffer with room for it is what the host decodes from the bytes written.
pub decode_packet-encode_frame :
    (crc : List ℕ → ℕ) (payload out : List ℕ)
    → crc ≡ crc32
    → 0 < length payload
    → length payload ≤ 32768
    → length payload + 6 ≤ length out
    → (n : ℕ) × (out' : List ℕ) × (encode_frame payload out ≡ some (n, out'))
      × (length out' ≡ length out)
      × (decode_packet crc (take n out') ≡ ok payload)
decode_packet-encode_frame crc payload out same ne h room =
    let p = packet crc32 payload in
    let size : length payload + 6 ≡ length p = sym (length-packet crc32 payload) in
    (
      length payload + 6,
      over p out,
      encode_frame-packet payload out (omega arith) room,
      length-over p out (omega (arith, size)),
      ap (λ f. decode_packet f (take (length payload + 6) (over p out))) same
          ∙ ap (decode_packet crc32)
              (take-append (length payload + 6) p (drop (length p) out) size ∙ sym (append-nil p))
          ∙ decode_packet-packet crc32 payload (crc32-lt payload) ne h [],
    )
