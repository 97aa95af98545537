-- ===== src/Protocol/Packet.antt =====
-- protocol/src/packet.rs: a packet is its length, its payload and the payload's CRC-32, the numbers in
-- big-endian order. The checksum is the crate crc32fast's, which the sources call and do not
-- contain: a parameter.
use rust_ems.Base.{
  ℕ, ◌+◌, ◌*◌, ◌/◌, ◌%◌, List, [], ◌∷◌, length, take, drop, get_or, set, replicate, not, Result, ok,
  err, ◌>>=◌, ltb, ◌==◌, if◌then◌else◌, bit_or,
}
use rust_ems.Base.Buffer.{copy_at}
use rust_ems.Base.Words.{u32_from_be}

abbrev pub framing_overhead : ℕ
framing_overhead = 6

abbrev pub max_payload_len : ℕ
max_payload_len = 32768

pub data ProtocolError : Type 0 where
  payload_too_large : ℕ → ProtocolError
  buffer_too_small : ℕ → ℕ → ProtocolError
  crc_mismatch : ℕ → ℕ → ProtocolError
  empty_payload : ProtocolError

module _ (crc32 : List ℕ → ℕ) where
  -- The stores of the checksum, from `at` on; the casts to a byte truncate.
  unfoldable pub write_crc : ℕ → List ℕ → List ℕ → List ℕ
  write_crc at payload buf =
      let checksum = crc32 payload in
      let buf₃ = set buf at (checksum / 16777216 % 256) in
      let buf₄ = set buf₃ (at + 1) (checksum / 65536 % 256) in
      let buf₅ = set buf₄ (at + 2) (checksum / 256 % 256) in set buf₅ (at + 3) (checksum % 256)

  -- The writes stand behind the length check.
  unfoldable pub write_packet : List ℕ → List ℕ → Result ProtocolError (ℕ × List ℕ)
  write_packet payload buf =
      if ltb max_payload_len (length payload)
      then err (payload_too_large (length payload))
      else (let total = length payload + framing_overhead in
          if ltb (length buf) total
          then err (buffer_too_small total (length buf))
          else (let len = length payload % 65536 in
              let buf₀ = set buf 0 (len / 256 % 256) in
              let buf₁ = set buf₀ 1 (len % 256) in
              let buf₂ = copy_at buf₁ 2 payload in
              ok (total, write_crc (2 + length payload) payload buf₂)))

  unfoldable pub encode_packet : List ℕ → List ℕ → Result ProtocolError (ℕ × List ℕ)
  encode_packet [] buf = err empty_payload
  encode_packet (b ∷ payload) buf = write_packet (b ∷ payload) buf

  unfoldable pub encode_packet_vec : List ℕ → Result ProtocolError (List ℕ)
  encode_packet_vec payload = do
    (_, buf) ← encode_packet payload (replicate (length payload + framing_overhead) 0)
    ok buf

  -- The reads stand behind the length checks.
  unfoldable pub decode_packet : List ℕ → Result ProtocolError (List ℕ)
  decode_packet buf =
      if ltb (length buf) framing_overhead
      then err (buffer_too_small framing_overhead (length buf))
      else (let length_ = bit_or (get_or buf 0 0 * 256) (get_or buf 1 0) in
          if length_ == 0
          then err empty_payload
          else (let needed = length_ + framing_overhead in
              if ltb (length buf) needed
              then err (buffer_too_small needed (length buf))
              else (let payload = take length_ (drop 2 buf) in
                  let crc_offset = 2 + length_ in
                  let received =
                    u32_from_be (get_or buf crc_offset 0) (get_or buf (crc_offset + 1) 0)
                      (get_or buf (crc_offset + 2) 0) (get_or buf (crc_offset + 3) 0) in
                  let computed = crc32 payload in
                  if not (received == computed)
                  then err (crc_mismatch received computed)
                  else ok payload)))
