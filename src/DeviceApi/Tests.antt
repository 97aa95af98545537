-- ===== src/DeviceApi/Tests.antt =====
-- The wire layer on the inputs of the source's own tests, and its theorems at concrete inputs.
use rust_ems.Base.{
  ℕ, ◌+◌, ◌≤◌, ◌≡◌, ◌≢◌, refl, List, [], ◌∷◌, ◌++◌, take, get_or, replicate, All, some, ok, err,
  arith,
}
use rust_ems.Heapless.{list_vec}
use rust_ems.DeviceApi.Cobs.{max_encoded_len}
use rust_ems.DeviceApi.Crc16.{crc16_ccitt}
use rust_ems.DeviceApi.Crc16.Detect.{crc16_ccitt_detects}
use rust_ems.DeviceApi.Message.{request, fragmentation, write_message_header, read_message_header}
use rust_ems.DeviceApi.Message.RoundTrip.{read-write_message_header}
use rust_ems.DeviceApi.Frame.{
  new_header, encode_frame, decode_frame, decode_frame_raw, crc_mismatch, max_encoded_frame_len,
  delimiter, has, fragment,
}
use rust_ems.DeviceApi.Frame.Raw.{frame_body, crc_bytes_of}
use rust_ems.DeviceApi.Frame.Parse.{decode_frame_raw_damaged}
use rust_ems.DeviceApi.Frame.Stream.{decode_frame-encode_frame}
use rust_ems.DeviceApi.Defrag.{Defragmenter, new, feed}
use rust_ems.DeviceApi.Defrag.Reassemble.{active, feed_overflow}

abbrev sample : List ℕ
sample = 1 ∷ (0 ∷ (2 ∷ (0 ∷ (3 ∷ []))))

-- The check value of CRC-16/CCITT-FALSE.
crc_check : crc16_ccitt (49 ∷ (50 ∷ (51 ∷ (52 ∷ (53 ∷ (54 ∷ (55 ∷ (56 ∷ (57 ∷ []))))))))) ≡ 0x29b1
unfolding crc16_ccitt
crc_check = refl

crc16_ccitt_detects_example : crc16_ccitt (7 ∷ (1 ∷ (8 ∷ []))) ≢ crc16_ccitt (7 ∷ (2 ∷ (8 ∷ [])))
crc16_ccitt_detects_example =
    crc16_ccitt_detects (7 ∷ []) (8 ∷ []) 1 2 (omega arith) (omega arith) (omega arith)

read-write_message_header_example :
    (buf' : List ℕ) × (write_message_header request 0x0101 (replicate 4 171) ≡ ok (3, buf'))
    × (read_message_header buf' ≡ ok (record { kind = request; op = 0x0101 }, 171 ∷ []))
read-write_message_header_example =
    read-write_message_header request 0x0101 (replicate 4 171) (omega arith) (omega arith)

decode_frame_raw_damaged_example :
    decode_frame_raw (
      frame_body (new_header 1 0x1234) (5 ∷ (9 ∷ (7 ∷ [])))
      ++ crc_bytes_of (frame_body (new_header 1 0x1234) (5 ∷ (6 ∷ (7 ∷ [])))))
    ≡ err crc_mismatch
decode_frame_raw_damaged_example =
    decode_frame_raw_damaged (new_header 1 0x1234) (5 ∷ []) (7 ∷ []) 6 9 refl (omega arith)
      (omega arith) (omega arith) (omega arith) (omega arith)

max_encoded_frame_len-le : max_encoded_frame_len ≤ 524
unfolding max_encoded_frame_len max_encoded_len
max_encoded_frame_len-le = omega arith

decode_frame-encode_frame_example :
    (n : ℕ) × (out' : List ℕ) × (encode_frame (new_header 1 0x1234) sample (replicate 524 0)
      ≡ ok (n + 1, out'))
    × (n + 1 ≤ max_encoded_frame_len)
    × (get_or out' n 1 ≡ delimiter)
    × All (λ b. b ≢ 0) (take n out')
    × (decode_frame (take n out') (replicate 520 0) ≡ ok (new_header 1 0x1234, sample))
decode_frame-encode_frame_example =
    decode_frame-encode_frame 1 0x1234 sample (replicate 524 0) (replicate 520 0) (omega arith)
      (omega arith) max_encoded_frame_len-le (omega arith)

abbrev half_way : Defragmenter
half_way = record { buffer = 1 ∷ (2 ∷ []); current_seq = some 42 }

feed_overflow_example :
    feed list_vec 4 (new_header fragment 42) (3 ∷ (4 ∷ (5 ∷ []))) half_way
    ≡ (new, err fragmentation)
unfolding has
feed_overflow_example =
    feed_overflow list_vec 4 (new_header fragment 42) (3 ∷ (4 ∷ (5 ∷ []))) refl half_way
      (1 ∷ (2 ∷ [])) (active refl refl) (omega arith)
