-- ===== src/Protocol/Tests.antt =====
-- The two ends of the TunerStudio protocol at concrete inputs.
use rust_ems.Base.{
  ℕ, ◌+◌, ◌≡◌, refl, List, [], ◌∷◌, ◌++◌, length, take, replicate, some, ok, false, arith,
}
use rust_ems.Base.Buffer.{over}
use rust_ems.Protocol.Packet.{encode_packet_vec, decode_packet}
use rust_ems.Protocol.Opcode.{read_page, write_chunk, to_payload}
use rust_ems.Protocol.Exchange.{decode_frame-encode_packet_vec, decode_packet-encode_frame}
use rust_ems.EngineCore.Comms.{TuneState, crc32, decode_frame, encode_frame, handle_request}
use rust_ems.EngineCore.Comms.Requests.{handle_request-write_read}
use rust_ems.EngineCore.Comms.Total.{IsGood, handle_request-IsGood}

-- The check value of the IEEE CRC-32.
crc32_check : crc32 (49 ∷ (50 ∷ (51 ∷ (52 ∷ (53 ∷ (54 ∷ (55 ∷ (56 ∷ (57 ∷ []))))))))) ≡ 0xcbf43926
unfolding crc32
crc32_check = refl

decode_frame-encode_packet_vec_example :
    (bytes : List ℕ) × (encode_packet_vec crc32 (83 ∷ []) ≡ ok bytes)
    × (decode_frame (bytes ++ (7 ∷ [])) ≡ ok (83 ∷ [], length bytes))
decode_frame-encode_packet_vec_example =
    decode_frame-encode_packet_vec crc32 (83 ∷ []) (7 ∷ []) refl (omega arith) (omega arith)

decode_packet-encode_frame_example :
    (n : ℕ) × (out' : List ℕ) × (encode_frame (0 ∷ (9 ∷ [])) (replicate 20 0) ≡ some (n, out'))
    × (length out' ≡ 20)
    × (decode_packet crc32 (take n out') ≡ ok (0 ∷ (9 ∷ [])))
decode_packet-encode_frame_example =
    decode_packet-encode_frame crc32 (0 ∷ (9 ∷ [])) (replicate 20 0) refl (omega arith)
      (omega arith) (omega arith)

abbrev tune : TuneState
tune = record {
  signature = 82 ∷ [];
  firmware_version = 49 ∷ [];
  config = replicate 8 0;
  outputs = 5 ∷ [];
  burn_pending = false;
}

handle_request-write_read_example :
    (state' : TuneState) × (handle_request
        (to_payload (write_chunk 0 2 (6 ∷ (7 ∷ []))))
        tune
        (0 ∷ [])
      ≡ (state', some (1, 0 ∷ [])))
    × (length state'.config ≡ 8)
    × (handle_request (to_payload (read_page 0 2 2)) state' (replicate 4 0)
        ≡ (state', some (1 + 2, over (0 ∷ (6 ∷ (7 ∷ []))) (replicate 4 0))))
handle_request-write_read_example =
    handle_request-write_read 0 0 2 (6 ∷ (7 ∷ [])) tune 0 [] (replicate 4 0) (omega arith)
      (omega arith) (omega arith) (omega arith)

handle_request-IsGood_example :
    IsGood tune (replicate 4 0) (handle_request (66 ∷ []) tune (replicate 4 0))
handle_request-IsGood_example = handle_request-IsGood tune (replicate 4 0) (66 ∷ [])
