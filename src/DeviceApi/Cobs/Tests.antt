-- ===== src/DeviceApi/Cobs/Tests.antt =====
-- The encoder and the decoder on the inputs of the source's own tests, and the theorems about them at
-- concrete inputs.
use rust_ems.Base.{
  ℕ, ◌≤◌, ◌≡◌, ◌≢◌, refl, List, [], ◌∷◌, ◌++◌, length, take, replicate, All, ok, err, arith,
}
use rust_ems.DeviceApi.Cobs.{
  max_encoded_len, encode, encode_bytes, encode_byte, encode_last, decode, decode_loop,
  decode_block, decode_zero, truncated, unexpected_zero, output_too_small,
}
use rust_ems.DeviceApi.Cobs.RoundTrip.{decode-encode}
use rust_ems.DeviceApi.Cobs.Total.{decode_bounds}

abbrev sample : List ℕ
sample = 1 ∷ (0 ∷ (2 ∷ (0 ∷ (3 ∷ []))))

abbrev sample_code : List ℕ
sample_code = 2 ∷ (1 ∷ (2 ∷ (2 ∷ (2 ∷ (3 ∷ [])))))

encode-sample : encode sample (replicate 8 9) ≡ ok (6, sample_code ++ (9 ∷ (9 ∷ [])))
unfolding encode max_encoded_len encode_bytes encode_byte encode_last
encode-sample = refl

decode-sample : decode sample_code (replicate 6 9) ≡ ok (5, sample ++ (9 ∷ []))
unfolding decode decode_loop decode_block decode_zero
decode-sample = refl

decode_embedded_zero : decode (2 ∷ (1 ∷ (0 ∷ (1 ∷ [])))) (replicate 16 0) ≡ err unexpected_zero
unfolding decode decode_loop decode_block decode_zero
decode_embedded_zero = refl

pub decode_cut : decode (5 ∷ (1 ∷ [])) (replicate 520 0) ≡ err truncated
unfolding decode decode_loop decode_block decode_zero
decode_cut = refl

encode_no_room : encode (1 ∷ (2 ∷ (3 ∷ []))) (replicate 2 0) ≡ err output_too_small
unfolding encode max_encoded_len encode_bytes encode_byte encode_last
encode_no_room = refl

decode-encode_example :
    (n : ℕ) × (output' : List ℕ) × (encode sample (replicate 8 9) ≡ ok (n, output'))
    × (n ≤ max_encoded_len 5)
    × All (λ b. b ≢ 0) (take n output')
    × (decode (take n output') (replicate 6 9) ≡ ok (5, sample ++ (9 ∷ [])))
unfolding max_encoded_len
decode-encode_example =
    decode-encode sample (replicate 8 9) (replicate 6 9) (omega arith) (omega arith)

decode_bounds_example :
    (5 ≤ length sample_code)
    × (5 ≤ 6)
    × (length (sample ++ (9 ∷ [])) ≡ length (replicate {A = ℕ} 6 9))
decode_bounds_example = decode_bounds sample_code (replicate 6 9) decode-sample
