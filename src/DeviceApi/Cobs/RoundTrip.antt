-- ===== src/DeviceApi/Cobs/RoundTrip.antt =====
-- `encode` and `decode` together.
use rust_ems.Base.{
  ℕ, ◌≤◌, ◌≡◌, ◌≢◌, refl, List, [], length, take, take-append, All, ok, arith, drop,
}
use rust_ems.Base.Buffer.{over}
use rust_ems.DeviceApi.Cobs.{max_encoded_len, encode, decode}
use rust_ems.DeviceApi.Cobs.Stuff.{stuff, stuff_nonzero, length-stuff}
use rust_ems.DeviceApi.Cobs.Encode.{encode-stuff}
use rust_ems.DeviceApi.Cobs.Decode.{decode-stuff}

-- Into a buffer of `max_encoded_len` bytes `encode` succeeds, and with `encoded` the bytes that it
-- reports: none is zero, there are at most `max_encoded_len` of them, and `decode` of them into a
-- buffer that has room for the input gives the input and leaves the rest of that buffer alone.
pub decode-encode :
    (input output scratch : List ℕ)
    → max_encoded_len (length input) ≤ length output
    → length input ≤ length scratch
    → (n : ℕ) × (output' : List ℕ) × (encode input output ≡ ok (n, output'))
      × (n ≤ max_encoded_len (length input))
      × All (λ b. b ≢ 0) (take n output')
      × (decode (take n output') scratch ≡ ok (length input, over input scratch))
unfolding max_encoded_len
decode-encode input output scratch room fits =
    let text : List ℕ = stuff [] input in
    let front : take (length text) (over text output) ≡ text =
      take-append _ text (drop (length text) output) refl in
    (
      length text,
      over text output,
      encode-stuff input output room,
      omega (arith, length-stuff [] input (omega arith)),
      rw front (stuff_nonzero [] input tt),
      rw front (decode-stuff input scratch fits),
    )
