-- ===== src/DeviceApi/Frame.antt =====
-- device-api/src/frame.rs: VER FLAGS SEQ LEN PAYLOAD CRC16, COBS-stuffed on stream transports. A
-- function that writes into `out` returns the buffer with its result; `usize` does not wrap here,
-- since every length is below 2 ^ 16.
pub mod Flag
pub mod Raw
pub mod Parse
pub mod Stream
pub mod Fragments
use rust_ems.Base.{
  ℕ, zero, suc, ◌+◌, ◌*◌, ◌/◌, ◌%◌, List, [], ◌∷◌, ◌++◌, length, take, drop, get_or, set, replicate,
  Bool, true, false, not, Option, none, some, Result, ok, err, ◌>>=◌, map_err, ltb, leb, ◌==◌,
  if◌then◌else◌, bit_and, bit_or,
}
use rust_ems.Base.Buffer.{copy_at}
use rust_ems.DeviceApi.Cobs
use rust_ems.DeviceApi.Cobs.{CobsError, max_encoded_len}
use rust_ems.DeviceApi.Crc16.{crc16_ccitt}

abbrev pub version_1 : ℕ
version_1 = 1

abbrev pub header_len : ℕ
header_len = 6

abbrev pub crc_len : ℕ
crc_len = 2

abbrev pub max_payload_len : ℕ
max_payload_len = 512

abbrev pub max_raw_frame_len : ℕ
max_raw_frame_len = header_len + max_payload_len + crc_len

unfoldable pub max_encoded_frame_len : ℕ
max_encoded_frame_len = max_encoded_len max_raw_frame_len + 1

abbrev pub delimiter : ℕ
delimiter = 0

-- `Flags` is its byte.
abbrev pub Flags : Type 0
Flags = ℕ

abbrev pub response_requested : Flags
response_requested = 1

abbrev pub fragment : Flags
fragment = 2

abbrev pub last_fragment : Flags
last_fragment = 4

unfoldable pub has : Flags → ℕ → Bool
has flags bit = not (bit_and flags bit == 0)

unfoldable pub with_bit : Flags → ℕ → Flags
with_bit flags bit = bit_or flags bit

pub record FrameHeader : Type 0 where
  pub version : ℕ
  pub flags : Flags
  pub seq : ℕ

abbrev pub new_header : Flags → ℕ → FrameHeader
new_header flags seq = record { version = version_1; flags = flags; seq = seq }

pub data FrameError : Type 0 where
  payload_too_large output_too_small too_short length_mismatch crc_mismatch : FrameError
  unsupported_version : ℕ → FrameError
  cobs : CobsError → FrameError

-- The checksum of what stands below `crc_at`, written there low byte first.
pub write_crc : ℕ → List ℕ → List ℕ
write_crc crc_at out =
    let crc = crc16_ccitt (take crc_at out) in
    let out₇ = set out crc_at (bit_and crc 0xff % 256) in set out₇ (crc_at + 1) (crc / 256 % 256)

-- The writes stand behind the length check, so none is out of range.
pub encode_frame_raw : FrameHeader → List ℕ → List ℕ → Result FrameError (ℕ × List ℕ)
encode_frame_raw header payload out =
    if ltb max_payload_len (length payload)
    then err payload_too_large
    else (let total = header_len + length payload + crc_len in
        if ltb (length out) total
        then err output_too_small
        else (let len = length payload % 65536 in
            let out₀ = set out 0 header.version in
            let out₁ = set out₀ 1 header.flags in
            let out₂ = set out₁ 2 (bit_and header.seq 0xff % 256) in
            let out₃ = set out₂ 3 (header.seq / 256 % 256) in
            let out₄ = set out₃ 4 (bit_and len 0xff % 256) in
            let out₅ = set out₄ 5 (len / 256 % 256) in
            let out₆ = copy_at out₅ header_len payload in
            ok (total, write_crc (header_len + length payload) out₆)))

-- The frame is built in a buffer of its own, stuffed into `out`, and closed by the delimiter.
pub encode_frame : FrameHeader → List ℕ → List ℕ → Result FrameError (ℕ × List ℕ)
encode_frame header payload out = do
  (raw_len, raw) ← encode_frame_raw header payload (replicate max_raw_frame_len 0)
  (n, out') ← map_err cobs (Cobs.encode (take raw_len raw) out)
  if ltb n (length out') then ok (n + 1, set out' n delimiter) else err output_too_small

-- The reads stand behind the length checks, so the default of `get_or` is never read.
pub decode_frame_raw : List ℕ → Result FrameError (FrameHeader × List ℕ)
decode_frame_raw raw =
    if ltb (length raw) (header_len + crc_len)
    then err too_short
    else (let version = get_or raw 0 0 in
        if not (version == version_1)
        then err (unsupported_version version)
        else (let flags = get_or raw 1 0 in
            let seq = bit_or (get_or raw 2 0) (get_or raw 3 0 * 256) in
            let len = bit_or (get_or raw 4 0) (get_or raw 5 0 * 256) in
            if not (length raw == header_len + len + crc_len)
            then err length_mismatch
            else (let crc_at = header_len + len in
                let received = bit_or (get_or raw crc_at 0) (get_or raw (crc_at + 1) 0 * 256) in
                if not (received == crc16_ccitt (take crc_at raw))
                then err crc_mismatch
                else ok (
                  record { version = version; flags = flags; seq = seq },
                  drop header_len (take crc_at raw),
                ))))

-- `&scratch[..raw_len]` is in range: `Cobs.Total.decode_bounds`.
unfoldable pub decode_frame : List ℕ → List ℕ → Result FrameError (FrameHeader × List ℕ)
decode_frame encoded scratch = do
  (raw_len, scratch') ← map_err cobs (Cobs.decode encoded scratch)
  decode_frame_raw (take raw_len scratch')

-- `payload.chunks(512)`; the fuel is the payload's length, which is enough
-- (`Fragments.flatten-chunks`).
pub chunks_of : ℕ → List ℕ → List (List ℕ)
chunks_of zero payload = []
chunks_of (suc fuel) [] = []
chunks_of (suc fuel) (b ∷ payload) =
    take max_payload_len (b ∷ payload) ∷ chunks_of fuel (drop max_payload_len (b ∷ payload))

pub chunks : List ℕ → List (List ℕ)
chunks payload = chunks_of (length payload) payload

-- `chunks.peek().is_none()`
abbrev pub fragment_flags : Flags → List (List ℕ) → Flags
fragment_flags flags [] = with_bit (with_bit flags fragment) last_fragment
fragment_flags flags (_ ∷ _) = with_bit flags fragment

-- `out.get_mut(written..)`
abbrev pub suffix : List ℕ → ℕ → Result FrameError (List ℕ)
suffix out written =
    if ltb (length out) written then err output_too_small else ok (drop written out)

pub encode_fragments : Flags → ℕ → List (List ℕ) → ℕ → List ℕ → Result FrameError (ℕ × List ℕ)
encode_fragments flags seq [] written out = ok (written, out)
encode_fragments flags seq (chunk ∷ rest) written out = do
  free ← suffix out written
  (n, free') ← encode_frame (new_header (fragment_flags flags rest) seq) chunk free
  encode_fragments flags seq rest (written + n) (take written out ++ free')

pub encode_message : Flags → ℕ → List ℕ → List ℕ → Result FrameError (ℕ × List ℕ)
encode_message flags seq payload out =
    if leb (length payload) max_payload_len
    then encode_frame (new_header flags seq) payload out
    else encode_fragments flags seq (chunks payload) 0 out
