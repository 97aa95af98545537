-- ===== src/DeviceApi/Frame/Stream.antt =====
-- Frames on a stream transport: the stuffed frame and its delimiter, and what a receiver makes of it.
use rust_ems.Base.{
  ℕ, suc, ◌+◌, ◌≤◌, ◌<◌, ◌≡◌, ◌≢◌, refl, sym, ap, ◌∙◌, List, [], ◌∷◌, ◌++◌, length, take, drop, set,
  get_or, replicate, take-append, drop_cons, append_assoc, length-append, length-replicate, All, ok,
  arith, lt→ltb,
}
use rust_ems.Base.Buffer.{over, length-over, set-append, get_or-append}
use rust_ems.DeviceApi.Cobs.{max_encoded_len}
use rust_ems.DeviceApi.Cobs.Stuff.{stuff, stuff_nonzero, length-stuff}
use rust_ems.DeviceApi.Cobs.Encode.{encode-stuff}
use rust_ems.DeviceApi.Cobs.Decode.{decode-stuff}
use rust_ems.DeviceApi.Frame.{
  FrameHeader, encode_frame, decode_frame, new_header, max_payload_len, max_raw_frame_len,
  max_encoded_frame_len, delimiter,
}
use rust_ems.DeviceApi.Frame.Raw.{raw_frame, length-raw_frame, encode_frame_raw_lem}
use rust_ems.DeviceApi.Frame.Parse.{decode_frame_raw_lem}

-- The bytes that go over the wire for one frame, without the delimiter.
abbrev pub wire : FrameHeader → List ℕ → List ℕ
wire h payload = stuff [] (raw_frame h payload)

-- Writing one byte behind what was written.
set-over :
    (xs buf : List ℕ) (n v : ℕ)
    → n ≡ length xs
    → n < length buf
    → set (over xs buf) n v ≡ over (xs ++ (v ∷ [])) buf
set-over xs buf n v e h =
    let (x, slot) = drop_cons n buf h in
    (λ i. set (xs ++ drop (sym e i) buf) n v)
    ∙ ap (λ zs. set (xs ++ zs) n v) slot
    ∙ set-append xs (drop (suc n) buf) x n v e
    ∙ ap (λ k. xs ++ (v ∷ drop k buf)) len
    ∙ sym (append_assoc xs (v ∷ []) (drop (length (xs ++ (v ∷ []))) buf))
  where
    len : suc n ≡ length (xs ++ (v ∷ []))
    len = omega (arith, length-append xs (v ∷ []))

pub length-wire :
    (h : FrameHeader) (payload : List ℕ)
    → length payload ≤ 512
    → length (wire h payload) ≤ length payload + 11
length-wire h payload small =
    omega (arith, length-stuff [] (raw_frame h payload) (omega arith), length-raw_frame h payload)

-- With a payload that fits a frame and an output with eleven bytes of room and one for the
-- delimiter, the front of the output becomes the stuffed frame and a zero.
pub encode_frame_lem :
    (h : FrameHeader) (payload out : List ℕ)
    → length payload ≤ 512
    → length payload + 12 ≤ length out
    → encode_frame h payload out
      ≡ ok (length (wire h payload) + 1, over (wire h payload ++ (0 ∷ [])) out)
unfolding encode_frame max_encoded_len
encode_frame_lem h payload out small room =
    rw
      (
        encode_frame_raw_lem h payload blank small (omega (arith, length-replicate {A = ℕ} 520 0)),
        take-append (6 + length payload + 2) (raw_frame h payload)
            (drop (length (raw_frame h payload)) blank) (sym (length-raw_frame h payload)),
        encode-stuff (raw_frame h payload) out
            (unfold max_encoded_len in omega (arith, length-raw_frame h payload)),
        lt→ltb (length (wire h payload)) (length (over (wire h payload) out)) fits,
      )
      (ap (λ zs. ok (length (wire h payload) + 1, zs))
        (set-over (wire h payload) out (length (wire h payload)) 0 refl small'))
  where
    blank : List ℕ
    blank = replicate 520 0

    small' : length (wire h payload) < length out
    small' = omega (arith, length-wire h payload small)

    fits : length (wire h payload) < length (over (wire h payload) out)
    fits = omega (arith, small', length-over (wire h payload) out (omega (arith, small')))

pub decode_frame_lem :
    (h : FrameHeader) (payload scratch : List ℕ)
    → h.version ≡ 1
    → h.seq < 65536
    → length payload ≤ 512
    → length payload + 8 ≤ length scratch
    → decode_frame (wire h payload) scratch ≡ ok (h, payload)
unfolding decode_frame
decode_frame_lem h payload scratch v s l room =
    rw
      (
        decode-stuff (raw_frame h payload) scratch (omega (arith, length-raw_frame h payload)),
        take-append (length (raw_frame h payload)) (raw_frame h payload)
            (drop (length (raw_frame h payload)) scratch) refl,
      )
      (decode_frame_raw_lem h payload v s (omega arith))

-- A payload of at most 512 bytes always fits a buffer of `max_encoded_frame_len` bytes: `encode_frame`
-- writes the frame and reports its length; the last byte is the delimiter and no byte before it is
-- zero; and `decode_frame` of the bytes before the delimiter, into a scratch buffer of
-- `max_raw_frame_len` bytes, gives back the header and the payload.
pub decode_frame-encode_frame :
    (flags seq : ℕ) (payload out scratch : List ℕ)
    → seq < 65536
    → length payload ≤ max_payload_len
    → max_encoded_frame_len ≤ length out
    → max_raw_frame_len ≤ length scratch
    → (n : ℕ) × (out' : List ℕ) × (encode_frame (new_header flags seq) payload out
        ≡ ok (n + 1, out'))
      × (n + 1 ≤ max_encoded_frame_len)
      × (get_or out' n 1 ≡ delimiter)
      × All (λ b. b ≢ 0) (take n out')
      × (decode_frame (take n out') scratch ≡ ok (new_header flags seq, payload))
unfolding max_encoded_frame_len max_encoded_len
decode_frame-encode_frame flags seq payload out scratch s small room roomy = (
  length w,
  over (w ++ (0 ∷ [])) out,
  encode_frame_lem h payload out small (omega arith),
  omega (arith, length-wire h payload small),
  last,
  rw front (stuff_nonzero [] (raw_frame h payload) tt),
  rw front (decode_frame_lem h payload scratch refl s small (omega arith)),
)
  where
    h : FrameHeader
    h = new_header flags seq

    w : List ℕ
    w = wire h payload

    rest : List ℕ
    rest = drop (length (w ++ (0 ∷ []))) out

    front : take (length w) (over (w ++ (0 ∷ [])) out) ≡ w
    front =
        ap (take (length w)) (append_assoc w (0 ∷ []) rest)
        ∙ take-append (length w) w (0 ∷ rest) refl

    last : get_or (over (w ++ (0 ∷ [])) out) (length w) 1 ≡ 0
    last =
        ap (λ zs. get_or zs (length w) 1) (append_assoc w (0 ∷ []) rest)
        ∙ get_or-append w rest 0 (length w) 1 refl
