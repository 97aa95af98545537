-- ===== src/DeviceApi/Frame/Raw.antt =====
-- The raw frame as a list: what `encode_frame_raw` writes and `decode_frame_raw` reads.
use rust_ems.Base.{
  ℕ, suc, ◌+◌, ◌/◌, ◌%◌, ◌≤◌, ◌≡◌, refl, sym, ap, ◌∙◌, List, [], ◌∷◌, ◌++◌, length, take, drop, set,
  take-append, drop-append, drop-drop, drop_cons, append_assoc, length-append, ok, bit_and, arith,
  le→ltb,
}
use rust_ems.Base.Buffer.{over, set-append}
use rust_ems.DeviceApi.Crc16.{crc16_ccitt}
use rust_ems.DeviceApi.Frame.{FrameHeader, write_crc, encode_frame_raw}

abbrev pub low_byte : ℕ → ℕ
low_byte x = bit_and x 0xff % 256

abbrev pub high_byte : ℕ → ℕ
high_byte x = x / 256 % 256

abbrev pub header_bytes : FrameHeader → ℕ → List ℕ
header_bytes h len =
    h.version
    ∷ (h.flags ∷ (low_byte h.seq ∷ (high_byte h.seq ∷ (low_byte len ∷ (high_byte len ∷ [])))))

abbrev pub frame_body : FrameHeader → List ℕ → List ℕ
frame_body h payload = header_bytes h (length payload) ++ payload

abbrev pub crc_bytes_of : List ℕ → List ℕ
crc_bytes_of body = low_byte (crc16_ccitt body) ∷ (high_byte (crc16_ccitt body) ∷ [])

abbrev pub raw_frame : FrameHeader → List ℕ → List ℕ
raw_frame h payload = frame_body h payload ++ crc_bytes_of (frame_body h payload)

write_crc_lem :
    (n : ℕ) (body rest : List ℕ) (x y : ℕ)
    → n ≡ length body
    → write_crc n (body ++ (x ∷ (y ∷ rest))) ≡ (body ++ crc_bytes_of body) ++ rest
unfolding write_crc
write_crc_lem n body rest x y e =
    (λ i.
      set (set (body ++ (x ∷ (y ∷ rest))) n (low_byte (crc16_ccitt (front i)))) (n + 1)
        (high_byte (crc16_ccitt (front i))))
    ∙ ap (λ zs. set zs (n + 1) (high_byte crc)) (set-append body (y ∷ rest) x n (low_byte crc) e)
    ∙ ap (λ zs. set zs (n + 1) (high_byte crc))
        (sym (append_assoc body (low_byte crc ∷ []) (y ∷ rest)))
    ∙ set-append (body ++ (low_byte crc ∷ [])) rest y (n + 1) (high_byte crc)
        (omega (arith, length-append body (low_byte crc ∷ [])))
    ∙ append_assoc body (low_byte crc ∷ []) (high_byte crc ∷ rest)
    ∙ sym (append_assoc body (crc_bytes_of body) rest)
  where
    crc : ℕ
    crc = crc16_ccitt body

    front : take n (body ++ (x ∷ (y ∷ rest))) ≡ body
    front = take-append n body (x ∷ (y ∷ rest)) e

drop_two :
    (n : ℕ) (xs : List ℕ)
    → n + 2 ≤ length xs
    → (x : ℕ) × (y : ℕ) × (drop n xs ≡ x ∷ (y ∷ drop (n + 2) xs))
drop_two n xs h =
    let (x, first) = drop_cons n xs (omega arith) in
    let (y, second) = drop_cons (suc n) xs (omega arith) in
    let two : suc (suc n) ≡ n + 2 = omega arith in
    (x, y, first ∙ ap (λ zs. x ∷ zs) (second ∙ ap (λ k. y ∷ drop k xs) two))

-- What the writes before the checksum leave, for a header of six bytes.
write_crc_frame :
    (h : FrameHeader) (payload six tail : List ℕ)
    → length payload ≤ 512
    → length six ≡ 6
    → length payload + 2 ≤ length tail
    → write_crc (6 + length payload) (
        header_bytes h (length payload % 65536)
        ++ (payload ++ drop (6 + length payload) (header_bytes h (length payload % 65536) ++ tail)))
      ≡ over (raw_frame h payload) (six ++ tail)
write_crc_frame h payload six tail small e room =
    let (x, y, slots) = drop_two n tail room in
    (λ i. write_crc (6 + n) (header_bytes h (fits i) ++ (payload ++ past i)))
    ∙ ap (λ zs. write_crc (6 + n) (frame_body h payload ++ zs)) slots
    ∙ write_crc_lem (6 + n) (frame_body h payload) (drop (n + 2) tail) x y (omega arith)
    ∙ ap (λ zs. raw_frame h payload ++ zs) rest
  where
    n : ℕ
    n = length payload

    fits : n % 65536 ≡ n
    fits = omega arith

    past : drop (6 + n) (header_bytes h (n % 65536) ++ tail) ≡ drop n tail
    past = sym (drop-drop n 6 (header_bytes h (n % 65536) ++ tail))

    len : 6 + (n + 2) ≡ length (raw_frame h payload)
    len = omega (arith, length-append payload (crc_bytes_of (frame_body h payload)))

    rest : drop (n + 2) tail ≡ drop (length (raw_frame h payload)) (six ++ tail)
    rest =
        ap (λ zs. drop (n + 2) zs) (sym (drop-append 6 six tail (sym e)))
        ∙ drop-drop (n + 2) 6 (six ++ tail)
        ∙ ap (λ k. drop k (six ++ tail)) len

-- With a payload that fits a frame and an output that fits the frame, the front of the output
-- becomes the raw frame.
pub encode_frame_raw_lem :
    (h : FrameHeader) (payload out : List ℕ)
    → length payload ≤ 512
    → 6 + length payload + 2 ≤ length out
    → encode_frame_raw h payload out ≡ ok (6 + length payload + 2, over (raw_frame h payload) out)
unfolding encode_frame_raw
encode_frame_raw_lem h payload (a ∷ (b ∷ (c ∷ (d ∷ (e ∷ (f ∷ tail)))))) small room =
    rw
      (
        le→ltb 512 (length payload) small,
        le→ltb (length (a ∷ (b ∷ (c ∷ (d ∷ (e ∷ (f ∷ tail))))))) (6 + length payload + 2) room,
      )
      (ap (λ zs. ok (6 + length payload + 2, zs))
        (write_crc_frame h payload (a ∷ (b ∷ (c ∷ (d ∷ (e ∷ (f ∷ [])))))) tail small refl
          (omega arith)))
encode_frame_raw_lem h payload _ small room = absurd (omega arith)

pub length-raw_frame :
    (h : FrameHeader) (payload : List ℕ) → length (raw_frame h payload) ≡ 6 + length payload + 2
length-raw_frame h payload =
    omega (arith, length-append payload (crc_bytes_of (frame_body h payload)))
