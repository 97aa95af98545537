-- ===== src/DeviceApi/Frame/Fragments.antt =====
-- A message of any size: its chunks, the bytes that `encode_message` writes for them, and the room
-- that they need.
use rust_ems.Base.{
  ℕ, zero, suc, ◌+◌, ◌*◌, ◌/◌, ◌≤◌, ◌<◌, ◌≡◌, refl, sym, ap, ◌∙◌, List, [], ◌∷◌, ◌++◌, length, take,
  drop, take-append, drop-append, take-append-drop, append_assoc, length-append, length-take,
  length-drop, All, ok, arith, le→ltb, le→leb, lt→leb,
}
use rust_ems.Base.Buffer.{over, over-more}
use rust_ems.DeviceApi.Frame.{
  Flags, new_header, chunks_of, chunks, fragment_flags, encode_fragments, encode_message,
}
use rust_ems.DeviceApi.Frame.Stream.{wire, length-wire, encode_frame_lem}

abbrev pub flatten : List (List ℕ) → List ℕ
flatten [] = []
flatten (c ∷ cs) = c ++ flatten cs

-- The room that a list of chunks needs: eleven bytes for each frame, and the delimiter.
abbrev pub room : List (List ℕ) → ℕ
room [] = 0
room (c ∷ cs) = length c + 12 + room cs

flatten-chunks_of :
    (fuel : ℕ) (payload : List ℕ)
    → length payload ≤ fuel
    → flatten (chunks_of fuel payload) ≡ payload
unfolding chunks_of
flatten-chunks_of zero [] h = refl
flatten-chunks_of zero (b ∷ payload) h = absurd (omega arith)
flatten-chunks_of (suc fuel) [] h = refl
flatten-chunks_of (suc fuel) (b ∷ payload) h =
    ap (λ zs. take 512 (b ∷ payload) ++ zs)
      (flatten-chunks_of fuel (drop 512 (b ∷ payload))
        (omega (arith, length-drop 512 (b ∷ payload))))
    ∙ take-append-drop 512 (b ∷ payload)

chunks_of_small : (fuel : ℕ) (payload : List ℕ) → All (λ c. length c ≤ 512) (chunks_of fuel payload)
unfolding chunks_of
chunks_of_small zero payload = tt
chunks_of_small (suc fuel) [] = tt
chunks_of_small (suc fuel) (b ∷ payload) =
    (omega (arith, length-take 512 (b ∷ payload)), chunks_of_small fuel (drop 512 (b ∷ payload)))

-- One frame for each 512 bytes that were begun.
room-chunks_of :
    (fuel : ℕ) (payload : List ℕ)
    → room (chunks_of fuel payload) ≤ length payload + 12 * ((length payload + 511) / 512)
unfolding chunks_of
room-chunks_of zero payload = omega arith
room-chunks_of (suc fuel) [] = omega arith
room-chunks_of (suc fuel) (b ∷ payload) = omega (
  arith,
  length-take 512 (b ∷ payload),
  length-drop 512 (b ∷ payload),
  room-chunks_of fuel (drop 512 (b ∷ payload)),
)

-- The chunks make up the payload.
pub flatten-chunks : (payload : List ℕ) → flatten (chunks payload) ≡ payload
unfolding chunks
flatten-chunks payload = flatten-chunks_of (length payload) payload (omega arith)

pub chunks_small : (payload : List ℕ) → All (λ c. length c ≤ 512) (chunks payload)
unfolding chunks
chunks_small payload = chunks_of_small (length payload) payload

-- The bytes on the wire for a list of chunks.
abbrev pub frames : Flags → ℕ → List (List ℕ) → List ℕ
frames flags seq [] = []
frames flags seq (c ∷ cs) =
    (wire (new_header (fragment_flags flags cs) seq) c ++ (0 ∷ [])) ++ frames flags seq cs

pub length-frames :
    (flags : Flags) (seq : ℕ) (cs : List (List ℕ))
    → All (λ c. length c ≤ 512) cs
    → length (frames flags seq cs) ≤ room cs
length-frames flags seq [] h = omega arith
length-frames flags seq (c ∷ cs) h = omega (
  arith,
  length-append (wire (new_header (fragment_flags flags cs) seq) c ++ (0 ∷ []))
      (frames flags seq cs),
  length-append (wire (new_header (fragment_flags flags cs) seq) c) (0 ∷ []),
  length-wire (new_header (fragment_flags flags cs) seq) c h.0,
  length-frames flags seq cs h.1,
)

-- With the room, each chunk's frame goes behind those before it.
encode_fragments_lem :
    (flags : Flags) (seq : ℕ) (cs : List (List ℕ)) (done free : List ℕ)
    → All (λ c. length c ≤ 512) cs
    → room cs ≤ length free
    → encode_fragments flags seq cs (length done) (done ++ free)
      ≡ ok (length done + length (frames flags seq cs), done ++ over (frames flags seq cs) free)
unfolding encode_fragments
encode_fragments_lem flags seq [] done free h fits = λ i. ok (len i, done ++ free)
  where
    len : length done ≡ length done + 0
    len = omega arith
encode_fragments_lem flags seq (c ∷ cs) done free h fits =
    rw
      (
        le→ltb (length (done ++ free)) (length done) (omega (arith, length-append done free)),
        drop-append (length done) done free refl,
        encode_frame_lem (new_header (fragment_flags flags cs) seq) c free h.0 (omega arith),
        take-append (length done) done free refl,
      )
      ((λ i.
          encode_fragments flags seq cs (at i)
            (sym (append_assoc done front (drop (length front) free)) i))
        ∙ encode_fragments_lem flags seq cs (done ++ front) (drop (length front) free) h.1
            (omega (arith, length-drop (length front) free, length-front))
        ∙ (λ i. ok (len i, over-more done front (frames flags seq cs) free i)))
  where
    w : List ℕ
    w = wire (new_header (fragment_flags flags cs) seq) c

    front : List ℕ
    front = w ++ (0 ∷ [])

    length-front : length front ≤ length c + 12
    length-front = omega (
      arith,
      length-append w (0 ∷ []),
      length-wire (new_header (fragment_flags flags cs) seq) c h.0,
    )

    at : length done + (length w + 1) ≡ length (done ++ front)
    at = omega (arith, length-append done front, length-append w (0 ∷ []))

    len :
        length (done ++ front) + length (frames flags seq cs)
        ≡ length done + length (front ++ frames flags seq cs)
    len = omega (arith, length-append done front, length-append front (frames flags seq cs))

-- A payload of more than one frame: with the room, the front of the output becomes its frames.
pub encode_message_long :
    (flags : Flags) (seq : ℕ) (payload out : List ℕ)
    → 512 < length payload
    → length payload + 12 * ((length payload + 511) / 512) ≤ length out
    → encode_message flags seq payload out
      ≡ ok
          (length (frames flags seq (chunks payload)), over (frames flags seq (chunks payload)) out)
unfolding encode_message chunks
encode_message_long flags seq payload out h fits =
    rw
      (
        lt→leb (length payload) 512 h,
        encode_fragments_lem flags seq (chunks_of (length payload) payload) [] out
            (chunks_of_small (length payload) payload)
            (omega (arith, room-chunks_of (length payload) payload)),
      )
      (λ i. ok (len i, over (frames flags seq (chunks_of (length payload) payload)) out))
  where
    len :
        0 + length (frames flags seq (chunks_of (length payload) payload))
        ≡ length (frames flags seq (chunks_of (length payload) payload))
    len = omega arith

pub encode_message_short :
    (flags : Flags) (seq : ℕ) (payload out : List ℕ)
    → length payload ≤ 512
    → length payload + 12 ≤ length out
    → encode_message flags seq payload out
      ≡ ok (
        length (wire (new_header flags seq) payload) + 1,
        over (wire (new_header flags seq) payload ++ (0 ∷ [])) out,
      )
unfolding encode_message
encode_message_short flags seq payload out h fits =
    rw (le→leb (length payload) 512 h) (encode_frame_lem (new_header flags seq) payload out h fits)
