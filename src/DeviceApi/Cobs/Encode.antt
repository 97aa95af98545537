-- ===== src/DeviceApi/Cobs/Encode.antt =====
-- `encode` writes the stuffed form, whatever stood in the buffer.
use rust_ems.Base.{
  ℕ, suc, ◌+◌, ◌/◌, ◌≤◌, ◌<◌, ◌≡◌, ◌≢◌, sym, ap, ◌∙◌, List, [], ◌∷◌, ◌++◌, length, append_assoc, ok,
  err, length-append, lt→ltb, le→ltb, arith,
}
use rust_ems.Base.Buffer.{over, over-prefix}
use rust_ems.DeviceApi.Cobs.{output_too_small, max_encoded_len, encode_bytes, encode}
use rust_ems.DeviceApi.Cobs.Stuff.{
  stuff, stuff_nil, stuff_zero, stuff_full, stuff_longer, length-stuff, length-stuff_pos,
  length-run_snoc, ByteCase-total, ends_run, fills_run, extends_run,
}
use rust_ems.DeviceApi.Cobs.Rounds.{
  between, Encoded, run_encoder, run_encoder_step, move_block, encode_last-between,
  encode_byte_zero, encode_byte_longer, encode_byte_full,
}

-- The rooms that the three cases need: a byte that is left leaves at least one slot.
room_zero :
    (run input rest : List ℕ)
    → length (stuff run (0 ∷ input)) ≤ length rest + length run + 1
    → length (stuff [] input) ≤ length rest
room_zero run input rest room =
    omega (arith, ap length (stuff_zero run input), length-append run (stuff [] input))

room_full :
    (run input rest : List ℕ) (b : ℕ)
    → b ≢ 0
    → length run ≡ 253
    → length (stuff run (b ∷ input)) ≤ length rest + length run + 1
    → length (stuff [] input) + 1 ≤ length rest
room_full run input rest b nz f room = omega (
  arith,
  ap length (stuff_full run input b nz f),
  length-append (run ++ (b ∷ [])) (stuff [] input),
  length-run_snoc run b,
)

room_longer :
    (run input rest : List ℕ) (b : ℕ)
    → b ≢ 0
    → length run ≢ 253
    → length (stuff run (b ∷ input)) ≤ length rest + length run + 1
    → length (stuff (run ++ (b ∷ [])) input) ≤ length rest + length run + 1
room_longer run input rest b nz nf room = omega (arith, ap length (stuff_longer run input b nz nf))

abbrev Stuffs : List ℕ → List ℕ → Type 0
Stuffs run input =
    (done rest : List ℕ) (slot : ℕ)
    → length (stuff run input) ≤ length rest + length run + 1
    → run_encoder (between done slot run rest) input
      ≡ Encoded done (stuff run input) (slot ∷ (run ++ rest))

Stuffs-zero : (run input : List ℕ) → Stuffs [] input → Stuffs run (0 ∷ input)
Stuffs-zero run input ih done [] slot room =
    absurd (omega (arith, room_zero run input [] room, length-stuff_pos [] input))
Stuffs-zero run input ih done (y ∷ rest) slot room =
    let block : List ℕ = (length run + 1) ∷ run in
    run_encoder_step _ _ 0 input (encode_byte_zero done run rest slot y)
    ∙ ih (done ++ block) rest y (omega (arith, room_zero run input (y ∷ rest) room))
    ∙ move_block done block (slot ∷ run) (stuff [] input) (y ∷ rest) (omega arith)
    ∙ ap (λ zs. Encoded done zs (slot ∷ (run ++ (y ∷ rest)))) (sym (stuff_zero run input))

Stuffs-full :
    (run input : List ℕ) (b : ℕ)
    → b ≢ 0
    → length run ≡ 253
    → Stuffs [] input
    → Stuffs run (b ∷ input)
Stuffs-full run input b nz f ih done [] slot room =
    absurd (omega (arith, room_full run input [] b nz f room))
Stuffs-full run input b nz f ih done (y ∷ []) slot room =
    absurd (omega (arith, room_full run input (y ∷ []) b nz f room, length-stuff_pos [] input))
Stuffs-full run input b nz f ih done (y ∷ (z ∷ rest)) slot room =
    let block : List ℕ = 255 ∷ (run ++ (b ∷ [])) in
    run_encoder_step _ _ b input (encode_byte_full done run rest slot b y z nz f)
    ∙ ih (done ++ block) rest z (omega (arith, room_full run input (y ∷ (z ∷ rest)) b nz f room))
    ∙ move_block done block (slot ∷ (run ++ (y ∷ []))) (stuff [] input) (z ∷ rest)
        (omega (arith, length-run_snoc run b, length-run_snoc run y))
    ∙ ap (λ zs. Encoded done (block ++ stuff [] input) (slot ∷ zs))
        (append_assoc run (y ∷ []) (z ∷ rest))
    ∙ ap (λ zs. Encoded done zs (slot ∷ (run ++ (y ∷ (z ∷ rest)))))
        (sym (stuff_full run input b nz f))

Stuffs-longer :
    (run input : List ℕ) (b : ℕ)
    → b ≢ 0
    → length run < 253
    → Stuffs (run ++ (b ∷ [])) input
    → Stuffs run (b ∷ input)
Stuffs-longer run input b nz f ih done [] slot room = absurd (
    omega (
      arith,
      room_longer run input [] b nz (omega arith) room,
      length-stuff_pos (run ++ (b ∷ [])) input,
      length-run_snoc run b,
    ))
Stuffs-longer run input b nz f ih done (y ∷ rest) slot room =
    let front : List ℕ = stuff (run ++ (b ∷ [])) input in
    run_encoder_step _ _ b input (encode_byte_longer done run rest slot b y nz f)
    ∙ ih done rest slot (
        omega
          (arith, room_longer run input (y ∷ rest) b nz (omega arith) room, length-run_snoc run b))
    ∙ ap (λ zs. ok (length done + length front, done ++ zs))
        (over-prefix front (slot ∷ (run ++ (b ∷ []))) (slot ∷ (run ++ (y ∷ []))) rest
          (omega (arith, length-run_snoc run b, length-run_snoc run y))
          (omega (arith, length-run_snoc run b, length-stuff_pos (run ++ (b ∷ [])) input)))
    ∙ ap (λ zs. Encoded done front (slot ∷ zs)) (append_assoc run (y ∷ []) rest)
    ∙ ap (λ zs. Encoded done zs (slot ∷ (run ++ (y ∷ rest))))
        (sym (stuff_longer run input b nz (omega arith)))

Stuffs-nil : (run : List ℕ) → Stuffs run []
unfolding encode_bytes
Stuffs-nil run done rest slot room = rw (stuff_nil run) (encode_last-between done run rest slot)

-- From any state between two rounds, given the room, the stuffed form is what gets written.
stuffs : (input run : List ℕ) → length run ≤ 253 → Stuffs run input
stuffs [] run h = Stuffs-nil run
stuffs (b ∷ input) run h = elim (ByteCase-total run b) [
  | ends_run z ↦ rw z (Stuffs-zero run input (stuffs input [] (omega arith)))
  | fills_run nz f ↦ Stuffs-full run input b nz f (stuffs input [] (omega arith))
  | extends_run nz nf ↦
      Stuffs-longer run input b nz (omega arith)
        (stuffs input (run ++ (b ∷ [])) (omega (arith, length-run_snoc run b)))
]

-- If the output has the length that `max_encoded_len` gives, `encode` succeeds: it overwrites the
-- front of the output by the stuffed input, reports its length, and leaves the rest alone.
pub encode-stuff :
    (input output : List ℕ)
    → max_encoded_len (length input) ≤ length output
    → encode input output ≡ ok (length (stuff [] input), over (stuff [] input) output)
unfolding encode max_encoded_len
encode-stuff input [] h = absurd (omega arith)
encode-stuff input (slot ∷ rest) h =
    rw (le→ltb (suc (length rest)) (length input + length input / 254 + 1) h) (
      stuffs input [] (omega arith) [] rest slot
        (omega (arith, length-stuff [] input (omega arith)))
      ∙ ap (λ (n : ℕ). ok (n, over (stuff [] input) (slot ∷ rest))) (omega arith))

-- A shorter output is refused before anything is written.
pub encode_small :
    (input output : List ℕ)
    → length output < max_encoded_len (length input)
    → encode input output ≡ err output_too_small
unfolding encode
encode_small input output h = rw (lt→ltb _ _ h)
