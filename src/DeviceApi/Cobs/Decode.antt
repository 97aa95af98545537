-- ===== src/DeviceApi/Cobs/Decode.antt =====
-- `decode` undoes the stuffing: it puts back the run, the zeros between blocks, and nothing else.
use rust_ems.Base.{
  ℕ, zero, suc, ◌+◌, ◌≤◌, ◌<◌, ◌≡◌, ◌≢◌, refl, sym, ap, ◌∙◌, List, [], ◌∷◌, ◌++◌, length, drop,
  append_assoc, ok, length-append, arith, append-nil, length-drop, drop_cons,
}
use rust_ems.Base.Buffer.{over}
use rust_ems.DeviceApi.Cobs.{decode_zero, decode_loop, go_on, decode}
use rust_ems.DeviceApi.Cobs.Stuff.{
  stuff, stuff_nil, stuff_zero, stuff_full, stuff_longer, length-run_snoc, stuff_head,
  ByteCase-total, ends_run, fills_run, extends_run,
}
use rust_ems.DeviceApi.Cobs.Blocks.{
  decode_loop_block, decode_zero_short, decode_zero_long, decode_zero_last, decoded, decoded-append,
}

abbrev Unstuffs : List ℕ → List ℕ → Type 0
Unstuffs run input =
    (fuel : ℕ) (out rest : List ℕ)
    → length (stuff run input) < fuel
    → length (run ++ input) ≤ length rest
    → decode_loop fuel (stuff run input) (length out) (out ++ rest)
      ≡ decoded out (run ++ input) rest

Unstuffs-nil : (run : List ℕ) → Unstuffs run []
Unstuffs-nil run zero out rest h room = absurd (omega arith)
Unstuffs-nil run (suc zero) out rest h room = absurd (omega (arith, ap length (stuff_nil run)))
Unstuffs-nil run (suc (suc fuel)) out rest h room =
    ap (λ zs. decode_loop (suc (suc fuel)) zs (length out) (out ++ rest)) code
    ∙ decode_loop_block (suc fuel) run [] out rest (length run + 1) refl fits
    ∙ ap (go_on (decode_loop (suc fuel) [])) (decode_zero_last (length run + 1) _ _)
    ∙ unfold decode_loop in ap (λ zs. decoded out zs rest) (sym (append-nil run))
  where
    fits : length run ≤ length rest
    fits = omega (arith, ap length (append-nil run))

    code : stuff run [] ≡ (length run + 1) ∷ (run ++ [])
    code = stuff_nil run ∙ ap (λ zs. (length run + 1) ∷ zs) (sym (append-nil run))

-- A short block, and the zero behind it, before a further block.
decode_loop_short :
    (fuel : ℕ) (run more out rest : List ℕ)
    → length run ≤ 253
    → length run < length rest
    → (y : ℕ) × (ys : List ℕ) × (more ≡ y ∷ ys)
    → decode_loop (suc fuel) ((length run + 1) ∷ (run ++ more)) (length out) (out ++ rest)
      ≡ decode_loop fuel more
          (length (out ++ (run ++ (0 ∷ []))))
          ((out ++ (run ++ (0 ∷ []))) ++ drop (length (run ++ (0 ∷ []))) rest)
decode_loop_short fuel run more out rest small room (y, ys, e) =
    decode_loop_block fuel run more out rest (length run + 1) refl (omega arith)
    ∙ (λ i.
        go_on (decode_loop fuel more)
          (decode_zero (length run + 1) (e i) (length (out ++ run)) ((out ++ run) ++ slot.1 i)))
    ∙ ap (go_on (decode_loop fuel more)) (
        decode_zero_short (length run + 1) y slot.0 ys (out ++ run) (drop (suc (length run)) rest)
          (omega arith))
    ∙ (λ i.
        decode_loop fuel more (length (append_assoc out run (0 ∷ []) i))
          (append_assoc out run (0 ∷ []) i ++ drop (len i) rest))
  where
    slot : (x : ℕ) × (drop (length run) rest ≡ x ∷ drop (suc (length run)) rest)
    slot = drop_cons (length run) rest room

    len : suc (length run) ≡ length (run ++ (0 ∷ []))
    len = omega (arith, length-run_snoc run 0)

Unstuffs-zero :
    (run input : List ℕ) → length run ≤ 253 → Unstuffs [] input → Unstuffs run (0 ∷ input)
Unstuffs-zero run input small ih zero out rest h room = absurd (omega arith)
Unstuffs-zero run input small ih (suc fuel) out rest h room =
    ap (λ zs. decode_loop (suc fuel) zs (length out) (out ++ rest)) (stuff_zero run input)
    ∙ decode_loop_short fuel run (stuff [] input) out rest small
        (omega (arith, length-append run (0 ∷ input))) (stuff_head [] input)
    ∙ ih fuel (out ++ front) (drop (length front) rest)
        (omega (arith, ap length (stuff_zero run input), length-append run (stuff [] input)))
        (omega (
          arith,
          length-drop (length front) rest,
          length-append run (0 ∷ input),
          length-run_snoc run 0,
        ))
    ∙ decoded-append out front input rest
    ∙ ap (λ zs. decoded out zs rest) (append_assoc run (0 ∷ []) input)
  where
    front : List ℕ
    front = run ++ (0 ∷ [])

Unstuffs-full :
    (run input : List ℕ) (b : ℕ)
    → b ≢ 0
    → length run ≡ 253
    → Unstuffs [] input
    → Unstuffs run (b ∷ input)
Unstuffs-full run input b nz f ih zero out rest h room = absurd (omega arith)
Unstuffs-full run input b nz f ih (suc fuel) out rest h room =
    ap (λ zs. decode_loop (suc fuel) zs (length out) (out ++ rest)) (stuff_full run input b nz f)
    ∙ decode_loop_block fuel front (stuff [] input) out rest 255
        (omega (arith, length-run_snoc run b))
        (omega (arith, length-run_snoc run b, length-append run (b ∷ input)))
    ∙ ap (go_on (decode_loop fuel (stuff [] input))) (decode_zero_long (stuff [] input) _ _)
    ∙ ih fuel (out ++ front) (drop (length front) rest)
        (omega
          (arith, ap length (stuff_full run input b nz f), length-append front (stuff [] input)))
        (omega (
          arith,
          length-drop (length front) rest,
          length-append run (b ∷ input),
          length-run_snoc run b,
        ))
    ∙ decoded-append out front input rest
    ∙ ap (λ zs. decoded out zs rest) (append_assoc run (b ∷ []) input)
  where
    front : List ℕ
    front = run ++ (b ∷ [])

Unstuffs-longer :
    (run input : List ℕ) (b : ℕ)
    → b ≢ 0
    → length run ≢ 253
    → Unstuffs (run ++ (b ∷ [])) input
    → Unstuffs run (b ∷ input)
Unstuffs-longer run input b nz nf ih fuel out rest h room =
    ap (λ zs. decode_loop fuel zs (length out) (out ++ rest)) (stuff_longer run input b nz nf)
    ∙ ih fuel out rest (omega (arith, ap length (stuff_longer run input b nz nf)))
        (omega (arith, ap length (append_assoc run (b ∷ []) input)))
    ∙ ap (λ zs. decoded out zs rest) (append_assoc run (b ∷ []) input)

unstuffs : (input run : List ℕ) → length run ≤ 253 → Unstuffs run input
unstuffs [] run h = Unstuffs-nil run
unstuffs (b ∷ input) run h = elim (ByteCase-total run b) [
  | ends_run z ↦ rw z (Unstuffs-zero run input h (unstuffs input [] (omega arith)))
  | fills_run nz f ↦ Unstuffs-full run input b nz f (unstuffs input [] (omega arith))
  | extends_run nz nf ↦
      Unstuffs-longer run input b nz nf
        (unstuffs input (run ++ (b ∷ [])) (omega (arith, length-run_snoc run b)))
]

-- `decode` of the stuffed form overwrites the front of the output by the input.
pub decode-stuff :
    (input output : List ℕ)
    → length input ≤ length output
    → decode (stuff [] input) output ≡ ok (length input, over input output)
unfolding decode
decode-stuff input output h = rw (
  unstuffs input [] (omega arith) (length (stuff [] input) + 1) [] output (omega arith) h,
  decode,
)
