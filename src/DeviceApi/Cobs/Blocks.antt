-- ===== src/DeviceApi/Cobs/Blocks.antt =====
-- The rounds of the loop of `decode`: a block is copied, and a short one is followed by a zero.
use rust_ems.Base.{
  ℕ, suc, ◌+◌, ◌-◌, ◌≤◌, ◌≡◌, ◌≢◌, refl, sym, ap, ◌∙◌, List, [], ◌∷◌, ◌++◌, length, drop,
  append_assoc, Result, ok, length-append, lt→ltb, ne→==, arith, Option, some, append-nil,
  drop-drop,
}
use rust_ems.Base.Buffer.{set-append}
use rust_ems.DeviceApi.Cobs.{CobsError, set_byte, decode_block, decode_zero, decode_loop, go_on}

-- Writing at the end of what is written.
set_byte_next :
    (out rest : List ℕ) (x v : ℕ)
    → set_byte (out ++ (x ∷ rest)) (length out) v ≡ ok (out ++ (v ∷ rest))
unfolding set_byte
set_byte_next out rest x v =
    rw
      (lt→ltb (length out) (length (out ++ (x ∷ rest)))
        (omega (arith, length-append out (x ∷ rest))))
      (ap ok (set-append out rest x (length out) v refl))

-- A block that is all there is copied to the end of what is written.
decode_block_lem :
    (run input out rest : List ℕ)
    → length run ≤ length rest
    → decode_block (length run) (run ++ input) (length out) (out ++ rest)
      ≡ ok (input, length (out ++ run), (out ++ run) ++ drop (length run) rest)
unfolding decode_block
decode_block_lem [] input out rest h = rw append-nil
decode_block_lem (b ∷ run) input out [] h = absurd (omega arith)
decode_block_lem (b ∷ run) input out (x ∷ rest) h = rw (set_byte_next out rest x b) (
    (λ i. decode_block (length run) (run ++ input) (end i) (sym (append_assoc out (b ∷ []) rest) i))
    ∙ decode_block_lem run input (out ++ (b ∷ [])) rest (omega arith)
    ∙ ap (λ zs. ok (input, length zs, zs ++ drop (length run) rest))
        (append_assoc out (b ∷ []) run))
  where
    end : length out + 1 ≡ length (out ++ (b ∷ []))
    end = omega (arith, length-append out (b ∷ []))

-- One round: the code byte, its block, and what `decode_zero` makes of the code.
pub decode_loop_block :
    (fuel : ℕ) (run input out rest : List ℕ) (c : ℕ)
    → c ≡ length run + 1
    → length run ≤ length rest
    → decode_loop (suc fuel) (c ∷ (run ++ input)) (length out) (out ++ rest)
      ≡ go_on
          (decode_loop fuel input)
          (decode_zero c input (length (out ++ run)) ((out ++ run) ++ drop (length run) rest))
unfolding decode_loop
decode_loop_block fuel run input out rest c e h =
    let k : c - 1 ≡ length run = omega arith in
    rw (ne→== c 0 (omega arith)) (rw k (rw (decode_block_lem run input out rest h)))

pub decode_zero_short :
    (c y x : ℕ) (more out rest : List ℕ)
    → c ≢ 255
    → decode_zero c (y ∷ more) (length out) (out ++ (x ∷ rest))
      ≡ ok (length (out ++ (0 ∷ [])), (out ++ (0 ∷ [])) ++ rest)
unfolding decode_zero
decode_zero_short c y x more out rest h =
    rw (ne→== c 255 h)
      (rw (set_byte_next out rest x 0) (λ i. ok (end i, sym (append_assoc out (0 ∷ []) rest) i)))
  where
    end : length out + 1 ≡ length (out ++ (0 ∷ []))
    end = omega (arith, length-append out (0 ∷ []))

pub decode_zero_long : (more out : List ℕ) (w : ℕ) → decode_zero 255 more w out ≡ ok (w, out)
unfolding decode_zero
decode_zero_long more out w = refl

pub decode_zero_last : (c w : ℕ) (out : List ℕ) → decode_zero c [] w out ≡ ok (w, out)
unfolding decode_zero
decode_zero_last c w out = ground arith

abbrev pub decoded : List ℕ → List ℕ → List ℕ → Option (Result CobsError (ℕ × List ℕ))
decoded out text rest = some (ok (length (out ++ text), (out ++ text) ++ drop (length text) rest))

-- Text that is written in two parts.
pub decoded-append :
    (out front text rest : List ℕ)
    → decoded (out ++ front) text (drop (length front) rest) ≡ decoded out (front ++ text) rest
decoded-append out front text rest = λ i.
    some (ok (length (append_assoc out front text i), append_assoc out front text i ++ tails i))
  where
    tails : drop (length text) (drop (length front) rest) ≡ drop (length (front ++ text)) rest
    tails =
        drop-drop (length text) (length front) rest
        ∙ ap (λ n. drop n rest) (sym (length-append front text))
