-- ===== src/DeviceApi/Cobs/Total.antt =====
-- `decode` on any input at all: its loop ends within its fuel, and what it reports to have written
-- fits the input and the buffer.
use rust_ems.Base.{
  ℕ, zero, suc, ◌+◌, ◌-◌, ◌≤◌, ◌<◌, ◌≡◌, ◌≢◌, refl, List, [], ◌∷◌, length, Result, ok, err, ne→==,
  arith, none, some, false, ◌==◌, length-set, Result-cases, inl, inr, Bool-cases,
}
use rust_ems.DeviceApi.Cobs.{
  CobsError, set_byte, decode_block, decode_zero, decode_loop, decode, unexpected_zero,
}

set_byte_ok :
    (buf : List ℕ) (i v : ℕ) {buf' : List ℕ}
    → set_byte buf i v ≡ ok buf'
    → (i < length buf) × (length buf' ≡ length buf)
unfolding set_byte
set_byte_ok buf i v e = ground (arith, length-set buf i v)

-- A block leaves less input by its length, and writes as much.
decode_block_ok :
    (n : ℕ) (input : List ℕ) (w : ℕ) (out : List ℕ) {rest : List ℕ} {w' : ℕ} {out' : List ℕ}
    → w ≤ length out
    → decode_block n input w out ≡ ok (rest, w', out')
    → (length rest + n ≡ length input)
      × (w' ≡ w + n)
      × (w' ≤ length out)
      × (length out' ≡ length out)
unfolding decode_block
decode_block_ok zero input w out h e = ground arith
decode_block_ok (suc n) [] w out h e = cc
decode_block_ok (suc n) (b ∷ input) w out {rest} {w'} {out'} h e =
    elim (Result-cases (set_byte out w b)) [
      | inl (o, s) ↦
          let next : decode_block n input (w + 1) o ≡ ok (rest, w', out') = rw s at e in
          omega (
            arith,
            set_byte_ok out w b s,
            decode_block_ok n input (w + 1) o (omega (arith, set_byte_ok out w b s)) next,
          )
      | inr (x, s) ↦ cc
    ]

decode_zero_ok :
    (c : ℕ) (input : List ℕ) (w : ℕ) (out : List ℕ) {w' : ℕ} {out' : List ℕ}
    → w ≤ length out
    → decode_zero c input w out ≡ ok (w', out')
    → (w' ≤ w + 1) × (w' ≤ length out) × (length out' ≡ length out)
unfolding decode_zero set_byte
decode_zero_ok c input w out {w'} {out'} h e = ground (arith, length-set out w 0)

-- A result that reports at most as many bytes as were read, all inside the buffer.
abbrev pub Within : ℕ → List ℕ → Result CobsError (ℕ × List ℕ) → Type 0
Within most out (ok (n, out')) = (n ≤ most) × (n ≤ length out) × (length out' ≡ length out)
Within most out (err e) = Unit {0}

Within-weaken :
    (most more : ℕ) (out out' : List ℕ) (r : Result CobsError (ℕ × List ℕ))
    → most ≤ more
    → length out' ≡ length out
    → Within most out' r
    → Within more out r
Within-weaken most more out out' (ok (n, o)) h e v = omega arith
Within-weaken most more out out' (err x) h e v = tt

abbrev Runs : ℕ → List ℕ → ℕ → List ℕ → Type 0
Runs fuel input w out =
    (r : Result CobsError (ℕ × List ℕ)) × (decode_loop fuel input w out ≡ some r)
    × Within (w + length input) out r

Runs-zero :
    (fuel c : ℕ) (input rest : List ℕ) (w w' : ℕ) (out out' : List ℕ)
    → (c == 0) ≡ false
    → w ≤ length out
    → decode_block (c - 1) input w out ≡ ok (rest, w', out')
    → ((w'' : ℕ) (out'' : List ℕ) → w'' ≤ length out'' → Runs fuel rest w'' out'')
    → Runs (suc fuel) (c ∷ input) w out
unfolding decode_loop
Runs-zero fuel c input rest w w' out out' nz h e loop =
    elim (Result-cases (decode_zero c rest w' out')) [
      | inl ((w'', out''), z) ↦
          let b = decode_block_ok (c - 1) input w out h e in
          let k = decode_zero_ok c rest w' out' (omega (arith, b)) z in
          let (r, runs, fits) = loop w'' out'' (omega (arith, b, k)) in
          (
            r,
            rw nz (rw e (rw z runs)),
            Within-weaken _ _ out out'' r (omega (arith, b, k, ne→== c 0)) (omega (arith, b, k))
                fits,
          )
      | inr (x, z) ↦ (err x, rw nz (rw e (rw z)), tt)
    ]

-- With fuel beyond the input's length the loop ends.
decode_loop-Runs :
    (fuel : ℕ) (input : List ℕ) (w : ℕ) (out : List ℕ)
    → w ≤ length out
    → length input < fuel
    → Runs fuel input w out
decode_loop-Runs zero input w out h f = absurd (omega arith)
decode_loop-Runs (suc fuel) [] w out h f = (ok (w, out), unfold decode_loop in refl, omega arith)
decode_loop-Runs (suc fuel) (c ∷ input) w out h f = elim (Bool-cases (c == 0)) [
  | inl z ↦ (err unexpected_zero, unfold decode_loop in rw z, tt)
  | inr nz ↦ elim (Result-cases (decode_block (c - 1) input w out)) [
    | inl ((rest, w', out'), e) ↦ Runs-zero fuel c input rest w w' out out' nz h e (λ w'' out'' g.
        decode_loop-Runs fuel rest w'' out'' g
          (omega (arith, decode_block_ok (c - 1) input w out h e)))
    | inr (x, e) ↦ (err x, unfold decode_loop in rw nz (rw e), tt)
  ]
]

-- On every input `decode` ends by itself: its fuel never runs out.
pub decode_loop_total :
    (input output : List ℕ) → decode_loop (length input + 1) input 0 output ≢ none
decode_loop_total input output e =
    let (r, runs, fits) =
      decode_loop-Runs (length input + 1) input 0 output (omega arith) (omega arith) in
    cc

-- On every input, a `decode` that succeeds reports at most as many bytes as the input has and as the
-- buffer has, and the buffer keeps its length.
pub decode_bounds :
    (input output : List ℕ) {n : ℕ} {output' : List ℕ}
    → decode input output ≡ ok (n, output')
    → (n ≤ length input) × (n ≤ length output) × (length output' ≡ length output)
decode_bounds input output {n} {output'} e =
    let (r, runs, fits) =
      decode_loop-Runs (length input + 1) input 0 output (omega arith) (omega arith) in
    let same : r ≡ ok (n, output') = unfold decode in (rw (runs, decode) at e) in
    let fits' : Within (0 + length input) output (ok (n, output')) = rw same at fits in omega arith
