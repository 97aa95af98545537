-- ===== src/DeviceApi/Cobs/Stuff.antt =====
-- The stuffed form of a byte string as a recursion of its own, with no buffer and no indices.
use rust_ems.Base.{
  ℕ, ◌+◌, ◌/◌, ◌≤◌, ◌≡◌, ◌≢◌, refl, List, [], ◌∷◌, ◌++◌, length, All, ◌==◌, if◌then◌else◌,
  Bool-cases, inl, inr, ==_iff, length-append, All-append, arith,
}

-- `run` holds the bytes since the last code byte: none of them is zero, and there are at most 253.
unfoldable pub stuff : List ℕ → List ℕ → List ℕ
stuff run [] = (length run + 1) ∷ run
stuff run (b ∷ input) =
    let next = stuff [] input in
    let longer = stuff (run ++ (b ∷ [])) input in
    if b == 0
    then (length run + 1) ∷ (run ++ next)
    else if length run == 253
    then 255 ∷ ((run ++ (b ∷ [])) ++ next)
    else longer

pub stuff_nil : (run : List ℕ) → stuff run [] ≡ (length run + 1) ∷ run
unfolding stuff
stuff_nil run = refl

pub stuff_zero :
    (run input : List ℕ) → stuff run (0 ∷ input) ≡ (length run + 1) ∷ (run ++ stuff [] input)
unfolding stuff
stuff_zero run input = refl

pub stuff_full :
    (run input : List ℕ) (b : ℕ)
    → b ≢ 0
    → length run ≡ 253
    → stuff run (b ∷ input) ≡ 255 ∷ ((run ++ (b ∷ [])) ++ stuff [] input)
unfolding stuff
stuff_full run input b h e = ground arith

pub stuff_longer :
    (run input : List ℕ) (b : ℕ)
    → b ≢ 0
    → length run ≢ 253
    → stuff run (b ∷ input) ≡ stuff (run ++ (b ∷ [])) input
unfolding stuff
stuff_longer run input b h e = ground arith

-- The three cases of a byte that is added to a run.
pub data ByteCase (run : List ℕ) (b : ℕ) : Type 0 where
  ends_run : b ≡ 0 → ByteCase run b
  fills_run : b ≢ 0 → length run ≡ 253 → ByteCase run b
  extends_run : b ≢ 0 → length run ≢ 253 → ByteCase run b

pub ByteCase-total : (run : List ℕ) (b : ℕ) → ByteCase run b
ByteCase-total run b = elim (Bool-cases (b == 0)) [
  | inl z ↦ ends_run ((==_iff b 0).0 z)
  | inr nz ↦ elim (Bool-cases (length run == 253)) [
    | inl f ↦ fills_run (ground arith) ((==_iff _ 253).0 f)
    | inr nf ↦ extends_run (ground arith) (ground arith)
  ]
]

pub length-run_snoc : (run : List ℕ) (b : ℕ) → length (run ++ (b ∷ [])) ≡ length run + 1
length-run_snoc run b = omega (arith, length-append run (b ∷ []))

-- What the encoder's size check promises.
pub length-stuff :
    (run input : List ℕ)
    → length run ≤ 253
    → length (stuff run input) ≤ length run + length input + (length run + length input) / 254 + 1
unfolding stuff
length-stuff run [] h = omega arith
length-stuff run (b ∷ input) h = elim (ByteCase-total run b) [
  | ends_run z ↦
      ground (arith, length-append run (stuff [] input), length-stuff [] input (omega arith))
  | fills_run nz f ↦ ground (
    arith,
    length-append (run ++ (b ∷ [])) (stuff [] input),
    length-run_snoc run b,
    length-stuff [] input (omega arith),
  )
  | extends_run nz nf ↦ ground (arith, length-run_snoc run b, length-stuff (run ++ (b ∷ [])) input)
]

pub length-stuff_pos : (run input : List ℕ) → length run + 1 ≤ length (stuff run input)
unfolding stuff
length-stuff_pos run [] = omega arith
length-stuff_pos run (b ∷ input) = elim (ByteCase-total run b) [
  | ends_run z ↦ ground (arith, length-append run (stuff [] input))
  | fills_run nz f ↦
      ground (arith, length-append (run ++ (b ∷ [])) (stuff [] input), length-run_snoc run b)
  | extends_run nz nf ↦
      ground (arith, length-run_snoc run b, length-stuff_pos (run ++ (b ∷ [])) input)
]

-- No byte of the stuffed form is zero.
pub stuff_nonzero : (run input : List ℕ) → All (λ x. x ≢ 0) run → All (λ x. x ≢ 0) (stuff run input)
stuff_nonzero run [] h = rw (stuff_nil run) (omega arith, h)
stuff_nonzero run (b ∷ input) h = elim (ByteCase-total run b) [
  | ends_run z ↦
      rw (z, stuff_zero run input)
        ((omega arith), All-append (λ x. x ≢ 0) run (stuff [] input) (stuff_nonzero [] input tt) h)
  | fills_run nz f ↦ rw (stuff_full run input b nz f) (
    (omega arith),
    All-append (λ x. x ≢ 0) (run ++ (b ∷ [])) (stuff [] input) (stuff_nonzero [] input tt)
        (All-append (λ x. x ≢ 0) run (b ∷ []) (nz, tt) h),
  )
  | extends_run nz nf ↦
      rw (stuff_longer run input b nz nf)
        (stuff_nonzero (run ++ (b ∷ [])) input (All-append (λ x. x ≢ 0) run (b ∷ []) (nz, tt) h))
]

pub stuff_head : (run input : List ℕ) → (y : ℕ) × (ys : List ℕ) × (stuff run input ≡ y ∷ ys)
stuff_head run input = head_of (stuff run input) (length-stuff_pos run input)
  where
    head_of : (xs : List ℕ) → length run + 1 ≤ length xs → (y : ℕ) × (ys : List ℕ) × (xs ≡ y ∷ ys)
    head_of [] h = absurd (omega arith)
    head_of (y ∷ ys) h = (y, ys, refl)
