-- ===== src/DeviceApi/Cobs/Rounds.antt =====
-- The rounds of the loop of `encode`, one lemma for each way in which a round can go.
use rust_ems.Base.{
  ℕ, ◌+◌, ◌%◌, ◌≤◌, ◌<◌, ◌≡◌, ◌≢◌, refl, sym, ap, ◌∙◌, List, [], ◌∷◌, ◌++◌, length, drop,
  drop-append, append_assoc, Result, ok, ◌>>=◌, length-append, lt→ltb, ne→==, eq→==, arith,
}
use rust_ems.Base.Buffer.{set-append, over, over-append}
use rust_ems.DeviceApi.Cobs.{
  CobsError, Encoder, set_byte, close_run, encode_byte, encode_bytes, encode_last,
}
use rust_ems.DeviceApi.Cobs.Stuff.{length-run_snoc}

-- The state between two rounds: finished blocks, the slot of the current run, the run, and the
-- rest of the buffer.
abbrev pub between : List ℕ → ℕ → List ℕ → List ℕ → Encoder
between done slot run rest = record {
  code_index = length done;
  write = length done + length run + 1;
  code = length run + 1;
  output = done ++ (slot ∷ (run ++ rest));
}

set_byte-append :
    (xs ys : List ℕ) (y n v : ℕ)
    → n ≡ length xs
    → set_byte (xs ++ (y ∷ ys)) n v ≡ ok (xs ++ (v ∷ ys))
unfolding set_byte
set_byte-append xs ys y n v e =
    rw (lt→ltb n (length (xs ++ (y ∷ ys))) (omega (arith, length-append xs (y ∷ ys))))
      (ap ok (set-append xs ys y n v e))

Encoder_eq :
    {i i' w w' c c' : ℕ} {o o' : List ℕ}
    → i ≡ i'
    → w ≡ w'
    → c ≡ c'
    → o ≡ o'
    → ◌≡◌ {A = Encoder}
        (record { code_index = i; write = w; code = c; output = o })
        (record { code_index = i'; write = w'; code = c'; output = o' })
Encoder_eq p q r s = λ j. record { code_index = p j; write = q j; code = r j; output = s j }

-- Closing a run turns it into a finished block.
close_run-between :
    (done run rest : List ℕ) (slot y : ℕ)
    → close_run (between done slot run (y ∷ rest))
      ≡ ok (between (done ++ ((length run + 1) ∷ run)) y [] rest)
unfolding close_run
close_run-between done run rest slot y =
    rw (set_byte-append done (run ++ (y ∷ rest)) slot (length done) (length run + 1) refl) (
      ap ok (
        Encoder_eq (omega (arith, long)) (omega (arith, long)) refl
          (sym (append_assoc done ((length run + 1) ∷ run) (y ∷ rest)))))
  where
    long : length (done ++ ((length run + 1) ∷ run)) ≡ length done + length run + 1
    long = omega (arith, length-append done ((length run + 1) ∷ run))

pub encode_byte_zero :
    (done run rest : List ℕ) (slot y : ℕ)
    → encode_byte (between done slot run (y ∷ rest)) 0
      ≡ ok (between (done ++ ((length run + 1) ∷ run)) y [] rest)
unfolding encode_byte
encode_byte_zero done run rest slot y = close_run-between done run rest slot y

-- The state after a byte is added to the run, before the run is closed.
pushed_eq :
    (done run rest : List ℕ) (slot b : ℕ)
    → length run ≤ 253
    → ◌≡◌ {A = Encoder}
        (record {
          code_index = length done;
          write = length done + length run + 1 + 1;
          code = (length run + 1 + 1) % 256;
          output = (done ++ (slot ∷ run)) ++ (b ∷ rest);
        })
        (between done slot (run ++ (b ∷ [])) rest)
pushed_eq done run rest slot b h =
    Encoder_eq refl (omega (arith, length-run_snoc run b)) (omega (arith, length-run_snoc run b)) (
      append_assoc done (slot ∷ run) (b ∷ rest)
      ∙ ap (λ zs. done ++ (slot ∷ zs)) (sym (append_assoc run (b ∷ []) rest)))

push_byte :
    (done run rest : List ℕ) (slot b y : ℕ)
    → set_byte (done ++ (slot ∷ (run ++ (y ∷ rest)))) (length done + length run + 1) b
      ≡ ok ((done ++ (slot ∷ run)) ++ (b ∷ rest))
push_byte done run rest slot b y = rw (sym (append_assoc done (slot ∷ run) (y ∷ rest))) (
    set_byte-append (done ++ (slot ∷ run)) rest y _ b
      (omega (arith, length-append done (slot ∷ run))))

pub encode_byte_longer :
    (done run rest : List ℕ) (slot b y : ℕ)
    → b ≢ 0
    → length run < 253
    → encode_byte (between done slot run (y ∷ rest)) b
      ≡ ok (between done slot (run ++ (b ∷ [])) rest)
unfolding encode_byte
encode_byte_longer done run rest slot b y nz h = rw (ne→== b 0 nz) (
    rw (push_byte done run rest slot b y) (
      rw (ne→== ((length run + 1 + 1) % 256) 255 (omega arith))
        (ap ok (pushed_eq done run rest slot b (omega arith)))))

pub encode_byte_full :
    (done run rest : List ℕ) (slot b y z : ℕ)
    → b ≢ 0
    → length run ≡ 253
    → encode_byte (between done slot run (y ∷ (z ∷ rest))) b
      ≡ ok (between (done ++ (255 ∷ (run ++ (b ∷ [])))) z [] rest)
unfolding encode_byte
encode_byte_full done run rest slot b y z nz h = rw (ne→== b 0 nz) (
    rw (push_byte done run (z ∷ rest) slot b y) (
      rw (eq→== ((length run + 1 + 1) % 256) 255 (omega arith)) (
        ap close_run (pushed_eq done run (z ∷ rest) slot b (omega arith))
        ∙ close_run-between done (run ++ (b ∷ [])) rest slot z
        ∙ ap (λ (c : ℕ). ok (between (done ++ (c ∷ (run ++ (b ∷ [])))) z [] rest))
            (omega (arith, length-run_snoc run b)))))

abbrev pub Encoded : List ℕ → List ℕ → List ℕ → Result CobsError (ℕ × List ℕ)
Encoded done front buf = ok (length done + length front, done ++ over front buf)

-- A finished block moves from what is to be written to what is written.
pub move_block :
    (done block old more buf : List ℕ)
    → length block ≡ length old
    → Encoded (done ++ block) more buf ≡ Encoded done (block ++ more) (old ++ buf)
move_block done block old more buf e = λ j. ok (len j, body j)
  where
    len : length (done ++ block) + length more ≡ length done + length (block ++ more)
    len = omega (arith, length-append done block, length-append block more)

    body : (done ++ block) ++ over more buf ≡ done ++ over (block ++ more) (old ++ buf)
    body =
        append_assoc done block (over more buf)
        ∙ ap (λ zs. done ++ zs) (sym (over-append block old more buf e))

pub encode_last-between :
    (done run rest : List ℕ) (slot : ℕ)
    → encode_last (between done slot run rest)
      ≡ Encoded done ((length run + 1) ∷ run) (slot ∷ (run ++ rest))
unfolding encode_last
encode_last-between done run rest slot =
    rw (set_byte-append done (run ++ rest) slot (length done) (length run + 1) refl)
      (λ j. ok (len j, done ++ ((length run + 1) ∷ body j)))
  where
    len : length done + length run + 1 ≡ length done + length ((length run + 1) ∷ run)
    len = omega arith

    body : run ++ rest ≡ run ++ drop (length run) (run ++ rest)
    body = ap (λ zs. run ++ zs) (sym (drop-append (length run) run rest refl))

abbrev pub run_encoder : Encoder → List ℕ → Result CobsError (ℕ × List ℕ)
run_encoder s input = encode_bytes s input >>= encode_last

pub run_encoder_step :
    (s t : Encoder) (b : ℕ) (input : List ℕ)
    → encode_byte s b ≡ ok t
    → run_encoder s (b ∷ input) ≡ run_encoder t input
unfolding encode_bytes
run_encoder_step s t b input e = rw e
