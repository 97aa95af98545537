-- ===== src/DeviceApi/Cobs.antt =====
-- device-api/src/cobs.rs: byte stuffing that frees 0x00 for the frame delimiter. A slice is a list;
-- a function that writes into `output` returns the buffer with its result. What an error leaves in
-- the buffer is not modelled: no caller reads it.
pub mod Stuff
pub mod Rounds
pub mod Encode
pub mod Blocks
pub mod Decode
pub mod Total
pub mod RoundTrip
pub mod Tests
use rust_ems.Base.{
  ℕ, zero, suc, ◌+◌, ◌-◌, ◌/◌, ◌%◌, List, [], ◌∷◌, ◌++◌, Option, none, some, length, set, ltb, ◌==◌,
  if◌then◌else◌, Bool, true, false, ◌&&◌, not, Result, ok, err, ◌>>=◌,
}

pub data CobsError : Type 0 where
  output_too_small truncated unexpected_zero : CobsError

unfoldable pub max_encoded_len : ℕ → ℕ
max_encoded_len n = n + n / 254 + 1

-- The bounds-checked write.
pub set_byte : List ℕ → ℕ → ℕ → Result CobsError (List ℕ)
set_byte buf index value =
    if ltb index (length buf) then ok (set buf index value) else err output_too_small

-- The variables of the loop of `encode`: `code_index` is the slot of the current run's length.
pub record Encoder : Type 0 where
  pub code_index : ℕ
  pub write : ℕ
  pub code : ℕ
  pub output : List ℕ

-- The run is closed: its length goes into its slot, and the next slot is skipped.
pub close_run : Encoder → Result CobsError Encoder
unfolding set_byte
close_run s = do
  output ← set_byte s.output s.code_index s.code
  ok (record { code_index = s.write; write = s.write + 1; code = 1; output = output })

-- One round of the loop. `code` is a `u8`.
pub encode_byte : Encoder → ℕ → Result CobsError Encoder
unfolding close_run
encode_byte s byte = if byte == 0 then close_run s else (do
  output ← set_byte s.output s.write byte
  let t = record s { write = s.write + 1; code = (s.code + 1) % 256; output = output }
  if t.code == 0xff then close_run t else ok t)

pub encode_bytes : Encoder → List ℕ → Result CobsError Encoder
encode_bytes s [] = ok s
encode_bytes s (byte ∷ input) = do t ← encode_byte s byte; encode_bytes t input

pub encode_last : Encoder → Result CobsError (ℕ × List ℕ)
encode_last s = do output ← set_byte s.output s.code_index s.code; ok (s.write, output)

unfoldable pub encode : List ℕ → List ℕ → Result CobsError (ℕ × List ℕ)
encode input output =
    if ltb (length output) (max_encoded_len (length input)) then err output_too_small else (do
      s ← encode_bytes (record { code_index = 0; write = 1; code = 1; output = output }) input
      encode_last s)

-- The inner loop of `decode`: `block_len` bytes from the unread input, from `write` on. It returns
-- the input that is left, and the new `write` and `output`.
pub decode_block : ℕ → List ℕ → ℕ → List ℕ → Result CobsError (List ℕ × ℕ × List ℕ)
unfolding set_byte
decode_block zero input write output = ok (input, write, output)
decode_block (suc n) [] write output = err truncated
decode_block (suc n) (byte ∷ input) write output = do
  output' ← set_byte output write byte
  decode_block n input (write + 1) output'

abbrev pub is_empty : List ℕ → Bool
is_empty [] = true
is_empty (_ ∷ _) = false

-- The zero that a short run stands for, unless it is the last.
pub decode_zero : ℕ → List ℕ → ℕ → List ℕ → Result CobsError (ℕ × List ℕ)
unfolding set_byte
decode_zero code input write output =
    if not (code == 0xff) && not (is_empty input)
    then (do output' ← set_byte output write 0; ok (write + 1, output'))
    else ok (write, output)

abbrev pub go_on :
    (ℕ → List ℕ → Option (Result CobsError (ℕ × List ℕ)))
    → Result CobsError (ℕ × List ℕ)
    → Option (Result CobsError (ℕ × List ℕ))
go_on loop (err e) = some (err e)
go_on loop (ok (write, output)) = loop write output

-- The outer loop over the unread input; `none` is running out of fuel.
pub decode_loop : ℕ → List ℕ → ℕ → List ℕ → Option (Result CobsError (ℕ × List ℕ))
decode_loop zero input write output = none
decode_loop (suc fuel) [] write output = some (ok (write, output))
decode_loop (suc fuel) (code ∷ input) write output =
    if code == 0
    then some (err unexpected_zero)
    else elim (decode_block (code - 1) input write output) [
      | err e ↦ some (err e)
      | ok (rest, write', output') ↦
          go_on (decode_loop fuel rest) (decode_zero code rest write' output')
    ]

-- Each round reads a byte at least, so the fuel is enough (`Total.decode_loop_total`) and the
-- default stands for no run.
unfoldable pub decode : List ℕ → List ℕ → Result CobsError (ℕ × List ℕ)
decode input output = elim (decode_loop (length input + 1) input 0 output) [
  | none ↦ err truncated
  | some r ↦ r
]
