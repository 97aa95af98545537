-- ===== src/EngineCore/Comms.antt =====
-- engine-core/src/comms/mod.rs: the device's end of the TunerStudio protocol, one framed packet in
-- and one response out. `len` is a usize of 32 bits or more and does not wrap here, since every
-- length is below 2 ^ 18.
pub mod Requests
pub mod Total
use rust_ems.Base.{
  ℕ, zero, suc, ◌+◌, ◌-◌, ◌*◌, ◌/◌, ◌%◌, List, [], ◌∷◌, ◌++◌, length, take, drop, get_or, get_elem?,
  set, Bool, true, false, not, ◌||◌, Option, none, some, Result, ok, err, ltb, ◌==◌, if◌then◌else◌,
  bit_and, bit_xor,
}
use rust_ems.Base.Buffer.{copy_at}
use rust_ems.Base.Words.{u16_to_be, u16_from_be, u32_to_be, u32_from_be}

abbrev pub framing_overhead : ℕ
framing_overhead = 6

abbrev pub ts_response_ok : ℕ
ts_response_ok = 0

abbrev pub ts_response_rejected : ℕ
ts_response_rejected = 1

abbrev pub ts_response_unrecognised : ℕ
ts_response_unrecognised = 4

-- The commands are ASCII letters.
abbrev pub cmd_protocol : ℕ
cmd_protocol = 70

abbrev pub cmd_hello : ℕ
cmd_hello = 83

abbrev pub cmd_read : ℕ
cmd_read = 82

abbrev pub cmd_write : ℕ
cmd_write = 67

abbrev pub cmd_burn : ℕ
cmd_burn = 66

abbrev pub cmd_output : ℕ
cmd_output = 79

abbrev pub cmd_version : ℕ
cmd_version = 86

abbrev pub cmd_crc : ℕ
cmd_crc = 107

-- One bit; `mask` is all ones when the low bit is set.
crc_bit : ℕ → ℕ
crc_bit crc =
    let mask = (4294967296 - bit_and crc 1) % 4294967296 in
    bit_xor (crc / 2) (bit_and 0xedb88320 mask)

crc_bits : ℕ → ℕ → ℕ
crc_bits zero crc = crc
crc_bits (suc n) crc = crc_bits n (crc_bit crc)

crc_bytes : ℕ → List ℕ → ℕ
crc_bytes crc [] = crc
crc_bytes crc (byte ∷ data_) = crc_bytes (crc_bits 8 (bit_xor crc byte)) data_

-- `!crc` at the end.
unfoldable pub crc32 : List ℕ → ℕ
unfolding crc_bit crc_bits crc_bytes
crc32 data_ = 0xffffffff - crc_bytes 0xffffffff data_

pub data FrameError : Type 0 where
  incomplete too_large crc_mismatch : FrameError

-- The payload and the number of bytes consumed. The reads stand behind the length checks.
unfoldable pub decode_frame : List ℕ → Result FrameError (List ℕ × ℕ)
decode_frame buf =
    if ltb (length buf) framing_overhead
    then err incomplete
    else (let len = u16_from_be (get_or buf 0 0) (get_or buf 1 0) in
        let total = len + framing_overhead in
        if ltb (length buf) total
        then err incomplete
        else (let payload = take len (drop 2 buf) in
            let received =
              u32_from_be (get_or buf (2 + len) 0) (get_or buf (2 + len + 1) 0)
                (get_or buf (2 + len + 2) 0) (get_or buf (2 + len + 3) 0) in
            if not (crc32 payload == received) then err crc_mismatch else ok (payload, total)))

-- The total length and the buffer.
unfoldable pub encode_frame : List ℕ → List ℕ → Option (ℕ × List ℕ)
encode_frame payload out =
    let total = length payload + framing_overhead in
    if ltb (length out) total || ltb 65535 (length payload)
    then none
    else (let len = length payload % 65536 in
        let out₁ = copy_at out 0 (u16_to_be len) in
        let out₂ = copy_at out₁ 2 payload in
        some (total, copy_at out₂ (2 + length payload) (u32_to_be (crc32 payload))))

pub record TuneState : Type 0 where
  pub signature : List ℕ
  pub firmware_version : List ℕ
  pub config : List ℕ
  pub outputs : List ℕ
  pub burn_pending : Bool

pub be_u16 : List ℕ → ℕ → Option ℕ
be_u16 slice idx = elim (get_elem? slice idx) [
  | none ↦ none
  | some hi ↦ elim (get_elem? slice (idx + 1)) [ none ↦ none | some lo ↦ some (u16_from_be hi lo) ]
]

-- The response buffer as it is afterwards, and the response's length; a `None` leaves the buffer.
abbrev pub Response : Type 0
Response = Option (ℕ × List ℕ)

pub code_only : List ℕ → ℕ → Response
code_only [] code = none
code_only (_ ∷ resp) code = some (1, code ∷ resp)

pub ok_with : List ℕ → List ℕ → Response
ok_with resp data_ =
    if ltb (length resp) (1 + length data_)
    then none
    else some (1 + length data_, copy_at (set resp 0 ts_response_ok) 1 data_)

-- `slice.get(offset..offset + length)`
pub get_range : List ℕ → ℕ → ℕ → Option (List ℕ)
get_range slice offset length_ =
    if ltb (length slice) (offset + length_) then none else some (take length_ (drop offset slice))

-- The `match` on the slice: the answer made of it, or a rejection.
pub answer_slice : (List ℕ → List ℕ) → List ℕ → Option (List ℕ) → Response
answer_slice make resp (some slice) = ok_with resp (make slice)
answer_slice make resp none = code_only resp ts_response_rejected

-- Offset and length stand at `at` in the request.
pub handle_slice : (List ℕ → List ℕ) → List ℕ → ℕ → List ℕ → List ℕ → Response
unfolding be_u16 get_range answer_slice
handle_slice make req at slice resp = elim (be_u16 req at) [
  | none ↦ none
  | some offset ↦ elim (be_u16 req (at + 2)) [
    | none ↦ none
    | some length_ ↦ answer_slice make resp (get_range slice offset length_)
  ]
]

pub write_config : TuneState → List ℕ → ℕ → List ℕ → TuneState × Response
write_config state resp offset data_ =
    if ltb (length state.config) (offset + length data_)
    then (state, code_only resp ts_response_rejected)
    else (
      record state { config = copy_at state.config offset data_ },
      code_only resp ts_response_ok,
    )

pub handle_write : List ℕ → TuneState → List ℕ → TuneState × Response
unfolding be_u16 write_config
handle_write req state resp = elim (be_u16 req 3) [
  | none ↦ (state, none)
  | some offset ↦
      if ltb (length req) 5 then (state, none) else write_config state resp offset (drop 5 req)
]

-- The version string is "001".
pub dispatch : ℕ → List ℕ → TuneState → List ℕ → TuneState × Response
dispatch cmd req state resp =
    if cmd == cmd_hello
    then (state, ok_with resp state.signature)
    else if cmd == cmd_version
    then (state, ok_with resp state.firmware_version)
    else if cmd == cmd_protocol
    then (state, ok_with resp (48 ∷ (48 ∷ (49 ∷ []))))
    else if cmd == cmd_output
    then (state, handle_slice (λ slice. slice) req 1 state.outputs resp)
    else if cmd == cmd_read
    then (state, handle_slice (λ slice. slice) req 3 state.config resp)
    else if cmd == cmd_write
    then handle_write req state resp
    else if cmd == cmd_burn
    then (record state { burn_pending = true }, code_only resp ts_response_ok)
    else if cmd == cmd_crc
    then (state, handle_slice (λ slice. u32_to_be (crc32 slice)) req 3 state.config resp)
    else (state, code_only resp ts_response_unrecognised)

pub handle_request : List ℕ → TuneState → List ℕ → TuneState × Response
handle_request [] state resp = (state, none)
handle_request (cmd ∷ args) state resp = dispatch cmd (cmd ∷ args) state resp
