-- ===== src/DeviceApi/Message.antt =====
-- device-api/src/message.rs: the message header, and the enumerations with their wire values.
pub mod RoundTrip
use rust_ems.Base.{
  ℕ, ◌+◌, ◌*◌, ◌/◌, ◌%◌, List, [], ◌∷◌, ◌++◌, length, drop, get_or, set, Option, none, some, Result,
  ok, err, ◌>>=◌, ok_or, ltb, ◌==◌, if◌then◌else◌, bit_and, bit_or,
}

abbrev pub message_header_len : ℕ
message_header_len = 3

pub data Kind : Type 0 where
  request response event telemetry : Kind

-- `kind as u8`
unfoldable pub kind_to_u8 : Kind → ℕ
kind_to_u8 request = 0
kind_to_u8 response = 1
kind_to_u8 event = 2
kind_to_u8 telemetry = 3

unfoldable pub kind_from_u8 : ℕ → Option Kind
kind_from_u8 v =
    if v == 0
    then some request
    else if v == 1
    then some response
    else if v == 2
    then some event
    else if v == 3
    then some telemetry
    else none

pub op_category : ℕ → ℕ
op_category op = op / 256 % 256

pub data ErrorCode : Type 0 where
  ok_code unknown_op bad_request not_found out_of_range read_only busy not_supported : ErrorCode
  fragmentation version_mismatch unauthorized : ErrorCode

pub error_to_u16 : ErrorCode → ℕ
error_to_u16 ok_code = 0
error_to_u16 unknown_op = 1
error_to_u16 bad_request = 2
error_to_u16 not_found = 3
error_to_u16 out_of_range = 4
error_to_u16 read_only = 5
error_to_u16 busy = 6
error_to_u16 not_supported = 7
error_to_u16 fragmentation = 8
error_to_u16 version_mismatch = 9
error_to_u16 unauthorized = 10

pub error_from_u16 : ℕ → Option ErrorCode
error_from_u16 v =
    if v == 0
    then some ok_code
    else if v == 1
    then some unknown_op
    else if v == 2
    then some bad_request
    else if v == 3
    then some not_found
    else if v == 4
    then some out_of_range
    else if v == 5
    then some read_only
    else if v == 6
    then some busy
    else if v == 7
    then some not_supported
    else if v == 8
    then some fragmentation
    else if v == 9
    then some version_mismatch
    else if v == 10
    then some unauthorized
    else none

pub data ValueType : Type 0 where
  u8 i8 u16 i16 u32 i32 f32 bool enum str : ValueType

pub value_to_u8 : ValueType → ℕ
value_to_u8 u8 = 0
value_to_u8 i8 = 1
value_to_u8 u16 = 2
value_to_u8 i16 = 3
value_to_u8 u32 = 4
value_to_u8 i32 = 5
value_to_u8 f32 = 6
value_to_u8 bool = 7
value_to_u8 enum = 8
value_to_u8 str = 9

pub value_from_u8 : ℕ → Option ValueType
value_from_u8 v =
    if v == 0
    then some u8
    else if v == 1
    then some i8
    else if v == 2
    then some u16
    else if v == 3
    then some i16
    else if v == 4
    then some u32
    else if v == 5
    then some i32
    else if v == 6
    then some f32
    else if v == 7
    then some bool
    else if v == 8
    then some enum
    else if v == 9
    then some str
    else none

pub record MessageHeader : Type 0 where
  pub kind : Kind
  pub op : ℕ

pub data MessageError : Type 0 where
  buffer_too_small : MessageError
  unknown_kind : ℕ → MessageError

-- The three writes stand behind the length check, so none is out of range.
unfoldable pub write_message_header : Kind → ℕ → List ℕ → Result MessageError (ℕ × List ℕ)
unfolding kind_to_u8
write_message_header kind op buf =
    if ltb (length buf) message_header_len
    then err buffer_too_small
    else (let buf₀ = set buf 0 (kind_to_u8 kind) in
        let buf₁ = set buf₀ 1 (bit_and op 0xff % 256) in
        let buf₂ = set buf₁ 2 (op / 256 % 256) in ok (message_header_len, buf₂))

-- The reads stand behind the length check, so the default of `get_or` is never read.
unfoldable pub read_message_header : List ℕ → Result MessageError (MessageHeader × List ℕ)
unfolding kind_from_u8
read_message_header buf = if ltb (length buf) message_header_len then err buffer_too_small else (do
  kind ← ok_or (kind_from_u8 (get_or buf 0 0)) (unknown_kind (get_or buf 0 0))
  let op = bit_or (get_or buf 1 0) (get_or buf 2 0 * 256)
  ok (record { kind = kind; op = op }, drop message_header_len buf))
