-- ===== src/DeviceApi/Message/RoundTrip.antt =====
-- What is written for a header or an enumeration is read back, and every other value is refused.
use rust_ems.Base.{
  ℕ, suc, ◌/◌, ◌%◌, ◌≤◌, ◌<◌, ◌≡◌, ◌↔◌, refl, List, [], ◌∷◌, length, drop, some, ok, arith, le→ltb,
  bit_and,
}
use rust_ems.Base.Bits.{join_bytes}
use rust_ems.DeviceApi.Message.{
  Kind, kind_to_u8, kind_from_u8, ErrorCode, error_to_u16, error_from_u16, ValueType, value_to_u8,
  value_from_u8, write_message_header, read_message_header,
}

-- `from_u8` inverts the discriminant of `Kind`, and accepts no other byte.
pub kind_from_u8_iff : (v : ℕ) (k : Kind) → (kind_from_u8 v ≡ some k) ↔ (v ≡ kind_to_u8 k)
unfolding kind_from_u8 kind_to_u8
kind_from_u8_iff v k = ground arith

-- A code from the wire parses to an error exactly when it is that error's code; every other value is
-- refused.
pub error_from_u16_iff :
    (v : ℕ) (e : ErrorCode) → (error_from_u16 v ≡ some e) ↔ (v ≡ error_to_u16 e)
unfolding error_from_u16 error_to_u16
error_from_u16_iff v e = ground arith

-- The same of `ValueType`.
pub value_from_u8_iff : (v : ℕ) (t : ValueType) → (value_from_u8 v ≡ some t) ↔ (v ≡ value_to_u8 t)
unfolding value_from_u8 value_to_u8
value_from_u8_iff v t = ground arith

-- A header written to a buffer that has room is read back, with the rest of the buffer as the body.
pub read-write_message_header :
    (k : Kind) (op : ℕ) (buf : List ℕ)
    → op < 65536
    → 3 ≤ length buf
    → (buf' : List ℕ) × (write_message_header k op buf ≡ ok (3, buf'))
      × (read_message_header buf' ≡ ok (record { kind = k; op = op }, drop 3 buf))
unfolding write_message_header read_message_header
read-write_message_header k op [] h room = absurd (omega arith)
read-write_message_header k op (a ∷ []) h room = absurd (omega arith)
read-write_message_header k op (a ∷ (b ∷ [])) h room = absurd (omega arith)
read-write_message_header k op (a ∷ (b ∷ (c ∷ body))) h room = (
  kind_to_u8 k ∷ ((bit_and op 255 % 256) ∷ ((op / 256 % 256) ∷ body)),
  rw (le→ltb (suc (suc (suc (length body)))) 3 room),
  rw (
    le→ltb (suc (suc (suc (length body)))) 3 room,
    (kind_from_u8_iff (kind_to_u8 k) k).1 refl,
    join_bytes op h,
  ),
)
