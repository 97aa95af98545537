-- ===== src/EngineCore/Rdp/Respond.antt =====
-- engine-core/src/comms/rdp.rs: the responses and their header. A function that writes into `out` gives the
-- buffer back, and the length of the payload in it.
use rust_ems.Base.{ℕ, ◌+◌, List, ◌++◌, take, drop, Option, none, some, ok, err}
use rust_ems.DeviceApi.Message.{ErrorCode, fragmentation, request, response, write_message_header}
use rust_ems.DeviceApi.Cbor.{Cbor, Body, error_response_body}

abbrev pub Reply : Type 0
Reply = List ℕ × ℕ

module _ {F : Type 0} (cbor : Cbor F) where
  -- A body behind the header of `n` bytes.
  abbrev pub write_body : Body F → ℕ → List ℕ → List ℕ × Option ℕ
  write_body body n out =
      let (rest, size) = cbor.encode_to_slice body (drop n out) in (take n out ++ rest, size)

  abbrev pub status_body : ErrorCode → ℕ → Body F
  status_body code detail =
      error_response_body (record { code = code; detail = detail; message = none })

  unfoldable pub respond_status : ℕ → ErrorCode → ℕ → List ℕ → Reply
  respond_status opcode code detail out = elim (write_message_header response opcode out) [
    | err _ ↦ (out, 0)
    | ok (n, out') ↦
        let (out'', size) = write_body (status_body code detail) n out' in
        elim size [ none ↦ (out'', 0) | some l ↦ (out'', n + l) ]
  ]

  unfoldable pub respond_body : ℕ → Body F → List ℕ → Reply
  unfolding respond_status
  respond_body opcode body out = elim (write_message_header response opcode out) [
    | err _ ↦ (out, 0)
    | ok (n, out') ↦
        let (out'', size) = write_body body n out' in
        elim size [ none ↦ respond_status opcode fragmentation 0 out'' | some l ↦ (out'', n + l) ]
  ]

  -- The host's requests in the same format.
  pub build_request : ℕ → Body F → List ℕ → List ℕ × Option ℕ
  build_request opcode body out = elim (write_message_header request opcode out) [
    | err _ ↦ (out, none)
    | ok (n, out') ↦
        let (out'', size) = write_body body n out' in
        elim size [ none ↦ (out'', none) | some l ↦ (out'', some (n + l)) ]
  ]

pub build_request_empty : ℕ → List ℕ → List ℕ × Option ℕ
build_request_empty opcode out = elim (write_message_header request opcode out) [
  | err _ ↦ (out, none)
  | ok (n, out') ↦ (out', some n)
]
