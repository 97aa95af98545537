-- ===== src/EngineCore/Rdp/Push.antt =====
-- engine-core/src/comms/rdp.rs: the messages that the device sends of its own accord. `none` outside is a panic of
-- the telemetry encoder, which `Telemetry.Frames.Total` rules out.
pub mod Keep
use rust_ems.Base.{
  ℕ, ◌+◌, List, ◌++◌, length, take, drop, Option, none, some, ok, err, ltb, if◌then◌else◌,
}
use rust_ems.DeviceApi.Message.{event, telemetry, message_header_len, write_message_header}
use rust_ems.DeviceApi.Cbor.{EventBody, event_body}
use rust_ems.EngineCore.Faults.{
  EventRecord, EventKind, fault_set, fault_cleared, knock, protection_cut, limp_mode, sync_state,
  config_changed, pop,
}
use rust_ems.EngineCore.Telemetry.{OutputChannels}
use rust_ems.EngineCore.Telemetry.Frames.{Due, encode_due_frame}
use rust_ems.EngineCore.Rdp.{Externals, RdpServer}
use rust_ems.EngineCore.Rdp.Respond.{write_body}

-- `rec.kind as u8`
abbrev pub event_kind_to_u8 : EventKind → ℕ
event_kind_to_u8 fault_set = 0
event_kind_to_u8 fault_cleared = 1
event_kind_to_u8 knock = 2
event_kind_to_u8 protection_cut = 3
event_kind_to_u8 limp_mode = 4
event_kind_to_u8 sync_state = 5
event_kind_to_u8 config_changed = 6

-- The server, the buffer, and the length of a message in it, if there is one.
abbrev pub Pushed : Type 0 → Type 0
Pushed F = RdpServer F × List ℕ × Option ℕ

module _ {F : Type 0} (x : Externals F) where
  -- The frame behind the header of `n` bytes.
  abbrev pub place_frame : RdpServer F → ℕ → List ℕ → Due → Pushed F
  place_frame s n out due = (
    record s { streams = due.slots },
    take n out ++ due.out,
    elim due.written as (λ _. Option ℕ) [ none ↦ none | some l ↦ some (n + l) ],
  )

  pub poll_telemetry : RdpServer F → OutputChannels F → ℕ → List ℕ → Option (Pushed F)
  poll_telemetry s outputs now_ms out =
      if ltb (length out) message_header_len
      then some (s, out, none)
      else elim (write_message_header telemetry 0x04f0 out) [
        | err _ ↦ some (s, out, none)
        | ok (n, out') ↦ elim (encode_due_frame x.f outputs s.streams now_ms (drop n out')) [
          | none ↦ none
          | some due ↦ some (place_frame s n out' due)
        ]
      ]

  abbrev pub to_body : EventRecord ℕ → EventBody
  to_body rec = record { kind = event_kind_to_u8 rec.kind; ts_ms = rec.ts_ms; a = rec.a; b = rec.b }

  -- An event taken out of the queue.
  pub push_event : RdpServer F → EventRecord ℕ → List ℕ → Pushed F
  push_event s rec out = elim (write_message_header event 0x06f0 out) [
    | err _ ↦ (s, out, none)
    | ok (n, out') ↦
        let (out'', size) = write_body x.cbor (event_body (to_body rec)) n out' in
        (s, out'', elim size as (λ _. Option ℕ) [ none ↦ none | some l ↦ some (n + l) ])
  ]

  pub poll_event : RdpServer F → List ℕ → Pushed F
  unfolding push_event
  poll_event s out =
      if ltb (length out) message_header_len
      then (s, out, none)
      else (let (events, first) = pop x.deque s.events in
          elim first as (λ _. Pushed F) [
            | none ↦ (s, out, none)
            | some rec ↦ push_event (record s { events = events }) rec out
          ])
