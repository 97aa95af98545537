-- ===== src/EngineCore/Rdp/Push/Keep.antt =====
-- What the messages that the device sends of its own accord leave alone.
use rust_ems.Base.{
  ℕ, refl, List, length, drop, false, Option, none, some, Option-cases, Result-cases, inl, inr, ltb,
  if_holds,
}
use rust_ems.DeviceApi.Message.{event, telemetry, message_header_len, write_message_header}
use rust_ems.EngineCore.Faults.{EventRecord, pop}
use rust_ems.EngineCore.Telemetry.{OutputChannels}
use rust_ems.EngineCore.Telemetry.Frames.{encode_due_frame}
use rust_ems.EngineCore.Rdp.{Externals, RdpServer}
use rust_ems.EngineCore.Rdp.Actuate.Keep.{IsAside, unmarked}
use rust_ems.EngineCore.Rdp.Push.{Pushed, poll_telemetry, push_event, poll_event}

-- A call that returns leaves the marks of the configuration alone.
abbrev pub IsKept : {F : Type 0} → RdpServer F → Option (Pushed F) → Type 0
IsKept s none = Unit
IsKept s (some p) = IsAside false s p.0

module _ {F : Type 0} (x : Externals F) where
  pub poll_telemetry-IsKept :
      (s : RdpServer F) (outputs : OutputChannels F) (now_ms : ℕ) (out : List ℕ)
      → IsKept s (poll_telemetry x s outputs now_ms out)
  unfolding poll_telemetry
  poll_telemetry-IsKept s outputs now_ms out =
      if_holds (IsKept s) (ltb (length out) message_header_len) (unmarked s s refl refl)
        (elim (Result-cases (write_message_header telemetry 0x04f0 out)) [
          | inr (e, bad) ↦ rw (bad, poll_telemetry) (unmarked s s refl refl)
          | inl ((n, out'), good) ↦
              elim (Option-cases (encode_due_frame x.f outputs s.streams now_ms (drop n out'))) [
                | inl panic ↦ rw (good, panic) _
                | inr (due, encoded) ↦
                    rw (good, encoded) (unmarked s (record s { streams = due.slots }) refl refl)
              ]
        ])

  push_event-IsAside :
      (s s' : RdpServer F) (rec : EventRecord ℕ) (out : List ℕ)
      → IsAside false s s'
      → IsAside false s (push_event x s' rec out).0
  unfolding push_event
  push_event-IsAside s s' rec out a = elim (Result-cases (write_message_header event 0x06f0 out)) [
    | inr (e, bad) ↦ rw (bad, push_event) a
    | inl ((n, out'), good) ↦ rw (good, push_event) a
  ]

  pub poll_event-IsAside : (s : RdpServer F) (out : List ℕ) → IsAside false s (poll_event x s out).0
  unfolding poll_event
  poll_event-IsAside s out =
      if_holds (λ (p : Pushed F). IsAside false s p.0) (ltb (length out) message_header_len)
        (unmarked s s refl refl)
        (elim (Option-cases (pop x.deque s.events).1) [
          | inl quiet ↦ rw quiet (unmarked s s refl refl)
          | inr (rec, first) ↦
              let s' : RdpServer F = record s { events = (pop x.deque s.events).0 } in
              rw first (push_event-IsAside s s' rec out (unmarked s s' refl refl))
        ])
