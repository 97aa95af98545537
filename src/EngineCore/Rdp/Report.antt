-- ===== src/EngineCore/Rdp/Report.antt =====
-- engine-core/src/comms/rdp.rs: every call of the server but `handle`, as one relation.
use rust_ems.Base.{ℕ, ◌≡◌, refl, List, Bool, false, Option, some, if_holds}
use rust_ems.EngineCore.Control.{Overrides, Calibrations}
use rust_ems.EngineCore.Faults.{FaultRecord, FaultStore, EventRecord, Severity, raise, resolve}
use rust_ems.EngineCore.Telemetry.{OutputChannels}
use rust_ems.EngineCore.Telemetry.Streams.{TelemetryStreams}
use rust_ems.EngineCore.Rdp.{
  Externals, RdpServer, on_disconnect, take_bench_test, note_fault, note_fault_cleared, note_knock,
  note_sync, note_protection_cut, note_limp,
}
use rust_ems.EngineCore.Rdp.Actuate.Keep.{IsAside, unmarked}
use rust_ems.EngineCore.Rdp.Push.{Pushed, poll_telemetry, poll_event}
use rust_ems.EngineCore.Rdp.Push.Keep.{IsKept, poll_telemetry-IsKept, poll_event-IsAside}

module _ {F : Type 0} (x : Externals F) where
  -- The calls of the control loop and of the task that talks to the host. The last case is what they do
  -- to the public fields themselves, which they may change in any way.
  pub data Report (s : RdpServer F) : RdpServer F → Type 0 where
    disconnected : Report s (on_disconnect s)
    tested : Report s (take_bench_test s).0
    faulted :
        (code : ℕ) (severity : Severity) (detail now_ms : ℕ)
        → Report s (note_fault x s code severity detail now_ms)
    recovered : (code now_ms : ℕ) → Report s (note_fault_cleared x s code now_ms)
    knocked :
        (cylinder retard_milli_deg now_ms : ℕ)
        → Report s (note_knock x s cylinder retard_milli_deg now_ms)
    synced : (gained : Bool) (teeth now_ms : ℕ) → Report s (note_sync x s gained teeth now_ms)
    protected : (reason now_ms : ℕ) → Report s (note_protection_cut x s reason now_ms)
    limped : (reason now_ms : ℕ) → Report s (note_limp x s reason now_ms)
    sampled :
        (outputs : OutputChannels F) (now_ms : ℕ) (out : List ℕ) (p : Pushed F)
        → poll_telemetry x s outputs now_ms out ≡ some p
        → Report s p.0
    notified : (out : List ℕ) → Report s (poll_event x s out).0
    accessed :
        (streams : TelemetryStreams) (faults : FaultStore) (events : List (EventRecord ℕ))
        (overrides : Overrides F) (calibrations : Calibrations F)
        → Report s (record s {
          streams = streams;
          faults = faults;
          events = events;
          overrides = overrides;
          calibrations = calibrations;
        })

  note_fault-IsAside :
      (s : RdpServer F) (code : ℕ) (severity : Severity) (detail now_ms : ℕ)
      → IsAside false s (note_fault x s code severity detail now_ms)
  unfolding note_fault
  note_fault-IsAside s code severity detail now_ms =
      if_holds (IsAside false s) (raise (x.vec FaultRecord) s.faults code severity detail now_ms).1
        (unmarked s _ refl refl) (unmarked s _ refl refl)

  note_fault_cleared-IsAside :
      (s : RdpServer F) (code now_ms : ℕ) → IsAside false s (note_fault_cleared x s code now_ms)
  unfolding note_fault_cleared
  note_fault_cleared-IsAside s code now_ms =
      if_holds (IsAside false s) (resolve s.faults code).1 (unmarked s _ refl refl)
        (unmarked s _ refl refl)

  returned-IsAside :
      (s : RdpServer F) (r : Option (Pushed F)) (p : Pushed F)
      → r ≡ some p
      → IsKept s r
      → IsAside false s p.0
  returned-IsAside s r p e k = rw e at k

  pub Report-IsAside : {s s' : RdpServer F} → Report s s' → IsAside false s s'
  Report-IsAside {s = s} disconnected = unmarked s _ refl refl
  Report-IsAside {s = s} tested = unmarked s _ refl refl
  Report-IsAside {s = s} (faulted code severity detail now_ms) =
      note_fault-IsAside s code severity detail now_ms
  Report-IsAside {s = s} (recovered code now_ms) = note_fault_cleared-IsAside s code now_ms
  Report-IsAside {s = s} (knocked cylinder retard_milli_deg now_ms) = unmarked s _ refl refl
  Report-IsAside {s = s} (synced gained teeth now_ms) = unmarked s _ refl refl
  Report-IsAside {s = s} (protected reason now_ms) = unmarked s _ refl refl
  Report-IsAside {s = s} (limped reason now_ms) = unmarked s _ refl refl
  Report-IsAside {s = s} (sampled outputs now_ms out p e) =
      returned-IsAside s (poll_telemetry x s outputs now_ms out) p e
        (poll_telemetry-IsKept x s outputs now_ms out)
  Report-IsAside {s = s} (notified out) = poll_event-IsAside x s out
  Report-IsAside {s = s} (accessed streams faults events overrides calibrations) =
      unmarked s _ refl refl
