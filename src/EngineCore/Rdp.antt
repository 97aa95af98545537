-- ===== src/EngineCore/Rdp.antt =====
-- engine-core/src/comms/rdp.rs: the state of the device's RDP server, and what the control loop tells it.
-- An i32 of an event is its bits. CBOR, the vectors and the bytes of a string are not part of the repository:
-- they are the record `Externals`.
pub mod Respond
pub mod Describe
pub mod Settings
pub mod Actuate
pub mod Push
pub mod Report
pub mod Handle
use Prim.Native.String.{String}
use rust_ems.Base.{
  ℕ, zero, suc, ◌+◌, ◌*◌, List, [], ◌∷◌, Bool, true, false, Option, none, some, if◌then◌else◌,
}
use rust_ems.F32.{F32}
use rust_ems.Heapless.{HeaplessVec, HeaplessDeque, HeaplessRetain}
use rust_ems.DeviceApi.Cbor.{Cbor}
use rust_ems.EngineCore.Config.{EngineConfig}
use rust_ems.EngineCore.Params.Hash.{fnv1a, fnv_offset, catalog_hash, config_crc}
use rust_ems.Base.Words.{u16_to_le, u32_to_le}
use rust_ems.EngineCore.Control.{
  BenchTestSpec, Calibrations, default_calibrations, Overrides, new_overrides, clear_all,
}
use rust_ems.EngineCore.Faults.{
  FaultRecord, FaultStore, new_store, EventRecord, EventKind, fault_set, fault_cleared, knock,
  protection_cut, limp_mode, sync_state, Severity, raise, resolve, push,
}
use rust_ems.EngineCore.Telemetry.{OutputChannels, ChannelMeta, wire_to_u8, telemetry_catalog}
use rust_ems.EngineCore.Telemetry.Streams.{TelemetryStreams, new_streams, clear}

-- What the server uses of code that the repository does not hold, and the size of the configuration's
-- struct.
pub record Externals (F : Type 0) : Type 1 where
  pub f : F32 F
  pub cbor : Cbor F
  pub vec : (A : Type 0) → HeaplessVec A
  pub deque : HeaplessDeque (EventRecord ℕ)
  pub retain : HeaplessRetain (ℕ × ℕ) FaultRecord
  pub as_bytes : String → List ℕ
  pub config_bytes : ℕ

pub record DeviceIdentity : Type 0 where
  pub fw_version : String
  pub board : ℕ
  pub mcu : String
  pub cylinders : ℕ
  pub capabilities : ℕ
  pub device_id : List ℕ

abbrev pub sim_identity : ℕ → DeviceIdentity
sim_identity cylinders = record {
  fw_version = "RustEMS 0.1.0";
  board = 0;
  mcu = "x86-sim";
  cylinders = cylinders;
  capabilities = 71;
  device_id = 0x51 ∷ (0x4d ∷ (0 ∷ (0 ∷ (0 ∷ (0 ∷ (0 ∷ (0 ∷ (0 ∷ (0 ∷ (0 ∷ (0 ∷ [])))))))))));
}

-- The context of a request but for the configuration in memory, which the requests change.
pub record RdpContext (F : Type 0) : Type 0 where
  pub flash : EngineConfig F
  pub defaults : EngineConfig F
  pub outputs : OutputChannels F
  pub now_ms : ℕ
  pub engine_running : Bool

pub record RdpActions : Type 0 where
  pub save : Bool
  pub reboot : Bool
  pub enter_bootloader : Bool

abbrev pub no_actions : RdpActions
no_actions = record { save = false; reboot = false; enter_bootloader = false }

pub record RdpServer (F : Type 0) : Type 0 where
  pub identity : DeviceIdentity
  pub streams : TelemetryStreams
  pub faults : FaultStore
  pub events : List (EventRecord ℕ)
  pub overrides : Overrides F
  pub calibrations : Calibrations F
  pub pending_bench : Option BenchTestSpec
  pub dirty : Bool
  pub flash_crc : ℕ

-- The server and the configuration in memory.
pub record Device (F : Type 0) : Type 0 where
  pub server : RdpServer F
  pub ram : EngineConfig F

module _ {F : Type 0} where
  abbrev pub take_bench_test : RdpServer F → RdpServer F × Option BenchTestSpec
  take_bench_test s = (record s { pending_bench = none }, s.pending_bench)

  abbrev pub on_disconnect : RdpServer F → RdpServer F
  on_disconnect s = record s {
    overrides = clear_all s.overrides;
    streams = clear s.streams;
    pending_bench = none;
  }

module _ {F : Type 0} (x : Externals F) where
  pub hash_channels : ℕ → List (ChannelMeta F) → ℕ
  hash_channels h [] = h
  hash_channels h (c ∷ later) =
      let h₁ = fnv1a h (u16_to_le c.id) in
      let h₂ = fnv1a h₁ (x.as_bytes c.key) in
      let h₃ = fnv1a h₂ (u32_to_le (x.f.to_bits c.scale)) in
      hash_channels (fnv1a h₃ (wire_to_u8 c.wire ∷ (c.group ∷ []))) later

  abbrev pub telemetry_hash : ℕ
  telemetry_hash = hash_channels fnv_offset (telemetry_catalog x.f)

  pub schema_hash : ℕ
  unfolding hash_channels
  schema_hash =
      fnv1a (fnv1a fnv_offset (u32_to_le (catalog_hash x.f x.as_bytes))) (u32_to_le telemetry_hash)

  abbrev pub crc : EngineConfig F → ℕ
  crc cfg = config_crc x.f (x.vec F) cfg

  abbrev pub new : DeviceIdentity → EngineConfig F → RdpServer F
  new identity flash_cfg = record {
    identity = identity;
    streams = new_streams;
    faults = new_store;
    events = [];
    overrides = new_overrides;
    calibrations = default_calibrations x.f;
    pending_bench = none;
    dirty = false;
    flash_crc = crc flash_cfg;
  }

  abbrev pub queue : RdpServer F → EventKind → ℕ → ℕ → ℕ → RdpServer F
  queue s kind now_ms a b = record s { events = push x.deque s.events kind now_ms a b }

  pub note_fault : RdpServer F → ℕ → Severity → ℕ → ℕ → RdpServer F
  note_fault s code severity detail now_ms =
      let (store, fresh) = raise (x.vec FaultRecord) s.faults code severity detail now_ms in
      let s' = record s { faults = store } in
      if fresh then queue s' fault_set now_ms code detail else s'

  pub note_fault_cleared : RdpServer F → ℕ → ℕ → RdpServer F
  note_fault_cleared s code now_ms =
      let (store, was) = resolve s.faults code in
      let s' = record s { faults = store } in
      if was then queue s' fault_cleared now_ms code 0 else s'

  abbrev pub note_knock : RdpServer F → ℕ → ℕ → ℕ → RdpServer F
  note_knock s cylinder retard_milli_deg now_ms = queue s knock now_ms cylinder retard_milli_deg

  abbrev pub note_sync : RdpServer F → Bool → ℕ → ℕ → RdpServer F
  note_sync s gained teeth now_ms = queue s sync_state now_ms (if gained then 1 else 0) teeth

  abbrev pub note_protection_cut : RdpServer F → ℕ → ℕ → RdpServer F
  note_protection_cut s reason now_ms = queue s protection_cut now_ms reason 0

  abbrev pub note_limp : RdpServer F → ℕ → ℕ → RdpServer F
  note_limp s reason now_ms = queue s limp_mode now_ms reason 0
