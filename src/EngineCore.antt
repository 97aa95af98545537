-- ===== src/EngineCore.antt =====
-- The crate engine-core, which runs on the ECU.
pub mod Bootloader
pub mod Comms
pub mod Config
pub mod Control
pub mod Faults
pub mod Params
pub mod Rdp
pub mod Shutdown
pub mod StartStop
pub mod Storage
pub mod Tcu
pub mod Telemetry
pub mod Trigger
