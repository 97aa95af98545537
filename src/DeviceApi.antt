-- ===== src/DeviceApi.antt =====
-- The crate `device-api`: the wire layer of the device protocol.
pub mod Cbor
pub mod Cobs
pub mod Crc16
pub mod Message
pub mod Frame
pub mod Defrag
mod Tests
