-- ===== src/Protocol.antt =====
-- The crate protocol, the host's end of the TunerStudio protocol.
pub mod Packet
pub mod Opcode
pub mod Layout
pub mod Exchange
mod Tests
