-- ===== src/Lib.antt =====
-- RustEMS is an engine management system: an engine core that runs on the ECU, a device protocol
-- (RDP) between the ECU and a host, and a host client. This library models the parts below and
-- proves what makes them correct.
--
-- Base          the names of the standard library that the modules share, Boolean tests, lists over
--               the native numbers, results, buffers and bitwise operations.
-- Heapless      the crate heapless, not part of the repository: a record of operations and laws that
--               the modules take as a parameter, with an instance on lists.
-- DeviceApi     the crate device-api. Cobs (device-api/src/cobs.rs: encode, decode), Crc16
--               (device-api/src/crc16.rs),
--               Message (device-api/src/message.rs: kinds, error codes, header), Frame (device-api/src/frame.rs:
--               encode_frame, decode_frame, encode_message), Defrag (device-api/src/defrag.rs:
--               Defragmenter::feed).
-- Client        client/src/rdp.rs: RdpClient::send_payload and RdpClient::pop_message. The host sends a
--               message through DeviceApi.Frame, and takes one out of the received bytes through
--               Frame.decode_frame and Defrag.feed.
-- Protocol      the crate protocol, the host's end of the TunerStudio protocol. Packet
--               (protocol/src/packet.rs: encode_packet, decode_packet), Opcode
--               (protocol/src/opcode.rs: Command::to_payload).
-- EngineCore    the crate engine-core. Comms (engine-core/src/comms/mod.rs: decode_frame,
--               encode_frame, handle_request, which answers the commands of Protocol.Opcode), Faults
--               (engine-core/src/comms/faults.rs: FaultStore, EventQueue),
--               Control (engine-core/src/comms/control.rs: Overrides), Bootloader
--               (engine-core/src/bootloader.rs), Shutdown (engine-core/src/shutdown.rs, over any
--               type with a comparison in the place of f32), Storage (engine-core/src/storage.rs:
--               MemoryStorage::write and read).
--               Trigger (engine-core/src/trigger/mod.rs, missing_tooth.rs): MissingTooth and Gm are the
--               two decoders, which share the count of teeth (Cycle), Filter the noise filter and the
--               mode selector. StartStop (engine-core/src/start_stop.rs), Tcu (engine-core/src/tcu.rs).
--               Config (engine-core/src/config.rs), Params (engine-core/src/params.rs: Cells, Catalog,
--               Table, Access for whole tables, Hash), Telemetry (engine-core/src/comms/telemetry.rs and
--               output.rs), Rdp (engine-core/src/comms/rdp.rs: Respond, Describe, Settings and Actuate
--               hold the operations, Handle the dispatch, Push the messages sent unasked, and Report every
--               other call as one relation). The server reads and writes the configuration
--               through Params, and keeps Faults, Control and Telemetry. CBOR and the crate heapless enter
--               as the record Externals; DeviceApi.Cbor has the bodies of device-api/src/cbor.rs.
-- F32           the operations on f32 that the modules take as a parameter, without any law.
--
-- A slice or a vector is a list of numbers; a byte is a number, and where a theorem depends on its
-- width this is a hypothesis. A function that writes into a buffer returns the buffer; `&mut self` is
-- a record that is passed on. Integers are natural numbers with wrap-around written out. Loops that
-- are not structural run on fuel: COBS decoding and pop_message on the length of their input plus
-- one, since each round reads a byte, and splitting into chunks on the payload's length.
--
-- Not modelled: the encoding of CBOR (the crate minicbor is not part of the repository), the request/response
-- loop of the client with its timeouts, the floating-point engine maths, HAL crates and firmware.
pub mod Base
pub mod Heapless
pub mod F32
pub mod DeviceApi
pub mod Protocol
pub mod EngineCore
pub mod Client
