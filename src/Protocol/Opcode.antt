-- ===== src/Protocol/Opcode.antt =====
-- protocol/src/opcode.rs: the commands of the host and their bytes.
use rust_ems.Base.{ℕ, List, [], ◌∷◌, ◌++◌}
use rust_ems.Base.Words.{u16_to_be}

abbrev pub ts_get_protocol_version_command_f : ℕ
ts_get_protocol_version_command_f = 70

abbrev pub ts_hello_command : ℕ
ts_hello_command = 83

abbrev pub ts_read_command : ℕ
ts_read_command = 82

abbrev pub ts_chunk_write_command : ℕ
ts_chunk_write_command = 67

abbrev pub ts_burn_command : ℕ
ts_burn_command = 66

abbrev pub ts_output_command : ℕ
ts_output_command = 79

abbrev pub ts_execute : ℕ
ts_execute = 88

abbrev pub ts_crc_check_command : ℕ
ts_crc_check_command = 107

abbrev pub ts_get_firmware_version : ℕ
ts_get_firmware_version = 86

-- The fields in the order of the source: page, offset, length or data; subcommand, data.
pub data Command : Type 0 where
  get_protocol_version hello get_firmware_version burn : Command
  read_page : ℕ → ℕ → ℕ → Command
  write_chunk : ℕ → ℕ → List ℕ → Command
  output_channels : ℕ → ℕ → Command
  crc_check : ℕ → ℕ → ℕ → Command
  execute : ℕ → List ℕ → Command

unfoldable pub to_payload : Command → List ℕ
to_payload get_protocol_version = ts_get_protocol_version_command_f ∷ []
to_payload hello = ts_hello_command ∷ []
to_payload get_firmware_version = ts_get_firmware_version ∷ []
to_payload burn = ts_burn_command ∷ []
to_payload (read_page page offset length_) =
    (((ts_read_command ∷ []) ++ u16_to_be page) ++ u16_to_be offset) ++ u16_to_be length_
to_payload (write_chunk page offset data_) =
    (((ts_chunk_write_command ∷ []) ++ u16_to_be page) ++ u16_to_be offset) ++ data_
to_payload (output_channels offset length_) =
    ((ts_output_command ∷ []) ++ u16_to_be offset) ++ u16_to_be length_
to_payload (crc_check page offset length_) =
    (((ts_crc_check_command ∷ []) ++ u16_to_be page) ++ u16_to_be offset) ++ u16_to_be length_
to_payload (execute subcommand data_) = (ts_execute ∷ (subcommand ∷ [])) ++ data_
