-- ===== src/Protocol/Cmd.antt =====
-- protocol.h: `proto_cmd_t`, by the codes that stand in the `cmd` byte of a frame.
use embedded_device_forwarde.Prelude.{ℕ}

abbrev pub register : ℕ
register = 0x01

abbrev pub register_ack : ℕ
register_ack = 0x02

abbrev pub heartbeat : ℕ
heartbeat = 0x03

abbrev pub port_data : ℕ
port_data = 0x10

abbrev pub command : ℕ
command = 0x11

abbrev pub log : ℕ
log = 0x20

abbrev pub fw_begin : ℕ
fw_begin = 0x30

abbrev pub fw_chunk : ℕ
fw_chunk = 0x31

abbrev pub fw_end : ℕ
fw_end = 0x32

abbrev pub fw_query : ℕ
fw_query = 0x33
