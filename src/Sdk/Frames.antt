-- ===== src/Sdk/Frames.antt =====
-- ez_router_sdk.h: the header and the payloads, as the bytes that go out on a little-endian target.
use embedded_device_forwarde.Prelude.{ℕ, ◌-◌, ◌%◌, ◌^◌, List, [], ◌∷◌, ◌++◌}
use embedded_device_forwarde.Prelude.Int.{ℤ, pos, negsuc}
use embedded_device_forwarde.Protocol.Header.{bytes16, bytes32}

abbrev pub ipc_magic : ℕ
ipc_magic = 0xE7F12345

abbrev pub cmd_set_routes : ℕ
cmd_set_routes = 1

abbrev pub cmd_clear_routes : ℕ
cmd_clear_routes = 2

abbrev pub cmd_save_config : ℕ
cmd_save_config = 3

abbrev pub cmd_load_plugin : ℕ
cmd_load_plugin = 4

abbrev pub cmd_unload_plugin : ℕ
cmd_unload_plugin = 5

-- `ipc_header_t`.
pub record IpcHeader : Type 0 where
  pub magic_field : ℕ
  pub cmd : ℕ
  pub reserved : ℕ
  pub payload_length : ℕ

-- The memory of the struct, which has no padding.
abbrev pub ipc_header_bytes : IpcHeader → List ℕ
ipc_header_bytes h =
    bytes32 h.magic_field ++ (bytes16 h.cmd ++ (bytes16 h.reserved ++ bytes32 h.payload_length))

-- An `int` as a 32-bit word.
abbrev pub int_word : ℤ → ℕ
int_word (pos n) = n % 2 ^ 32
int_word (negsuc n) = 2 ^ 32 - 1 - n % 2 ^ 32

-- `ez_router_link_t`; the four hooks are the bytes of their arrays of 64.
pub record Link : Type 0 where
  pub in_port : ℤ
  pub out_port : ℤ
  pub bidir : ℤ
  pub hook_in_plugin : List ℕ
  pub hook_in_func : List ℕ
  pub hook_out_plugin : List ℕ
  pub hook_out_func : List ℕ

abbrev pub link_size : ℕ
link_size = 268

abbrev pub link_bytes : Link → List ℕ
link_bytes l =
    bytes32 (int_word l.in_port)
    ++ (bytes32 (int_word l.out_port)
        ++ (bytes32 (int_word l.bidir)
            ++ (l.hook_in_plugin ++ (l.hook_in_func ++ (l.hook_out_plugin ++ l.hook_out_func)))))

unfoldable pub links_bytes : List Link → List ℕ
links_bytes [] = []
links_bytes (l ∷ ls) = link_bytes l ++ links_bytes ls
