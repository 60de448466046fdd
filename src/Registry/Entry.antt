-- ===== src/Registry/Entry.antt =====
-- registry.h: the limits and `subproc_entry_t`; registry.c: `copy_field`. The flag `in_use` is a
-- Boolean, a char array the string that it holds.
use embedded_device_forwarde.Prelude.{
  ℕ, zero, suc, ◌-◌, ◌<◌, List, [], Bool, false, Option, none, some, arith, length, take,
  length-take, replicate, leb, if◌then◌else◌,
}
use embedded_device_forwarde.Prelude.Int.{ℤ, pos, minus_one}
use embedded_device_forwarde.Prelude.Text.{Text}

abbrev pub max_subprocs : ℕ
max_subprocs = 32

abbrev pub max_ports_per_subproc : ℕ
max_ports_per_subproc = 8

abbrev pub device_id_len : ℕ
device_id_len = 64

abbrev pub model_len : ℕ
model_len = 32

abbrev pub fw_version_len : ℕ
fw_version_len = 16

abbrev pub build_date_len : ℕ
build_date_len = 16

abbrev pub port_name_len : ℕ
port_name_len = 32

-- `subproc_entry_t`.
pub record Entry : Type 0 where
  pub client_fd : ℤ
  pub in_use : Bool
  pub device_id : Text
  pub model : Text
  pub fw_version : Text
  pub build_date : Text
  pub last_seq : ℕ
  pub last_heartbeat_ms : ℕ
  pub port_count : ℕ
  pub port_names : List Text

-- `memset(&e, 0, sizeof(e))`.
abbrev pub zeroed : Entry
zeroed = record {
  client_fd = pos 0;
  in_use = false;
  device_id = [];
  model = [];
  fw_version = [];
  build_date = [];
  last_seq = 0;
  last_heartbeat_ms = 0;
  port_count = 0;
  port_names = replicate max_ports_per_subproc [];
}

-- A slot that nobody holds.
abbrev pub free_entry : Entry
free_entry = record zeroed { client_fd = minus_one }

-- `copy_field(dst, cap, src)`: the string that `dst` holds afterwards.
unfoldable pub copy_field : Text → ℕ → Option Text → Text
copy_field dst zero src = dst
copy_field dst (suc cap) none = []
copy_field dst (suc cap) (some src) =
    let n = length src in take (if leb (suc cap) n then suc cap - 1 else n) src

-- What is copied fits the array, its NUL included.
pub copy_field-lt :
    (dst : Text) (cap : ℕ) (src : Option Text) → length (copy_field dst (suc cap) src) < suc cap
unfolding copy_field
copy_field-lt dst cap none = omega arith
copy_field-lt dst cap (some src) =
    ground (arith, length-take (if leb (suc cap) (length src) then suc cap - 1 else length src) src)
