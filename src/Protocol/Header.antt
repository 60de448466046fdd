-- ===== src/Protocol/Header.antt =====
-- protocol.h: the constants, the command codes, `proto_frame_hdr_t` as a value and as 12 bytes.
use embedded_device_forwarde.Prelude.{
  ℕ, ◌+◌, ◌*◌, ◌/◌, ◌%◌, ◌^◌, ◌<◌, ◌≡◌, List, [], ◌∷◌, ◌++◌, arith, get_or, All,
}
use embedded_device_forwarde.Prelude.Int.{ℤ, negsuc}

abbrev pub magic : ℕ
magic = 0xEB7C

abbrev pub version : ℕ
version = 1

abbrev pub max_payload : ℕ
max_payload = 64 * 1024

abbrev pub hdr_size : ℕ
hdr_size = 12

-- `proto_frame_hdr_t`.
pub record Header : Type 0 where
  pub magic_field : ℕ
  pub version_field : ℕ
  pub cmd : ℕ
  pub seq : ℕ
  pub payload_len : ℕ

-- The ranges of the field types: uint16_t, uint8_t, uint8_t, uint32_t, uint32_t.
pub record InRange (h : Header) : Type 0 where
  pub magic_u16 : h.magic_field < 2 ^ 16
  pub version_u8 : h.version_field < 2 ^ 8
  pub cmd_u8 : h.cmd < 2 ^ 8
  pub seq_u32 : h.seq < 2 ^ 32
  pub payload_len_u32 : h.payload_len < 2 ^ 32

abbrev pub IsByte : ℕ → Type 0
IsByte b = b < 256

abbrev pub Bytes : List ℕ → Type 0
Bytes = All IsByte

-- The error codes of the codec.
pub data ProtoErr : Type 0 where
  buf_too_small bad_magic bad_version payload_too_large incomplete : ProtoErr

-- The number that stands for each of them.
abbrev pub err_code : ProtoErr → ℤ
err_code buf_too_small = negsuc 0
err_code bad_magic = negsuc 1
err_code bad_version = negsuc 2
err_code payload_too_large = negsuc 3
err_code incomplete = negsuc 4

-- A little-endian uint16_t and uint32_t.
abbrev pub bytes16 : ℕ → List ℕ
bytes16 x = x % 256 ∷ x / 256 % 256 ∷ []

abbrev pub bytes32 : ℕ → List ℕ
bytes32 x = x % 256 ∷ x / 256 % 256 ∷ x / 65536 % 256 ∷ x / 16777216 % 256 ∷ []

abbrev pub word16 : ℕ → ℕ → ℕ
word16 a b = a + 256 * b

abbrev pub word32 : ℕ → ℕ → ℕ → ℕ → ℕ
word32 a b c d = a + 256 * b + 65536 * c + 16777216 * d

-- The memory of the packed struct.
abbrev pub header_bytes : Header → List ℕ
header_bytes h =
    bytes16 h.magic_field
    ++ (h.version_field % 256 ∷ h.cmd % 256 ∷ bytes32 h.seq ++ bytes32 h.payload_len)

-- `memcpy(&h, buf, PROTO_HDR_SIZE)`.
abbrev pub read_header : List ℕ → Header
read_header buf = record {
  magic_field = word16 (get_or buf 0 0) (get_or buf 1 0);
  version_field = get_or buf 2 0;
  cmd = get_or buf 3 0;
  seq = word32 (get_or buf 4 0) (get_or buf 5 0) (get_or buf 6 0) (get_or buf 7 0);
  payload_len = word32 (get_or buf 8 0) (get_or buf 9 0) (get_or buf 10 0) (get_or buf 11 0);
}

pub bytes32_word32 :
    (x : ℕ)
    → x < 2 ^ 32
    → word32 (x % 256) (x / 256 % 256) (x / 65536 % 256) (x / 16777216 % 256) ≡ x
bytes32_word32 x h = omega arith

pub read_header-append :
    (h : Header) (rest : List ℕ) → InRange h → read_header (header_bytes h ++ rest) ≡ h
read_header-append h rest v =
    ground (arith, bytes32_word32 h.seq v.seq_u32, bytes32_word32 h.payload_len v.payload_len_u32)

pub header_bytes-Bytes : (h : Header) → Bytes (header_bytes h)
header_bytes-Bytes h = omega arith
