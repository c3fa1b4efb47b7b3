-- ===== src/Protocol.antt =====
-- The packets' header: Protocol/protocol.h and protocol.c. The host is little-endian, so `htons` and
-- `ntohs` swap the two bytes. Null arguments are left out: no caller passes one.
pub mod Rx
pub mod Encode
pub mod Stream
pub mod Payload
pub mod Packets
pub mod Pkt
mod Tests
use pega_s.Prelude.{
  ℕ, ◌+◌, ◌*◌, ◌/◌, ◌%◌, Bool, Option, none, some, List, [], ◌∷◌, ℤ, pos, negsuc, minus_one, ltb,
  ◌==◌, if◌then◌else◌, not, u8, u16, load, ◌>>=◌,
}

abbrev pub protocol_magic : ℕ
protocol_magic = 0x5053

abbrev pub protocol_version : ℕ
protocol_version = 1

abbrev pub protocol_max_size : ℕ
protocol_max_size = 4090

-- sizeof(header_t)
abbrev pub header_size : ℕ
header_size = 6

-- `header_t`, in network or in host order.
pub record Header : Type 0 where
  pub magic : ℕ
  pub version : ℕ
  pub packet_type : ℕ
  pub payload_length : ℕ

unfoldable pub htons : ℕ → ℕ
htons x = x % 256 * 256 + x / 256 % 256

unfoldable pub protocol_header_encode : Header → ℕ → ℕ → ℤ × Header
protocol_header_encode header packet_type payload_length =
    if ltb protocol_max_size (payload_length + header_size) then (minus_one, header) else (
      pos 0,
      record {
        magic = htons protocol_magic;
        version = protocol_version;
        packet_type = u8 packet_type;
        payload_length = htons payload_length;
      },
    )

unfoldable pub protocol_header_decode : Header → Header
protocol_header_decode network = record {
  magic = htons network.magic;
  version = network.version;
  packet_type = network.packet_type;
  payload_length = htons network.payload_length;
}

unfoldable pub protocol_header_validate : Header → ℤ
protocol_header_validate header =
    if not (header.magic == protocol_magic)
    then minus_one
    else if not (header.version == protocol_version)
    then minus_one
    else if ltb protocol_max_size (header.payload_length + header_size)
    then minus_one
    else pos 0

-- The six bytes of a packed header, and the header that six bytes make.
unfoldable pub header_bytes : Header → List ℕ
header_bytes h =
    h.magic % 256
    ∷ h.magic / 256
    ∷ h.version
    ∷ h.packet_type
    ∷ h.payload_length % 256
    ∷ h.payload_length / 256
    ∷ []

unfoldable pub read_header : List ℕ → Option Header
read_header buffer = do
  m₀ ← load buffer 0
  m₁ ← load buffer 1
  version ← load buffer 2
  packet_type ← load buffer 3
  l₀ ← load buffer 4
  l₁ ← load buffer 5
  some (record {
    magic = m₀ + m₁ * 256;
    version = version;
    packet_type = packet_type;
    payload_length = l₀ + l₁ * 256;
  })

-- The code of `try_peek_header` from that of `protocol_header_validate`; the option is what goes
-- through `header_out`.
unfoldable pub checked_as : Header → ℤ → ℤ × Option Header
checked_as header (pos n) = (pos 0, some header)
checked_as header (negsuc n) = (negsuc 1, some header)

abbrev pub checked : Header → ℤ × Option Header
checked header = checked_as header (protocol_header_validate header)

unfoldable pub try_peek_header : List ℕ → ℕ → Option (ℤ × Option Header)
try_peek_header buffer buffer_length =
    if ltb buffer_length header_size
    then some (minus_one, none)
    else (read_header buffer >>= λ network. some (checked (protocol_header_decode network)))
