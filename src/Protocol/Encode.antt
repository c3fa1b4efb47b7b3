-- ===== src/Protocol/Encode.antt =====
-- A header that is encoded, sent and decoded.
use pega_s.Prelude.{
  ℕ, ◌+◌, ◌*◌, ◌/◌, ◌%◌, ◌≤◌, ◌<◌, ◌≡◌, refl, some, List, ◌++◌, pos, ltb, arith, u8, false,
}
use pega_s.Protocol.{
  Header, protocol_magic, protocol_version, protocol_max_size, header_size, htons,
  protocol_header_encode, protocol_header_decode, protocol_header_validate, header_bytes,
  read_header, try_peek_header, checked_as,
}

pub htons-htons : (x : ℕ) → x < 65536 → htons (htons x) ≡ x
unfolding htons
htons-htons x h = omega arith

htons-lt : (x : ℕ) → htons x < 65536
unfolding htons
htons-lt x = omega arith

-- The fields are words of their widths.
pub record IsHeader (h : Header) : Type 0 where
  pub magic_word : h.magic < 65536
  pub version_byte : h.version < 256
  pub type_byte : h.packet_type < 256
  pub length_word : h.payload_length < 65536

pub read_header-header_bytes :
    (h : Header) (rest : List ℕ) → IsHeader h → read_header (header_bytes h ++ rest) ≡ some h
unfolding read_header header_bytes
read_header-header_bytes h rest w =
    let m : h.magic % 256 + h.magic / 256 * 256 ≡ h.magic = omega arith in
    let l : h.payload_length % 256 + h.payload_length / 256 * 256 ≡ h.payload_length =
      omega arith in
    rw (m, l)

-- The header that the receiver sees.
abbrev pub host_header : ℕ → ℕ → Header
host_header packet_type payload_length = record {
  magic = protocol_magic;
  version = protocol_version;
  packet_type = packet_type;
  payload_length = payload_length;
}

-- For a type that is a byte and a payload that fits a packet `protocol_header_encode` succeeds, and
-- `try_peek_header` reads the header that it wrote back with the same type and length, from six
-- bytes or more and whatever follows them.
pub try_peek_header-encode :
    (old : Header) (packet_type payload_length n : ℕ) (rest : List ℕ)
    → packet_type < 256
    → payload_length + header_size ≤ protocol_max_size
    → header_size ≤ n
    → let (code, network) = protocol_header_encode old packet_type payload_length in
      (code ≡ pos 0)
      × (try_peek_header (header_bytes network ++ rest) n
          ≡ some (pos 0, some (host_header packet_type payload_length)))
unfolding protocol_header_encode try_peek_header checked_as
try_peek_header-encode old packet_type payload_length n rest type_byte fits enough =
    let type_same : u8 packet_type ≡ packet_type = omega arith in
    let network : Header = record {
      magic = htons protocol_magic;
      version = protocol_version;
      packet_type = packet_type;
      payload_length = htons payload_length;
    } in
    let read = read_header-header_bytes network rest (record {
      magic_word = htons-lt protocol_magic;
      version_byte = omega arith;
      type_byte = type_byte;
      length_word = htons-lt payload_length;
    }) in
    let accepted : ltb protocol_max_size (payload_length + header_size) ≡ false = ground arith in
    let long : ltb n header_size ≡ false = ground arith in
    let valid : protocol_header_validate (host_header packet_type payload_length) ≡ pos 0 =
      unfold protocol_header_validate in rw accepted in
    let decoded : protocol_header_decode network ≡ host_header packet_type payload_length =
      unfold protocol_header_decode in
      rw (htons-htons protocol_magic (omega arith), htons-htons payload_length (omega arith)) in
    rw (accepted, type_same) (refl, rw (long, read, decoded, valid) refl)
