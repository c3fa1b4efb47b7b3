-- ===== src/Protocol/Tests.antt =====
-- Packets and receive buffers at concrete bytes.
use pega_s.Prelude.{ℕ, ◌≡◌, some, [], ◌∷◌, ◌++◌, pos, arith, Returns, length-replicate}
use pega_s.Protocol.{
  Header, protocol_max_size, protocol_header_encode, header_bytes, try_peek_header,
}
use pega_s.Protocol.Rx.{Rx, rx_init, rx_reset_to_header, rx_try_extract_frame, payload_of}
use pega_s.Protocol.Encode.{host_header, try_peek_header-encode}
use pega_s.Protocol.Stream.{IsRx, Extracted, rx_try_extract_frame-Extracted}
use pega_s.Protocol.Payload.{packet, rx_try_extract_frame-packet, rx_try_extract_frame_overwrites}

abbrev blank : Header
blank = record { magic = 0; version = 0; packet_type = 0; payload_length = 0 }

try_peek_header-encode_example :
    let (code, network) = protocol_header_encode blank 16 2 in
    (code ≡ pos 0)
    × (try_peek_header (header_bytes network ++ (7 ∷ 9 ∷ [])) 8
        ≡ some (pos 0, some (host_header 16 2)))
try_peek_header-encode_example =
    try_peek_header-encode blank 16 2 8 (7 ∷ 9 ∷ []) (omega arith) (omega arith) (omega arith)

rx_init-IsRx : IsRx rx_init
unfolding rx_init rx_reset_to_header
rx_init-IsRx = record {
  full = length-replicate {A = ℕ} protocol_max_size 0;
  some_have = omega arith;
}

rx_try_extract_frame-Extracted_example : Returns (rx_try_extract_frame rx_init) (Extracted rx_init)
rx_try_extract_frame-Extracted_example = rx_try_extract_frame-Extracted rx_init-IsRx

rx_try_extract_frame-packet_example :
    (rx' : Rx) × (rx_try_extract_frame
        (record { buf = packet blank 16 (3 ∷ 1 ∷ []) (omega arith) (omega arith) ++ []; have = 8 })
      ≡ some (pos 1, some (host_header 16 2, 2), rx'))
    × (payload_of rx' 2 ≡ 3 ∷ 1 ∷ [])
rx_try_extract_frame-packet_example =
    rx_try_extract_frame-packet blank 16 (3 ∷ 1 ∷ []) (omega arith) (omega arith) []

-- Two packets of type 16 arrive together; the first is read with the payload of the second.
rx_try_extract_frame_overwrites_example :
    (rx' : Rx) × (rx_try_extract_frame (record {
      buf =
          packet blank 16 (3 ∷ 1 ∷ []) (omega arith) (omega arith)
          ++ (0x53 ∷ 0x50 ∷ 1 ∷ 16 ∷ 0 ∷ 2 ∷ 5 ∷ 2 ∷ [] ++ []);
      have = 16;
    })
      ≡ some (pos 1, some (host_header 16 2, 2), rx'))
    × (payload_of rx' 2 ≡ 5 ∷ 2 ∷ [])
rx_try_extract_frame_overwrites_example =
    rx_try_extract_frame_overwrites blank 16 (3 ∷ 1 ∷ []) (omega arith) (omega arith)
      (0x53 ∷ 0x50 ∷ 1 ∷ 16 ∷ 0 ∷ 2 ∷ 5 ∷ 2 ∷ []) [] (omega arith) (omega arith)
