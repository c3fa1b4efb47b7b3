-- ===== src/Protocol/Payload.antt =====
-- What the caller of `rx_try_extract_frame` reads as the payload. The pointer it is given leads into
-- the receive buffer, which the call has moved down when more bytes have been received.
use pega_s.Prelude.{
  ℕ, ◌+◌, ◌-◌, ◌≤◌, ◌<◌, ◌≡◌, refl, ap, ◌∙◌, some, List, ◌++◌, pos, ltb, arith, u16, false, ◌==◌,
  length, take, drop, take-append, take_all, drop-append, drop-append_le, length-append,
  length-drop,
}
use pega_s.Protocol.{Header, protocol_max_size, header_size, protocol_header_encode, header_bytes}
use pega_s.Protocol.Rx.{
  Rx, move_down, cut_frame, sized_frame, frame_of, rx_try_extract_frame, payload_of,
}
use pega_s.Protocol.Encode.{host_header, try_peek_header-encode}

-- The header that `protocol_header_encode` writes over `old`.
abbrev pub encoded : Header → ℕ → ℕ → Header
encoded old packet_type n = (protocol_header_encode old packet_type n).1

module _ (old : Header) (packet_type : ℕ) (payload : List ℕ) (type_byte : packet_type < 256)
    (fits : length payload + header_size ≤ protocol_max_size) where
  -- The bytes of a packet: what the sender puts on the wire.
  abbrev pub packet : List ℕ
  packet = header_bytes (encoded old packet_type (length payload)) ++ payload

  to_cut :
      (rest : List ℕ) (received : ℕ)
      → length payload + header_size ≤ received
      → received < 65536
      → rx_try_extract_frame (record {
        buf = header_bytes (encoded old packet_type (length payload)) ++ rest;
        have = received;
      })
        ≡ cut_frame
            (record {
              buf = header_bytes (encoded old packet_type (length payload)) ++ rest;
              have = received;
            })
            (host_header packet_type (length payload))
            (length payload + header_size)
  unfolding rx_try_extract_frame frame_of sized_frame
  to_cut rest received enough small =
      let long : ltb received header_size ≡ false = ground arith in
      let word : u16 received ≡ received = omega arith in
      let accepted : ltb protocol_max_size (length payload + header_size) ≡ false = ground arith in
      let whole : ltb received (length payload + header_size) ≡ false = ground arith in
      let peeked =
        (try_peek_header-encode old packet_type (length payload) received rest type_byte fits
          (omega arith)).1 in
      rw (long, word, peeked, accepted, whole) refl

  -- A packet that is alone in the receive buffer, of a type that is a byte and with a payload that
  -- fits, is extracted with the type and the length it was encoded with, and the caller then reads
  -- the payload that was sent.
  pub rx_try_extract_frame-packet :
      (rest : List ℕ)
      → (rx' : Rx) × (rx_try_extract_frame
            (record { buf = packet ++ rest; have = length payload + header_size })
          ≡ some (pos 1, some (host_header packet_type (length payload), length payload), rx'))
        × (payload_of rx' (length payload) ≡ payload)
  unfolding cut_frame header_bytes
  rx_try_extract_frame-packet rest =
      let n = length payload + header_size in
      let alone : n - n ≡ 0 = omega arith in
      (
        record { buf = packet ++ rest; have = 0 },
        to_cut (payload ++ rest) n (omega arith) (omega (arith, fits)) ∙ rw alone refl,
        take-append (length payload) payload rest (omega arith)
            ∙ take_all (length payload) payload (omega arith),
      )

  -- When at least as many bytes as the packet has follow it in the receive buffer, the packet is
  -- extracted with its type and length, but the caller reads as its payload the bytes at the
  -- payload's place in what follows.
  pub rx_try_extract_frame_overwrites :
      (more rest : List ℕ)
      → length payload + header_size ≤ length more
      → length payload + header_size + length more ≤ protocol_max_size
      → (rx' : Rx) × (rx_try_extract_frame (record {
        buf = packet ++ (more ++ rest);
        have = length payload + header_size + length more;
      })
          ≡ some (pos 1, some (host_header packet_type (length payload), length payload), rx'))
        × (payload_of rx' (length payload) ≡ take (length payload) (drop header_size more))
  unfolding cut_frame move_down header_bytes
  rx_try_extract_frame_overwrites more rest long inside =
      let n = length payload + header_size in
      let m = length more in
      let buf = packet ++ (more ++ rest) in
      let left : n + m - n ≡ m = omega arith in
      let some_left : (m == 0) ≡ false = ground (arith, long) in
      let in_bounds : ltb (length buf) (n + m) ≡ false =
        ground (arith, length-append payload (more ++ rest), length-append more rest) in
      let dropped : drop n buf ≡ more ++ rest = drop-append n packet (more ++ rest) (omega arith) in
      let kept : take m (more ++ rest) ≡ more =
        take-append m more rest (omega arith) ∙ take_all m more (omega arith) in
      (
        record { buf = more ++ drop m buf; have = m },
        to_cut (payload ++ (more ++ rest)) (n + m) (omega arith) (omega arith)
            ∙ rw (left, some_left, in_bounds, dropped, kept) refl,
        ap (take (length payload)) (drop-append_le header_size more (drop m buf) (omega arith))
            ∙ take-append (length payload) (drop header_size more) (drop m buf)
                (omega (arith, length-drop header_size more)),
      )
