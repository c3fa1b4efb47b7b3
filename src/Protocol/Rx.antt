-- ===== src/Protocol/Rx.antt =====
-- The receive buffer of a connection: Protocol/proto_io.h and proto_io.c.
use pega_s.Prelude.{
  ℕ, zero, suc, ◌+◌, ◌-◌, Option, none, some, List, ◌++◌, ℤ, pos, negsuc, minus_one, ltb, ◌==◌,
  if◌then◌else◌, u16, take, drop, length, replicate, ◌>>=◌,
}
use pega_s.Protocol.{Header, protocol_max_size, header_size, try_peek_header}

-- `rx_state_t`; the buffer has `PROTOCOL_MAX_SIZE` bytes.
pub record Rx : Type 0 where
  pub buf : List ℕ
  pub have : ℕ

unfoldable pub rx_reset_to_header : Rx → ℕ → Rx
rx_reset_to_header rx remain = record rx { have = remain }

unfoldable pub rx_init : Rx
unfolding rx_reset_to_header
rx_init = rx_reset_to_header (record { buf = replicate protocol_max_size 0; have = 0 }) 0

-- `memmove(buf, buf + from, count)`.
unfoldable pub move_down : List ℕ → ℕ → ℕ → Option (List ℕ)
move_down buf from count =
    if ltb (length buf) (from + count)
    then none
    else some (take count (drop from buf) ++ drop count buf)

-- The header of a frame and the length of its payload. The payload itself is the pointer
-- `rx->buf + sizeof(header_t)`: what it points to is in the buffer that is returned.
abbrev pub Frame : Type 0
Frame = Header × ℕ

-- The frame is taken out of the buffer. `remain` is not 0 if bytes follow it.
unfoldable pub cut_frame : Rx → Header → ℕ → Option (ℤ × Option Frame × Rx)
cut_frame rx header total =
    let remain = rx.have - total in
    if remain == 0
    then some (pos 1, some (header, header.payload_length), record rx { have = remain })
    else (move_down rx.buf total remain >>= λ buf.
        some (pos 1, some (header, header.payload_length), record { buf = buf; have = remain }))

-- Tests the lengths of a frame with a valid header.
unfoldable pub sized_frame : Rx → Header → Option (ℤ × Option Frame × Rx)
sized_frame rx header =
    let total = header.payload_length + header_size in
    if ltb protocol_max_size total
    then some (minus_one, none, rx)
    else if ltb rx.have total
    then some (pos 0, none, rx)
    else cut_frame rx header total

-- The cases of the code of `try_peek_header`, which are 0 with a header, -1 and -2.
unfoldable pub frame_of : Rx → ℤ × Option Header → Option (ℤ × Option Frame × Rx)
frame_of rx (pos n, none) = none
frame_of rx (pos n, some header) = sized_frame rx header
frame_of rx (negsuc zero, header) = some (pos 0, none, rx)
frame_of rx (negsuc (suc n), header) = some (minus_one, none, rx)

unfoldable pub rx_try_extract_frame : Rx → Option (ℤ × Option Frame × Rx)
rx_try_extract_frame rx =
    if ltb rx.have header_size
    then some (pos 0, none, rx)
    else (try_peek_header rx.buf (u16 rx.have) >>= λ peeked. frame_of rx peeked)

-- The payload that the caller reads, after the call: `length` bytes behind the header's place.
abbrev pub payload_of : Rx → ℕ → List ℕ
payload_of rx n = take n (drop header_size rx.buf)

-- The bytes that have been received and not yet taken.
abbrev pub pending : Rx → List ℕ
pending rx = take rx.have rx.buf
