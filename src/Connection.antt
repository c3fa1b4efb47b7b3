-- ===== src/Connection.antt =====
-- A connection's queue of bytes to send: tx_state_t of Protocol/proto_io.c, `handle_write` of
-- Server/server.c, and `enqueue_message` and `send_packet` of Server/server_client.c. The linked list
-- of chunks is a list. What the kernel does with each call of send(2) is a list of outcomes, of which
-- one is used per call: a `none` is a run that the outcomes did not suffice for. The epoll and the log
-- are left out but for `want_epollout`.
mod Tests
pub mod Written
pub mod Enqueued
pub mod Message
use pega_s.Prelude.{
  ℕ, zero, suc, ◌+◌, ◌-◌, ◌^◌, Bool, true, false, Option, none, some, List, [], ◌∷◌, ◌++◌, ℤ, pos,
  negsuc, minus_one, ltb, ◌==◌, not, ◌&&◌, min, if◌then◌else◌, u16, u32, u64, length, take, drop,
  ◌>>=◌,
}
use pega_s.Protocol.{Header, protocol_max_size, header_size, protocol_header_encode, header_bytes}

-- `out_chunk_t`.
pub record Chunk : Type 0 where
  pub bytes : List ℕ
  pub len : ℕ
  pub off : ℕ

-- `tx_state_t`, and the connection's `want_epollout`.
pub record Tx : Type 0 where
  pub chunks : List Chunk
  pub queued : ℕ
  pub high_watermark : ℕ
  pub want_epollout : ℕ

unfoldable pub tx_init : Tx → Tx
tx_init tx = record tx { chunks = []; queued = 0; high_watermark = 2 ^ 20 }

unfoldable pub tx_free_queue : Tx → Tx
tx_free_queue tx = record tx { chunks = []; queued = 0 }

unfoldable pub server_conn_free_tx : Tx → Tx
unfolding tx_free_queue
server_conn_free_tx tx = record (tx_free_queue tx) { want_epollout = 0 }

-- What send(2) does when it is asked to send one byte or more: it takes bytes, at least one and at
-- most what is asked (`room n` is room for n + 1), or it fails with EINTR, with EAGAIN, or with
-- another error.
pub data Sending : Type 0 where
  room : ℕ → Sending
  interrupted would_block failed : Sending

-- How the inner loop ends.
pub data End : Type 0 where
  sent blocked broken : End

-- A chunk after `n` more bytes are sent.
abbrev pub advance : Chunk → ℕ → Chunk
advance chunk n = record chunk { off = chunk.off + n }

abbrev pub rest_of : Chunk → List ℕ
rest_of chunk = drop chunk.off chunk.bytes

-- `room n` takes this many bytes of the chunk.
abbrev pub taken : Chunk → ℕ → ℕ
taken chunk n = min (suc n) (chunk.len - chunk.off)

-- The inner loop: how it ends, the chunk, `queued`, the outcomes left, and the bytes that went out.
unfoldable pub send_chunk :
    List Sending → Chunk → ℕ → Option (End × Chunk × ℕ × List Sending × List ℕ)
send_chunk [] chunk queued =
    if ltb chunk.off chunk.len then none else some (End.sent, chunk, queued, [], [])
send_chunk (Sending.room n ∷ later) chunk queued =
    let k = taken chunk n in
    let next = send_chunk later (advance chunk k) (u64 (queued + 2 ^ 64 - k)) in
    if ltb chunk.off chunk.len
    then (next >>= λ (end, chunk', queued', left, wire).
        some (end, chunk', queued', left, take k (rest_of chunk) ++ wire))
    else some (End.sent, chunk, queued, Sending.room n ∷ later, [])
send_chunk (Sending.interrupted ∷ later) chunk queued =
    let next = send_chunk later chunk queued in
    if ltb chunk.off chunk.len
    then next
    else some (End.sent, chunk, queued, Sending.interrupted ∷ later, [])
send_chunk (Sending.would_block ∷ later) chunk queued =
    if ltb chunk.off chunk.len
    then some (End.blocked, chunk, queued, later, [])
    else some (End.sent, chunk, queued, Sending.would_block ∷ later, [])
send_chunk (Sending.failed ∷ later) chunk queued =
    if ltb chunk.off chunk.len
    then some (End.broken, chunk, queued, later, [])
    else some (End.sent, chunk, queued, Sending.failed ∷ later, [])

-- The code, what is left of the queue, and the bytes that went out, after the chunk at the front.
unfoldable pub after_chunk :
    (List Sending → ℕ → Option (ℤ × Tx × List ℕ))
    → Tx
    → List Chunk
    → End × Chunk × ℕ × List Sending × List ℕ
    → Option (ℤ × Tx × List ℕ)
after_chunk rest tx chunks (End.sent, chunk, queued, left, wire) =
    rest left queued >>= λ (code, tx', more). some (code, tx', wire ++ more)
after_chunk rest tx chunks (End.blocked, chunk, queued, left, wire) =
    some (pos 0, record tx { chunks = chunk ∷ chunks; queued = queued }, wire)
after_chunk rest tx chunks (End.broken, chunk, queued, left, wire) =
    some (minus_one, server_conn_free_tx tx, wire)

-- The chunks left, and `queued`. An error closes the connection, and its queue is freed.
unfoldable pub write_chunks : List Sending → Tx → List Chunk → ℕ → Option (ℤ × Tx × List ℕ)
write_chunks outcomes tx [] queued =
    some (pos 0, record tx { chunks = []; queued = queued; want_epollout = 0 }, [])
write_chunks outcomes tx (chunk ∷ chunks) queued =
    send_chunk outcomes chunk queued
    >>= after_chunk (λ left queued'. write_chunks left tx chunks queued') tx chunks

unfoldable pub handle_write : List Sending → Tx → Option (ℤ × Tx × List ℕ)
handle_write outcomes tx = write_chunks outcomes tx tx.chunks tx.queued

-- EPOLLOUT is asked for while chunks wait.
abbrev pub wanting : Tx → List Chunk → Tx
wanting tx [] = tx
wanting tx (chunk ∷ chunks) = record tx { want_epollout = 1 }

unfoldable pub after_write : ℤ × Tx × List ℕ → ℤ × Tx × List ℕ
after_write (pos n, tx, wire) = (pos 0, wanting tx tx.chunks, wire)
after_write (negsuc n, tx, wire) = (minus_one, tx, wire)

-- `memory` says whether malloc succeeds. A message that is refused is not freed.
unfoldable pub enqueue_message : Bool → List Sending → Tx → List ℕ → ℕ → Option (ℤ × Tx × List ℕ)
enqueue_message memory outcomes tx buffer total_length =
    if ltb tx.high_watermark (u64 (tx.queued + total_length))
    then some (minus_one, tx, [])
    else if not memory
    then some (minus_one, tx, [])
    else do
      r ← handle_write outcomes (record tx {
        chunks = tx.chunks ++ record { bytes = buffer; len = total_length; off = 0 } ∷ [];
        queued = u64 (tx.queued + total_length);
      })
      some (after_write r)

-- A packet's bytes: the header and the payload.
abbrev pub packet_bytes : Header → List ℕ → List ℕ
packet_bytes header payload = header_bytes header ++ payload

unfoldable pub send_encoded :
    Bool → List Sending → Tx → ℤ × Header → List ℕ → ℕ → Option (ℤ × Tx × List ℕ)
send_encoded memory outcomes tx (pos n, header) payload total_length =
    enqueue_message memory outcomes tx (packet_bytes header payload) total_length
send_encoded memory outcomes tx (negsuc n, header) payload total_length = some (minus_one, tx, [])

-- The payload's length is an `uint16_t`. `unset` is what the fresh block holds as a header.
unfoldable pub send_packet :
    Bool → Bool → Header → List Sending → Tx → ℕ → List ℕ → Option (ℤ × Tx × List ℕ)
send_packet block memory unset outcomes tx packet_type payload =
    let total_length = u32 (header_size + length payload) in
    if ltb protocol_max_size total_length
    then some (minus_one, tx, [])
    else if not block
    then some (minus_one, tx, [])
    else send_encoded memory outcomes tx (protocol_header_encode unset packet_type (length payload))
        payload total_length
