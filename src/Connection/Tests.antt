-- ===== src/Connection/Tests.antt =====
-- A connection with a chunk that is half sent.
use pega_s.Prelude.{true, List, [], ◌∷◌, refl, arith, Returns}
use pega_s.Connection.{Tx, Sending, enqueue_message}
use pega_s.Connection.Written.{pending, AreChunks, IsTx, turns}
use pega_s.Connection.Message.{Enqueued, enqueue_message-Enqueued}

abbrev half : Tx
half = record {
  chunks = record { bytes = 1 ∷ 2 ∷ 3 ∷ 4 ∷ []; len = 4; off = 2 } ∷ [];
  queued = 2;
  high_watermark = 1048576;
  want_epollout = 1;
}

half-IsTx : IsTx half
unfolding pending AreChunks
half-IsTx = record { chunks = ((refl, omega arith), tt); count = refl; small = omega arith }

-- The kernel takes three bytes, then one at a time, and then has no room.
abbrev outcomes : List Sending
outcomes =
    Sending.room 2
    ∷ Sending.interrupted
    ∷ Sending.room 0
    ∷ Sending.would_block
    ∷ Sending.room 0
    ∷ Sending.room 0
    ∷ []

enqueue_message-Enqueued_example :
    Returns
      (enqueue_message true outcomes half (7 ∷ 8 ∷ 9 ∷ []) 3)
      (Enqueued true outcomes half (7 ∷ 8 ∷ 9 ∷ []))
unfolding turns
enqueue_message-Enqueued_example =
    enqueue_message-Enqueued true outcomes half (7 ∷ 8 ∷ 9 ∷ []) half-IsTx (omega arith)
      (omega arith)
