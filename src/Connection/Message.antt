-- ===== src/Connection/Message.antt =====
-- A message goes behind what waits: `enqueue_message` of Server/server_client.c.
use pega_s.Prelude.{
  ℕ, ◌+◌, ◌≤◌, ◌<◌, ◌≡◌, ◌⊎◌, refl, sym, ap, subst, ◌∙◌, Bool, true, false, List, [], ◌∷◌, ◌++◌,
  append-nil, append_assoc, ℤ, pos, minus_one, ltb, arith, u64, length, length-append, Returns,
  Bool-cases, inl, inr,
}
use pega_s.Connection.{Chunk, Tx, Sending, rest_of, after_write, wanting, enqueue_message}
use pega_s.Connection.Written.{pending, IsChunk, AreChunks, IsTx, turns}
use pega_s.Connection.Enqueued.{Meets, Wrote, handle_write-Wrote}

-- EPOLLOUT is asked for exactly while bytes wait.
abbrev pub Wants : Tx → List Chunk → Type 0
Wants tx [] = tx.want_epollout ≡ 0
Wants tx (chunk ∷ chunks) = tx.want_epollout ≡ 1

-- The message fits below the watermark, and there is memory for it.
abbrev pub Accepted : Bool → Tx → List ℕ → Type 0
Accepted memory tx buffer = (tx.queued + length buffer ≤ tx.high_watermark) × (memory ≡ true)

-- What `enqueue_message` leaves behind.
abbrev pub Enqueued : Bool → List Sending → Tx → List ℕ → ℤ × Tx × List ℕ → Type 0
Enqueued memory outcomes tx buffer (code, tx', wire) =
    ((code ≡ minus_one)
      × (tx' ≡ tx)
      × (wire ≡ [])
      × ((tx.high_watermark < tx.queued + length buffer) ⊎ (memory ≡ false)))
    ⊎ (Accepted memory tx buffer
        × (code ≡ pos 0)
        × IsTx tx'
        × (tx'.queued ≤ tx'.high_watermark)
        × (wire ++ pending tx'.chunks ≡ pending tx.chunks ++ buffer)
        × Wants tx' tx'.chunks
        × ((tx'.chunks ≡ []) ⊎ Meets Sending.would_block outcomes))
    ⊎ (Accepted memory tx buffer
        × (code ≡ minus_one)
        × (tx'.chunks ≡ [])
        × (tx'.queued ≡ 0)
        × Meets Sending.failed outcomes
        × (lost : List ℕ) × (wire ++ lost ≡ pending tx.chunks ++ buffer))

pending-append :
    (chunks : List Chunk) (chunk : Chunk)
    → pending (chunks ++ chunk ∷ []) ≡ pending chunks ++ rest_of chunk
unfolding pending
pending-append [] chunk = append-nil (rest_of chunk)
pending-append (c ∷ chunks) chunk =
    ap (λ (b : List ℕ). rest_of c ++ b) (pending-append chunks chunk)
    ∙ sym (append_assoc (rest_of c) (pending chunks) (rest_of chunk))

append-AreChunks :
    (chunks : List Chunk) (chunk : Chunk)
    → AreChunks chunks
    → IsChunk chunk
    → AreChunks (chunks ++ chunk ∷ [])
unfolding AreChunks
append-AreChunks [] chunk are is = (is, tt)
append-AreChunks (c ∷ chunks) chunk (ok, are) is = (ok, append-AreChunks chunks chunk are is)

-- The queue with a new chunk.
abbrev behind : Tx → List ℕ → Tx
behind tx buffer = record tx {
  chunks = tx.chunks ++ record { bytes = buffer; len = length buffer; off = 0 } ∷ [];
  queued = tx.queued + length buffer;
}

behind-IsTx :
    (tx : Tx) (buffer : List ℕ)
    → IsTx tx
    → tx.queued + length buffer < 18446744073709551616
    → (pending (behind tx buffer).chunks ≡ pending tx.chunks ++ buffer) × IsTx (behind tx buffer)
behind-IsTx tx buffer ok small =
    let chunk : Chunk = record { bytes = buffer; len = length buffer; off = 0 } in
    let waits = pending-append tx.chunks chunk in
    (
      waits,
      record {
        chunks = append-AreChunks tx.chunks chunk ok.chunks (refl, omega arith);
        count =
            ap (λ (b : List ℕ). length b) waits
            ∙ length-append (pending tx.chunks) buffer
            ∙ ap (λ (n : ℕ). n + length buffer) ok.count;
        small = small;
      },
    )

wanting-IsTx : (tx : Tx) (chunks : List Chunk) → IsTx tx → IsTx (wanting tx chunks)
wanting-IsTx tx [] ok = ok
wanting-IsTx tx (chunk ∷ chunks) ok = record {
  chunks = ok.chunks;
  count = ok.count;
  small = ok.small;
}

wanting-Wants :
    (tx : Tx) (chunks : List Chunk)
    → tx.chunks ≡ chunks
    → (tx.chunks ≡ [] → tx.want_epollout ≡ 0)
    → Wants (wanting tx chunks) (wanting tx chunks).chunks
      × ((wanting tx chunks).chunks ≡ tx.chunks)
      × ((wanting tx chunks).queued ≡ tx.queued)
      × ((wanting tx chunks).high_watermark ≡ tx.high_watermark)
wanting-Wants tx [] same idle =
    (subst (λ (c : List Chunk). Wants tx c) (sym same) (idle same), refl, refl, refl)
wanting-Wants tx (chunk ∷ chunks) same idle = (
  subst (λ (c : List Chunk). Wants (wanting tx (chunk ∷ chunks)) c) (sym same) refl,
  refl,
  refl,
  refl,
)

after_write-Enqueued :
    (outcomes : List Sending) (tx : Tx) (buffer : List ℕ) (chunks : List Chunk)
    (r : ℤ × Tx × List ℕ)
    → pending chunks ≡ pending tx.chunks ++ buffer
    → length (pending chunks) ≤ tx.high_watermark
    → tx.queued + length buffer ≤ tx.high_watermark
    → Wrote outcomes chunks tx.high_watermark r
    → Enqueued true outcomes tx buffer (after_write r)
unfolding after_write
after_write-Enqueued outcomes tx buffer chunks (code, tx', wire) waits fits below
      (inl (done, ok, mark, whole, idle, why)) =
    let (wants, same, count, mark') = wanting-Wants tx' tx'.chunks refl idle in
    let sizes = length-append wire (pending tx'.chunks) in
    let size = ap (λ (b : List ℕ). length b) whole in
    let counted = ok.count in
    let low : (wanting tx' tx'.chunks).queued ≤ (wanting tx' tx'.chunks).high_watermark =
      omega arith in
    let bytes : wire ++ pending (wanting tx' tx'.chunks).chunks ≡ pending tx.chunks ++ buffer =
      ap (λ (c : List Chunk). wire ++ pending c) same ∙ whole ∙ waits in
    let why' : ((wanting tx' tx'.chunks).chunks ≡ []) ⊎ Meets Sending.would_block outcomes =
      subst (λ (c : List Chunk). (c ≡ []) ⊎ Meets Sending.would_block outcomes) (sym same) why in
    rw done
      (inr (inl ((below, refl), refl, wanting-IsTx tx' tx'.chunks ok, low, bytes, wants, why')))
after_write-Enqueued outcomes tx buffer chunks (code, tx', wire) waits fits below
      (inr (done, none_left, zeroed, met, lost, whole)) =
    rw done (inr (inr ((below, refl), refl, none_left, zeroed, met, lost, whole ∙ waits)))

-- On a queue that counts its bytes, for a message with which the count stays below 2^64, and with at
-- least as many outcomes that are not interruptions as there are bytes then, `enqueue_message` ends.
-- It returns -1 and changes nothing exactly if the queue would pass its watermark or malloc fails.
-- Otherwise it returns 0, and then the bytes that went out and those that wait are those that waited
-- and the message, in order, the queue counts them and is within its watermark, EPOLLOUT is asked
-- for exactly if some wait, and some wait only if the kernel had no room once; or it returns -1 with
-- the queue freed, only if a send failed, and what went out is the beginning of those bytes.
pub enqueue_message-Enqueued :
    (memory : Bool) (outcomes : List Sending) (tx : Tx) (buffer : List ℕ)
    → IsTx tx
    → tx.queued + length buffer < 18446744073709551616
    → tx.queued + length buffer ≤ turns outcomes
    → Returns
        (enqueue_message memory outcomes tx buffer (length buffer))
        (Enqueued memory outcomes tx buffer)
unfolding enqueue_message
enqueue_message-Enqueued memory outcomes tx buffer ok small enough =
    let whole : u64 (tx.queued + length buffer) ≡ tx.queued + length buffer = omega arith in
    elim (Bool-cases (ltb tx.high_watermark (tx.queued + length buffer))) [
      | inl over ↦
          rw (whole, over) ((minus_one, tx, []), refl, inl (refl, refl, refl, inl (ground arith)))
      | inr fits ↦ elim (Bool-cases memory) [
        | inr denied ↦
            rw (whole, fits, denied) ((minus_one, tx, []), refl, inl (refl, refl, refl, inr refl))
        | inl given ↦
            let (waits, ok') = behind-IsTx tx buffer ok small in
            let (r, e, wrote) = handle_write-Wrote outcomes (behind tx buffer) ok' enough in
            rw (whole, fits, given, e)
              (
                _,
                refl,
                after_write-Enqueued outcomes tx buffer (behind tx buffer).chunks r waits
                    (let count = ok'.count in ground arith) (ground arith) wrote,
              )
      ]
    ]
