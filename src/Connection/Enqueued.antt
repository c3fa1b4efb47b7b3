-- ===== src/Connection/Enqueued.antt =====
-- A whole queue is written, and a message is queued behind it.
use pega_s.Prelude.{
  ℕ, ◌+◌, ◌≤◌, ◌<◌, ◌≡◌, ◌⊎◌, refl, sym, ap, subst, ◌∙◌, List, [], ◌∷◌, ◌++◌, append-nil,
  append_assoc, ℤ, pos, minus_one, arith, length, length-append, Returns, inl, inr,
}
use pega_s.Connection.{
  Chunk, Tx, Sending, End, rest_of, after_chunk, write_chunks, handle_write, server_conn_free_tx,
}
use pega_s.Connection.Written.{
  pending, IsChunk, AreChunks, IsTx, turns, length-rest_of, ChunkSent, send_chunk-ChunkSent,
}

-- The kernel gives this outcome once.
abbrev pub Meets : Sending → List Sending → Type 0
Meets outcome outcomes =
    (before : List Sending) × (after : List Sending) × (outcomes ≡ before ++ outcome ∷ after)

-- Outcomes that end with some others meet what the others meet.
later-Meets :
    (outcome : Sending) (outcomes before left : List Sending)
    → outcomes ≡ before ++ left
    → Meets outcome left
    → Meets outcome outcomes
later-Meets outcome outcomes before left split (first, after, e) = (
  before ++ first,
  after,
  split
      ∙ ap (λ (l : List Sending). before ++ l) e
      ∙ sym (append_assoc before first (outcome ∷ after)),
)

-- What a write of some chunks leaves behind.
abbrev pub Wrote : List Sending → List Chunk → ℕ → ℤ × Tx × List ℕ → Type 0
Wrote outcomes chunks mark (code, tx', wire) =
    ((code ≡ pos 0)
      × IsTx tx'
      × (tx'.high_watermark ≡ mark)
      × (wire ++ pending tx'.chunks ≡ pending chunks)
      × (tx'.chunks ≡ [] → tx'.want_epollout ≡ 0)
      × ((tx'.chunks ≡ []) ⊎ Meets Sending.would_block outcomes))
    ⊎ ((code ≡ minus_one)
        × (tx'.chunks ≡ [])
        × (tx'.queued ≡ 0)
        × Meets Sending.failed outcomes
        × (lost : List ℕ) × (wire ++ lost ≡ pending chunks))

nothing_left : (chunk : Chunk) → IsChunk chunk → chunk.off ≡ chunk.len → rest_of chunk ≡ []
nothing_left chunk ok over = empty (rest_of chunk) (omega (arith, length-rest_of chunk ok))
  where
    empty : (xs : List ℕ) → length xs ≡ 0 → xs ≡ []
    empty [] e = refl
    empty (x ∷ xs) e = absurd (omega arith)

then-Wrote :
    (outcomes before left : List Sending) (chunk : Chunk) (chunks : List Chunk) (mark : ℕ)
    (wire : List ℕ) (r : ℤ × Tx × List ℕ)
    → outcomes ≡ before ++ left
    → wire ≡ rest_of chunk
    → Wrote left chunks mark r
    → Wrote outcomes (chunk ∷ chunks) mark (r.0, r.1, wire ++ r.2)
unfolding pending
then-Wrote outcomes before left chunk chunks mark wire (code, tx', more) split all
      (inl (done, ok, same, whole, want, why)) =
    inl (
      done,
      ok,
      same,
      append_assoc wire more (pending tx'.chunks)
          ∙ ap (λ (b : List ℕ). wire ++ b) whole
          ∙ ap (λ (b : List ℕ). b ++ pending chunks) all,
      want,
      elim why [
        | inl none_left ↦ inl none_left
        | inr met ↦ inr (later-Meets Sending.would_block outcomes before left split met)
      ],
    )
then-Wrote outcomes before left chunk chunks mark wire (code, tx', more) split all
      (inr (done, none_left, zeroed, met, lost, whole)) =
    inr (
      done,
      none_left,
      zeroed,
      later-Meets Sending.failed outcomes before left split met,
      lost,
      append_assoc wire more lost
          ∙ ap (λ (b : List ℕ). wire ++ b) whole
          ∙ ap (λ (b : List ℕ). b ++ pending chunks) all,
    )

write_chunks-Wrote :
    (chunks : List Chunk) (outcomes : List Sending) (tx : Tx) (queued : ℕ)
    → AreChunks chunks
    → length (pending chunks) ≡ queued
    → queued < 18446744073709551616
    → queued ≤ turns outcomes
    → Returns (write_chunks outcomes tx chunks queued) (Wrote outcomes chunks tx.high_watermark)
unfolding write_chunks after_chunk pending AreChunks server_conn_free_tx
write_chunks-Wrote [] outcomes tx queued are count small enough = (
  _,
  refl,
  inl (refl, record { chunks = tt; count = count; small = small }, refl, refl, λ e. refl, inl refl),
)
write_chunks-Wrote (chunk ∷ chunks) outcomes tx queued (ok, are) count small enough =
    let sizes = length-append (rest_of chunk) (pending chunks) in
    let (r, e, did) =
      send_chunk-ChunkSent outcomes chunk queued ok (omega arith) small (omega arith) in
    rw e (
      next r did sizes (λ left queued' counted' small' enough'.
        write_chunks-Wrote chunks left tx queued' are counted' small' enough'))
  where
    next :
        (r : End × Chunk × ℕ × List Sending × List ℕ)
        → ChunkSent outcomes chunk queued r
        → length (rest_of chunk ++ pending chunks)
          ≡ length (rest_of chunk) + length (pending chunks)
        → ((left : List Sending) (queued' : ℕ)
            → length (pending chunks) ≡ queued'
            → queued' < 18446744073709551616
            → queued' ≤ turns left
            → Returns (write_chunks left tx chunks queued') (Wrote left chunks tx.high_watermark))
        → Returns
            (after_chunk (λ left queued'. write_chunks left tx chunks queued') tx chunks r)
            (Wrote outcomes (chunk ∷ chunks) tx.high_watermark)
    next (End.sent, chunk', queued', left, wire)
          (ok', whole, counted, (enough', over), before, split) sizes again =
        let gone = nothing_left chunk' ok' over in
        let all : wire ≡ rest_of chunk =
          sym (append-nil wire) ∙ subst (λ (b : List ℕ). wire ++ b ≡ rest_of chunk) gone whole in
        let out : length wire ≡ length (rest_of chunk) = ap (λ (b : List ℕ). length b) all in
        let (r, e, wrote) = again left queued' (omega arith) (omega arith) (omega arith) in
        rw e (
          _,
          refl,
          then-Wrote outcomes before left chunk chunks tx.high_watermark wire r split all wrote,
        )
    next (End.blocked, chunk', queued', left, wire) (ok', whole, counted, _, before, split) sizes
          again =
        (
          _,
          refl,
          inl (
            refl,
            record {
              chunks = (ok', are);
              count =
                  let e = length-append wire (rest_of chunk') in
                  let e' = length-append (rest_of chunk') (pending chunks) in
                  let same = ap (λ (b : List ℕ). length b) whole in omega arith;
              small = omega arith;
            },
            refl,
            sym (append_assoc wire (rest_of chunk') (pending chunks))
                ∙ ap (λ (b : List ℕ). b ++ pending chunks) whole,
            λ absent. absurd (cc),
            inr (before, left, split),
          ),
        )
    next (End.broken, chunk', queued', left, wire) (ok', whole, counted, _, before, split) sizes
          again =
        (
          _,
          refl,
          inr (
            refl,
            refl,
            refl,
            (before, left, split),
            rest_of chunk' ++ pending chunks,
            sym (append_assoc wire (rest_of chunk') (pending chunks))
                ∙ ap (λ (b : List ℕ). b ++ pending chunks) whole,
          ),
        )

-- A queue is sent from its front. With at least as many outcomes that are not interruptions as bytes
-- wait, `handle_write` ends. It returns 0, and then the bytes that went out and those that still wait
-- are those that waited before, in order, the queue counts them, and EPOLLOUT is not asked for when
-- none waits, and some wait only if the kernel had no room; or the send fails, and it returns -1 with
-- the queue freed, and what went out is the beginning of what waited.
pub handle_write-Wrote :
    (outcomes : List Sending) (tx : Tx)
    → IsTx tx
    → tx.queued ≤ turns outcomes
    → Returns (handle_write outcomes tx) (Wrote outcomes tx.chunks tx.high_watermark)
unfolding handle_write
handle_write-Wrote outcomes tx ok enough =
    write_chunks-Wrote tx.chunks outcomes tx tx.queued ok.chunks ok.count ok.small enough
