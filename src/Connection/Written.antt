-- ===== src/Connection/Written.antt =====
-- What goes out is what was queued, in order.
use pega_s.Prelude.{
  ℕ, zero, suc, ◌+◌, ◌-◌, ◌^◌, ◌≤◌, ◌<◌, ◌≡◌, refl, sym, ap, ◌∙◌, false, List, [], ◌∷◌, ◌++◌,
  append_assoc, ltb, arith, u64, length, length-append, length-take, take, drop, take-append-drop,
  Returns, Bool-cases, inl, inr,
}
use pega_s.Connection.{Chunk, Tx, Sending, End, advance, rest_of, taken, send_chunk}

-- The bytes that wait in some chunks.
unfoldable pub pending : List Chunk → List ℕ
pending [] = []
pending (chunk ∷ chunks) = rest_of chunk ++ pending chunks

-- A chunk is as long as it says, and no more of it has been sent.
abbrev pub IsChunk : Chunk → Type 0
IsChunk chunk = (length chunk.bytes ≡ chunk.len) × (chunk.off ≤ chunk.len)

unfoldable pub AreChunks : List Chunk → Type 0
AreChunks [] = Unit
AreChunks (chunk ∷ chunks) = IsChunk chunk × AreChunks chunks

-- A queue counts its bytes.
pub record IsTx (tx : Tx) : Type 0 where
  pub chunks : AreChunks tx.chunks
  pub count : length (pending tx.chunks) ≡ tx.queued
  pub small : tx.queued < 18446744073709551616

-- How often the kernel does more than to interrupt.
unfoldable pub turns : List Sending → ℕ
turns [] = 0
turns (Sending.room n ∷ later) = suc (turns later)
turns (Sending.interrupted ∷ later) = turns later
turns (Sending.would_block ∷ later) = suc (turns later)
turns (Sending.failed ∷ later) = suc (turns later)

length-drop : (n : ℕ) (xs : List ℕ) → length (drop n xs) ≡ length xs - n
length-drop zero xs = omega arith
length-drop (suc n) [] = omega arith
length-drop (suc n) (x ∷ xs) = omega (arith, length-drop n xs)

drop-nil : (n : ℕ) → drop {A = ℕ} n [] ≡ []
drop-nil zero = refl
drop-nil (suc n) = refl

drop-drop : (k n : ℕ) (xs : List ℕ) → drop k (drop n xs) ≡ drop (n + k) xs
drop-drop k zero xs = ap (λ (i : ℕ). drop i xs) {y = zero + k} (omega arith)
drop-drop k (suc n) [] = drop-nil k ∙ sym (drop-nil (suc n + k))
drop-drop k (suc n) (x ∷ xs) =
    drop-drop k n xs ∙ ap (λ (i : ℕ). drop i (x ∷ xs)) {x = suc (n + k)} (omega arith)

pub length-rest_of :
    (chunk : Chunk) → IsChunk chunk → length (rest_of chunk) + chunk.off ≡ chunk.len
length-rest_of chunk (e, h) = omega (arith, length-drop chunk.off chunk.bytes)

rest_of-advance :
    (chunk : Chunk) (k : ℕ) → take k (rest_of chunk) ++ rest_of (advance chunk k) ≡ rest_of chunk
rest_of-advance chunk k =
    let e = drop-drop k chunk.off chunk.bytes in rw (← e) (take-append-drop k (rest_of chunk))

-- What holds if the loop sent the whole chunk.
abbrev WhenSent : End → Type 0 → Type 0
WhenSent End.sent P = P
WhenSent End.blocked P = Unit
WhenSent End.broken P = Unit

-- The outcomes from the one that ended the loop on, if one did.
abbrev pub ending : End → List Sending → List Sending
ending End.sent left = left
ending End.blocked left = Sending.would_block ∷ left
ending End.broken left = Sending.failed ∷ left

-- What the inner loop leaves of a chunk and of the outcomes.
abbrev pub ChunkSent : List Sending → Chunk → ℕ → End × Chunk × ℕ × List Sending × List ℕ → Type 0
ChunkSent outcomes chunk queued (end, chunk', queued', left, wire) =
    IsChunk chunk'
    × (wire ++ rest_of chunk' ≡ rest_of chunk)
    × (queued' + length wire ≡ queued)
    × WhenSent end ((turns outcomes ≤ turns left + length wire) × (chunk'.off ≡ chunk'.len))
    × (before : List Sending) × (outcomes ≡ before ++ ending end left)

at_end :
    (outcomes : List Sending) (chunk : Chunk) (queued : ℕ)
    → IsChunk chunk
    → ltb chunk.off chunk.len ≡ false
    → ChunkSent outcomes chunk queued (End.sent, chunk, queued, outcomes, [])
at_end outcomes chunk queued ok over =
    (ok, refl, omega arith, (omega arith, let h = ok.1 in ground arith), [], refl)

advance-IsChunk : (chunk : Chunk) (n : ℕ) → IsChunk chunk → IsChunk (advance chunk (taken chunk n))
advance-IsChunk chunk n (e, h) = (e, omega arith)

ChunkSent-room :
    (n k : ℕ) (later : List Sending) (chunk : Chunk) (queued : ℕ)
    (r : End × Chunk × ℕ × List Sending × List ℕ)
    → 0 < k
    → k ≤ queued
    → length (take k (rest_of chunk)) ≡ k
    → ChunkSent later (advance chunk k) (queued - k) r
    → ChunkSent
        (Sending.room n ∷ later)
        chunk
        queued
        (r.0, r.1, r.2, r.3, take k (rest_of chunk) ++ r.4)
unfolding turns
ChunkSent-room n k later chunk queued (end, chunk', queued', left, wire) some_byte much out
      (ok, whole, counted, last, before, split) =
    (
      ok,
      append_assoc (take k (rest_of chunk)) wire (rest_of chunk')
          ∙ ap (λ (b : List ℕ). take k (rest_of chunk) ++ b) whole
          ∙ rest_of-advance chunk k,
      omega (arith, counted, out, length-append (take k (rest_of chunk)) wire),
      finish end last,
      Sending.room n ∷ before,
      ap (◌∷◌ (Sending.room n)) split,
    )
  where
    finish :
        (end : End)
        → WhenSent end ((turns later ≤ turns left + length wire) × (chunk'.off ≡ chunk'.len))
        → WhenSent end (
            (suc (turns later) ≤ turns left + length (take k (rest_of chunk) ++ wire))
            × (chunk'.off ≡ chunk'.len))
    finish End.sent (enough, over) =
        (omega (arith, enough, out, length-append (take k (rest_of chunk)) wire), over)
    finish End.blocked last = tt
    finish End.broken last = tt

pub send_chunk-ChunkSent :
    (outcomes : List Sending) (chunk : Chunk) (queued : ℕ)
    → IsChunk chunk
    → length (rest_of chunk) ≤ queued
    → queued < 18446744073709551616
    → length (rest_of chunk) ≤ turns outcomes
    → Returns (send_chunk outcomes chunk queued) (ChunkSent outcomes chunk queued)
unfolding send_chunk turns
send_chunk-ChunkSent [] chunk queued ok much small enough =
    let left = length-rest_of chunk ok in
    let over : ltb chunk.off chunk.len ≡ false = ground arith in
    rw over (_, refl, at_end [] chunk queued ok over)
send_chunk-ChunkSent (Sending.room n ∷ later) chunk queued ok much small enough =
    elim (Bool-cases (ltb chunk.off chunk.len)) [
      | inr over ↦ rw over (_, refl, at_end (Sending.room n ∷ later) chunk queued ok over)
      | inl more ↦
          let k = taken chunk n in
          let size = length-rest_of chunk ok in
          let under : chunk.off < chunk.len = ground arith in
          let some_byte : 0 < k = omega arith in
          let inside : k ≤ length (rest_of chunk) = omega arith in
          let less : u64 (queued + 2 ^ 64 - k) ≡ queued - k = omega arith in
          let ok' = advance-IsChunk chunk n ok in
          let size' = length-rest_of (advance chunk k) ok' in
          let (r, e, did) =
            send_chunk-ChunkSent later (advance chunk k) (queued - k) ok' (omega arith)
              (omega arith) (omega arith) in
          rw (more, less, e)
            (
              _,
              refl,
              ChunkSent-room n k later chunk queued r some_byte (omega arith)
                  (omega (arith, length-take k (rest_of chunk))) did,
            )
    ]
send_chunk-ChunkSent (Sending.interrupted ∷ later) chunk queued ok much small enough =
    elim (Bool-cases (ltb chunk.off chunk.len)) [
      | inr over ↦ rw over (_, refl, at_end (Sending.interrupted ∷ later) chunk queued ok over)
      | inl more ↦
          let ((end, chunk', queued', left, wire), e, (ok', whole, counted, last, before, split)) =
            send_chunk-ChunkSent later chunk queued ok much small enough in
          rw more (
            (end, chunk', queued', left, wire),
            e,
            (
              ok',
              whole,
              counted,
              last,
              Sending.interrupted ∷ before,
              ap (◌∷◌ Sending.interrupted) split,
            ),
          )
    ]
send_chunk-ChunkSent (Sending.would_block ∷ later) chunk queued ok much small enough =
    elim (Bool-cases (ltb chunk.off chunk.len)) [
      | inr over ↦ rw over (_, refl, at_end (Sending.would_block ∷ later) chunk queued ok over)
      | inl more ↦ rw more (_, refl, (ok, refl, omega arith, tt, [], refl))
    ]
send_chunk-ChunkSent (Sending.failed ∷ later) chunk queued ok much small enough =
    elim (Bool-cases (ltb chunk.off chunk.len)) [
      | inr over ↦ rw over (_, refl, at_end (Sending.failed ∷ later) chunk queued ok over)
      | inl more ↦ rw more (_, refl, (ok, refl, omega arith, tt, [], refl))
    ]
