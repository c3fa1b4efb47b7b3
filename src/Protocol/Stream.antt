-- ===== src/Protocol/Stream.antt =====
-- The receive buffer as a stream of bytes: what `rx_try_extract_frame` takes from it, and what the
-- caller then reads as the payload.
use pega_s.Prelude.{
  ℕ, ◌+◌, ◌-◌, ◌*◌, ◌≤◌, ◌≡◌, refl, sym, ap₂, ◌∙◌, Option, none, some, List, [], ◌∷◌, ◌++◌, ℤ, pos,
  negsuc, minus_one, ltb, arith, u16, Bool-cases, ◌⊎◌, inl, inr, false, ◌==◌, ==_iff, length, take,
  drop, take-append, drop-take, take-take_self, length-take, length-drop, length-append, Returns,
}
use pega_s.Protocol.{
  Header, protocol_max_size, header_size, protocol_header_validate, protocol_header_decode,
  read_header, try_peek_header, checked, checked_as,
}
use pega_s.Protocol.Rx.{
  Rx, Frame, move_down, cut_frame, sized_frame, frame_of, rx_try_extract_frame, pending,
}

pub record IsRx (rx : Rx) : Type 0 where
  pub full : length rx.buf ≡ protocol_max_size
  pub some_have : rx.have ≤ protocol_max_size

-- The number of bytes of the frame of a header.
abbrev pub frame_size : Header → ℕ
frame_size h = h.payload_length + header_size

-- What the call does to the stream.
abbrev pub Extracted : Rx → ℤ × Option Frame × Rx → Type 0
Extracted rx (code, frame, rx') =
    ((code ≡ pos 0) × (frame ≡ none) × (rx' ≡ rx))
    ⊎ ((code ≡ minus_one) × (frame ≡ none) × (rx' ≡ rx))
    ⊎ ((header : Header) × (code ≡ pos 1)
        × (frame ≡ some (header, header.payload_length))
        × (rx.have ≡ frame_size header + rx'.have)
        × (pending rx' ≡ drop (frame_size header) (pending rx))
        × IsRx rx')

cut_frame-Extracted :
    (rx : Rx) (h : Header) (total : ℕ)
    → IsRx rx
    → total ≡ frame_size h
    → total ≤ rx.have
    → Returns (cut_frame rx h total) (Extracted rx)
unfolding cut_frame move_down
cut_frame-Extracted rx h total v e fits = elim (Bool-cases (rx.have - total == 0)) [
  | inl alone ↦
      let whole : rx.have ≡ total + 0 = omega (arith, (==_iff (rx.have - total) 0).0 alone) in
      let nothing : rx.have - total ≡ 0 = omega arith in
      rw (alone, nothing)
        (
          (pos 1, some (h, h.payload_length), record { buf = rx.buf; have = 0 }),
          refl,
          inr (
              inr (
                h,
                refl,
                refl,
                omega arith,
                rw (whole, ← e) (sym (drop-take total 0 rx.buf)),
                record { full = v.full; some_have = omega arith },
              )),
        )
  | inr more ↦
      let remain = rx.have - total in
      let whole : rx.have ≡ total + remain = omega arith in
      let inside : ltb (length rx.buf) (total + remain) ≡ false =
        ground (arith, v.full, v.some_have) in
      let kept = take remain (drop total rx.buf) in
      let kept_length : length kept ≡ remain = omega (
        arith,
        length-take remain (drop total rx.buf),
        length-drop total rx.buf,
        v.full,
        v.some_have,
      ) in
      let buf = kept ++ drop remain rx.buf in
      rw (more, inside)
        (
          (pos 1, some (h, h.payload_length), record { buf = buf; have = remain }),
          refl,
          inr (
              inr (
                h,
                refl,
                refl,
                omega arith,
                take-append remain kept (drop remain rx.buf) (omega (arith, kept_length))
                    ∙ take-take_self remain (drop total rx.buf)
                    ∙ sym (drop-take total remain rx.buf)
                    ∙ ap₂ (λ (n k : ℕ). drop n (take k rx.buf)) e (sym whole),
                record {
                  full = omega (
                    arith,
                    length-append kept (drop remain rx.buf),
                    kept_length,
                    length-drop remain rx.buf,
                    v.full,
                    v.some_have,
                  );
                  some_have = omega (arith, v.some_have);
                },
              )),
        )
]

sized_frame-Extracted : (rx : Rx) (h : Header) → IsRx rx → Returns (sized_frame rx h) (Extracted rx)
unfolding sized_frame
sized_frame-Extracted rx h v = elim (Bool-cases (ltb protocol_max_size (frame_size h))) [
  | inl big ↦ rw big ((minus_one, none, rx), refl, inr (inl (refl, refl, refl)))
  | inr fits ↦ rw fits (elim (Bool-cases (ltb rx.have (frame_size h))) [
    | inl short ↦ rw short ((pos 0, none, rx), refl, inl (refl, refl, refl))
    | inr enough ↦ rw enough (cut_frame-Extracted rx h (frame_size h) v refl (ground arith))
  ])
]

-- What `try_peek_header` tells of a buffer.
abbrev Peeked : ℤ × Option Header → Type 0
Peeked (code, header) = (code ≡ negsuc 1) ⊎ ((h : Header) × (code ≡ pos 0) × (header ≡ some h))

read_header-some : (buf : List ℕ) → 6 ≤ length buf → (h : Header) × (read_header buf ≡ some h)
unfolding read_header
read_header-some [] h = absurd (omega arith)
read_header-some (a ∷ []) h = absurd (omega arith)
read_header-some (a ∷ b ∷ []) h = absurd (omega arith)
read_header-some (a ∷ b ∷ c ∷ []) h = absurd (omega arith)
read_header-some (a ∷ b ∷ c ∷ d ∷ []) h = absurd (omega arith)
read_header-some (a ∷ b ∷ c ∷ d ∷ e ∷ []) h = absurd (omega arith)
read_header-some (a ∷ b ∷ c ∷ d ∷ e ∷ f ∷ rest) h = (
  record { magic = a + b * 256; version = c; packet_type = d; payload_length = e + f * 256 },
  refl,
)

checked-Peeked : (h : Header) (code : ℤ) → Peeked (checked_as h code)
unfolding checked_as
checked-Peeked h (pos n) = inr (h, refl, refl)
checked-Peeked h (negsuc n) = inl refl

frame_of-Extracted :
    (rx : Rx) (peeked : ℤ × Option Header)
    → IsRx rx
    → Peeked peeked
    → Returns (frame_of rx peeked) (Extracted rx)
unfolding frame_of
frame_of-Extracted rx (code, header) v (inl failed) =
    rw failed ((minus_one, none, rx), refl, inr (inl (refl, refl, refl)))
frame_of-Extracted rx (code, header) v (inr (h, ready, e)) =
    rw (ready, e) (sized_frame-Extracted rx h v)

-- On a receive buffer of its full size that does not claim to have more, `rx_try_extract_frame` does
-- not fault. It returns 0 or -1 and leaves the buffer as it is, or it returns 1 with a header, takes
-- exactly the bytes of that header's frame off the front of the bytes received, and leaves such a
-- buffer.
pub rx_try_extract_frame-Extracted :
    {rx : Rx} → IsRx rx → Returns (rx_try_extract_frame rx) (Extracted rx)
unfolding rx_try_extract_frame try_peek_header
rx_try_extract_frame-Extracted {rx} v = elim (Bool-cases (ltb rx.have header_size)) [
  | inl short ↦ rw short ((pos 0, none, rx), refl, inl (refl, refl, refl))
  | inr enough ↦
      let word : u16 rx.have ≡ rx.have = omega (arith, v.some_have) in
      let (network, read) = read_header-some rx.buf (omega (arith, v.full)) in
      rw (enough, word, enough, read)
        (frame_of-Extracted rx (checked (protocol_header_decode network)) v (
          checked-Peeked (protocol_header_decode network)
            (protocol_header_validate (protocol_header_decode network))))
]
