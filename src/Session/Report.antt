-- ===== src/Session/Report.antt =====
-- What a session does with the code of a play does not fault, and touches only its ring, the client
-- that is awaited and the phase.
use pega_s.Prelude.{
  ℕ, zero, suc, ◌+◌, ◌*◌, ◌≤◌, ◌≡◌, ◌⊎◌, refl, List, [], ◌∷◌, ℤ, pos, negsuc, minus_one, ltb, ◌==◌,
  arith, length, load_in_bounds, Returns, Bool-cases, inl, inr,
}
use pega_s.Ring.{Ring}
use pega_s.SessionBus.{Message}
use pega_s.Protocol.{protocol_max_size, header_size}
use pega_s.Protocol.Packets.{card_size}
use pega_s.Protocol.Pkt
use pega_s.Player.{Cell}
use pega_s.Game.{State, Game}
use pega_s.Game.Row.{InDeck}
use pega_s.Session.{Session}
use pega_s.Session.Send.{session_send_info, session_send_phase_result}
use pega_s.Session.Sound.{
  QueueOk, Sound, Sent, Fine, held_at-Fine, InDeck-at, session_send_to_player-Sent,
}
use pega_s.Session.Info.{session_send_info-Sent, session_send_phase_result-Sent, send_to_all-Sent}
use pega_s.Session.Result.{
  one_more, count_ready, ready_from, await, game_send_request_extra, end_phase,
  handle_result_of_play,
}

count_ready-Fine :
    (ready : List Cell) (rounds i count : ℕ)
    → i + rounds ≤ length ready
    → Fine (count_ready ready rounds i count)
unfolding count_ready
count_ready-Fine ready zero i count h = (count, refl)
count_ready-Fine ready (suc rounds) i count h =
    let (c, at) = load_in_bounds ready i (omega arith) in
    let (n, e) = count_ready-Fine ready rounds (i + 1) (one_more c count) (omega arith) in
    (n, rw at e)

ready_from-Fine :
    (g : Game) (rounds i : ℕ)
    → InDeck g.deck g.card_ready_to_place
    → i + rounds ≤ length g.card_ready_to_place
    → Fine (ready_from g rounds i)
unfolding ready_from
ready_from-Fine g zero i ok h = ([], refl)
ready_from-Fine g (suc rounds) i ok h =
    let (c, at) = load_in_bounds g.card_ready_to_place i (omega arith) in
    let (bytes, e) = held_at-Fine g c (InDeck-at g g.card_ready_to_place i c ok at) in
    let (rest, e') = ready_from-Fine g rounds (i + 1) ok (omega arith) in rw (at, e, e') (_, refl)

-- A session whose ring, awaited client and phase are new.
abbrev pub updated : Session → Ring Message → ℕ → State → Session
updated s queue awaited state = record s {
  write_queue = queue;
  game = record s.game { extra_wait_from = awaited; game_state = state };
}

pub Sound-updated :
    {s : Session} (queue : Ring Message) (awaited : ℕ) (state : State)
    → QueueOk queue
    → Sound s
    → Sound (updated s queue awaited state)
Sound-updated queue awaited state ok v =
    let t = v.table in
    record {
      table = record {
        seats = t.seats;
        ready = t.ready;
        small = t.small;
        lines = t.lines;
        wide = t.wide;
        cells = t.cells;
        dealt = t.dealt;
        board_ok = t.board_ok;
        ready_ok = t.ready_ok;
        seats_ok = t.seats_ok;
      };
      queue = ok;
      hands = v.hands;
    }

-- The client awaited is the old one, or the one asked.
abbrev pub Awaits : Session → ℕ → Session → Type 0
Awaits s user_id s' =
    (queue : Ring Message) × (awaited : ℕ) × QueueOk queue
    × (s' ≡ updated s queue awaited s.game.game_state)
    × ((awaited ≡ s.game.extra_wait_from) ⊎ (awaited ≡ user_id))

await-Awaits :
    (s : Session) (user_id : ℕ) (r : ℤ × Session)
    → Sent s r.1
    → Awaits s user_id (await user_id r).1
unfolding await
await-Awaits s user_id (negsuc zero, s') (queue, e, ok) =
    (queue, s.game.extra_wait_from, ok, e, inl refl)
await-Awaits s user_id (negsuc (suc n), s') (queue, e, ok) =
    (queue, user_id, ok, rw e refl, inr refl)
await-Awaits s user_id (pos n, s') (queue, e, ok) = (queue, user_id, ok, rw e refl, inr refl)

game_send_request_extra-Awaits :
    (s : Session) (user_id : ℕ)
    → Sound s
    → Returns (game_send_request_extra s user_id) (λ r. Awaits s user_id r.1)
unfolding game_send_request_extra
game_send_request_extra-Awaits s user_id v =
    let unsent : Awaits s user_id s =
      (s.write_queue, s.game.extra_wait_from, v.queue, refl, inl refl) in
    let (count, e) =
      count_ready-Fine s.game.card_ready_to_place s.max_clients 0 0
        (omega (arith, v.table.ready)) in
    let (cards, e') =
      ready_from-Fine s.game s.max_clients 0 v.table.ready_ok (omega (arith, v.table.ready)) in
    elim (Bool-cases (count == 0)) [
      | inl empty ↦ rw (e, empty) ((minus_one, s), refl, unsent)
      | inr cards_wait ↦
          elim (Bool-cases (ltb protocol_max_size (header_size + (1 + count * card_size)))) [
            | inl long ↦ rw (e, cards_wait, long) ((minus_one, s), refl, unsent)
            | inr fits ↦
                let (r, e'', did) =
                  session_send_to_player-Sent s user_id Pkt.request_extra (count ∷ cards) v.queue in
                rw (e, cards_wait, fits, e', e'') (_, refl, await-Awaits s user_id r did)
          ]
    ]

-- The phase after a play.
abbrev pub phase_after : ℤ → State → State
phase_after (negsuc (suc (suc zero))) state = State.inactive
phase_after (negsuc (suc (suc (suc n)))) state = state
phase_after (negsuc (suc zero)) state = state
phase_after (negsuc zero) state = state
phase_after (pos n) state = state

-- The client awaited after a play.
abbrev pub IsAwaited : ℤ → ℕ → ℕ → Type 0
IsAwaited (negsuc n) old awaited = awaited ≡ old
IsAwaited (pos zero) old awaited = awaited ≡ old
IsAwaited (pos (suc n)) old awaited = (awaited ≡ old) ⊎ (awaited ≡ suc n)

-- What `handle_result_of_play` leaves behind.
abbrev pub Reported : Session → ℤ → Session → Type 0
Reported s code s' =
    (queue : Ring Message) × (awaited : ℕ) × QueueOk queue
    × (s' ≡ updated s queue awaited (phase_after code s.game.game_state))
    × IsAwaited code s.game.extra_wait_from awaited

-- Whatever the code of a play, on a sound session `handle_result_of_play` does not fault, and
-- changes at most the ring, which stays in order, the client that is awaited, which becomes none but
-- the one asked, if the code is a client, and the phase, which ends if the code is -3.
pub handle_result_of_play-Reported :
    (s : Session) (code : ℤ) → Sound s → Returns (handle_result_of_play s code) (Reported s code)
unfolding handle_result_of_play end_phase
handle_result_of_play-Reported s (pos zero) v = (s, refl, (_, _, v.queue, refl, refl))
handle_result_of_play-Reported s (pos (suc n)) v =
    let (r, e, did) = game_send_request_extra-Awaits s (suc n) v in rw e (r.1, refl, did)
handle_result_of_play-Reported s (negsuc zero) v = (s, refl, (_, _, v.queue, refl, refl))
handle_result_of_play-Reported s (negsuc (suc zero)) v =
    let (s', e, (queue, same, ok)) =
      send_to_all-Sent session_send_info session_send_info-Sent s s.max_clients 0 v
        (omega (arith, v.table.seats)) in
    (s', e, (queue, s.game.extra_wait_from, ok, same, refl))
handle_result_of_play-Reported s (negsuc (suc (suc zero))) v =
    let (s', e, (queue, same, ok)) =
      send_to_all-Sent session_send_phase_result session_send_phase_result-Sent s s.max_clients 0 v
        (omega (arith, v.table.seats)) in
    rw (e, same) (_, refl, (queue, s.game.extra_wait_from, ok, refl, refl))
handle_result_of_play-Reported s (negsuc (suc (suc (suc n)))) v =
    (s, refl, (_, _, v.queue, refl, refl))
