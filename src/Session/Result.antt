-- ===== src/Session/Result.antt =====
-- What a session does with the code of `place_card`: `game_send_request_extra` of
-- Session/Game/game_packet.c and `handle_result_of_play` of Session/message_handler.c.
use pega_s.Prelude.{
  ℕ, zero, suc, ◌+◌, ◌*◌, Option, none, some, List, [], ◌∷◌, ◌++◌, ℤ, pos, negsuc, minus_one, ltb,
  ◌==◌, if◌then◌else◌, u8, load, ◌>>=◌,
}
use pega_s.Protocol.{protocol_max_size, header_size}
use pega_s.Protocol.Packets.{card_size}
use pega_s.Protocol.Pkt
use pega_s.Player.{Cell}
use pega_s.Game.{State, Game}
use pega_s.Session.{Session}
use pega_s.Session.Send.{
  held_at, session_send_to_player, session_send_info, session_send_phase_result, send_to_all,
}

abbrev pub one_more : Cell → ℕ → ℕ
one_more none n = n
one_more (some c) n = u8 (n + 1)

-- `card_count`, over the rounds left.
unfoldable pub count_ready : List Cell → ℕ → ℕ → ℕ → Option ℕ
count_ready ready zero i count = some count
count_ready ready (suc rounds) i count = do
  c ← load ready i
  count_ready ready rounds (i + 1) (one_more c count)

-- The cards that wait, over the rounds left.
unfoldable pub ready_from : Game → ℕ → ℕ → Option (List ℕ)
ready_from g zero i = some []
ready_from g (suc rounds) i = do
  c ← load g.card_ready_to_place i
  bytes ← held_at g c
  rest ← ready_from g rounds (i + 1)
  some (bytes ++ rest)

-- The answer is awaited if the packet was sent.
unfoldable pub await : ℕ → ℤ × Session → ℤ × Session
await user_id (negsuc zero, s) = (minus_one, s)
await user_id (negsuc (suc n), s) =
    (negsuc (suc n), record s { game = record (s.game) { extra_wait_from = user_id } })
await user_id (pos n, s) =
    (pos n, record s { game = record (s.game) { extra_wait_from = user_id } })

unfoldable pub game_send_request_extra : Session → ℕ → Option (ℤ × Session)
game_send_request_extra s user_id = do
  count ← count_ready s.game.card_ready_to_place s.max_clients 0 0
  if count == 0
      then some (minus_one, s)
      else if ltb protocol_max_size (header_size + (1 + count * card_size))
      then some (minus_one, s)
      else (ready_from s.game s.max_clients 0 >>= λ cards.
          session_send_to_player s user_id Pkt.request_extra (count ∷ cards) >>= λ r.
          some (await user_id r))

-- The phase is over.
unfoldable pub end_phase : Session → Session
end_phase s = record s { game = record (s.game) { game_state = State.inactive } }

-- It returns 0; here it returns the session.
unfoldable pub handle_result_of_play : Session → ℤ → Option Session
handle_result_of_play s (pos zero) = some s
handle_result_of_play s (pos (suc n)) = game_send_request_extra s (suc n) >>= λ r. some r.1
handle_result_of_play s (negsuc zero) = some s
handle_result_of_play s (negsuc (suc zero)) = send_to_all session_send_info s s.max_clients 0
handle_result_of_play s (negsuc (suc (suc zero))) =
    send_to_all session_send_phase_result s s.max_clients 0 >>= λ s'. some (end_phase s')
handle_result_of_play s (negsuc (suc (suc (suc n)))) = some s
