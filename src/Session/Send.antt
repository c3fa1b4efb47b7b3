-- ===== src/Session/Send.antt =====
-- What a session sends: Session/session_packet.c. A message goes into the ring that the server reads.
-- The packets' blocks are written from start to end, so a payload is a list. Malloc is taken to
-- succeed here, and what the log is told is left out.
use pega_s.Prelude.{
  ℕ, zero, suc, ◌+◌, ◌*◌, Bool, true, false, not, ◌||◌, Option, none, some, List, [], ◌++◌, ℤ, pos,
  negsuc, minus_one, ltb, ◌==◌, if◌then◌else◌, u8, u16, length, load, replicate, ◌>>=◌,
}
use pega_s.Ring.{Ring}
use pega_s.SessionBus.{Message, SystemType, sp_max_frame, session_bus_push}
use pega_s.ByteBuffer.{bytes_of_uint16}
use pega_s.Protocol.{protocol_max_size, header_size}
use pega_s.Protocol.Packets.{
  error_payload, state_payload, card_size, card_payload, score_size, score_payload,
}
use pega_s.Protocol.Pkt
use pega_s.Player.{Cell, Player, is_player, calc_hand_count}
use pega_s.Game.{Game}
use pega_s.Session.{Session, get_index_by_id}

-- The result of a send, from that of the push: 0, or -1 for any error.
unfoldable pub sent : Session → ℤ × Ring Message → ℤ × Session
sent s (pos zero, queue) = (pos 0, record s { write_queue = queue })
sent s (pos (suc n), queue) = (minus_one, record s { write_queue = queue })
sent s (negsuc n, queue) = (minus_one, record s { write_queue = queue })

unfoldable pub session_send_to_player : Session → ℕ → ℕ → List ℕ → Option (ℤ × Session)
session_send_to_player s user_id packet_type payload =
    if ltb sp_max_frame (length payload)
    then some (minus_one, s)
    else (session_bus_push s.write_queue (
          Message.user
            (record { client_id = user_id; packet_type = u8 packet_type; payload = payload }))
        >>= λ r. some (sent s r))

unfoldable pub send_system_message_to_server : Session → ℕ → SystemType → Option (ℤ × Session)
send_system_message_to_server s user_id message_type =
    session_bus_push s.write_queue (
      Message.system (record {
        message_type = message_type;
        session_id = s.id;
        user_id = user_id;
        bot_difficulty = 0;
      }))
    >>= λ r. some (sent s r)

-- The push's code is not -1 when it fails, and the flag is set in any case.
unfoldable pub send_unregister : Session → Option Session
send_unregister s = do
  (_, s') ← send_system_message_to_server s 0 SystemType.session_unregister
  some (record s' { unregister_send = 1 })

unfoldable pub session_send_simple_packet : Session → ℕ → ℕ → Option (ℤ × Session)
session_send_simple_packet s user_id packet_type = session_send_to_player s user_id packet_type []

unfoldable pub session_send_error_packet : Session → ℕ → ℕ → List ℕ → Option (ℤ × Session)
session_send_error_packet s user_id error_code message =
    if ltb protocol_max_size (header_size + (3 + length message))
    then some (minus_one, s)
    else session_send_to_player s user_id Pkt.error
        (error_payload error_code message (u16 (length message)))

unfoldable pub session_send_state : Session → ℕ → Option (ℤ × Session)
session_send_state s user_id = session_send_to_player s user_id Pkt.session_state (
    state_payload s.id s.game.nbr_cards s.game.nbr_lign s.game.nbr_cards_lign
      s.game.nbr_cards_player)

-- A player whose score is sent.
abbrev pub is_scored : Player → Bool
is_scored p = not ((p.player_id == 0) || not (is_player p.role))

-- `active_player_count`, over the rounds left.
unfoldable pub count_scored : List Player → ℕ → ℕ → ℕ → Option ℕ
count_scored ps zero i count = some count
count_scored ps (suc rounds) i count = do
  p ← load ps i
  count_scored ps rounds (i + 1) (if is_scored p then u16 (count + 1) else count)

-- The scores, over the rounds left.
unfoldable pub scores_from : List Player → ℕ → ℕ → Option (List ℕ)
scores_from ps zero i = some []
scores_from ps (suc rounds) i = do
  p ← load ps i
  rest ← scores_from ps rounds (i + 1)
  some (if is_scored p then score_payload p.player_id p.nb_head ++ rest else rest)

unfoldable pub card_at : Game → ℕ → Option (List ℕ)
card_at g id = do
  card ← load g.deck id
  some (card_payload card.num card.number_head card.client_id)

-- A cell of the board, zeros if it is empty.
unfoldable pub cell_at : Game → Cell → Option (List ℕ)
cell_at g none = some (replicate card_size 0)
cell_at g (some id) = card_at g id

unfoldable pub board_from : Game → ℕ → ℕ → Option (List ℕ)
board_from g zero i = some []
board_from g (suc rounds) i = do
  c ← load g.board i
  bytes ← cell_at g c
  rest ← board_from g rounds (i + 1)
  some (bytes ++ rest)

-- A cell of a hand; an empty one is skipped.
unfoldable pub held_at : Game → Cell → Option (List ℕ)
held_at g none = some []
held_at g (some id) = card_at g id

unfoldable pub hand_from : Game → List Cell → ℕ → ℕ → Option (List ℕ)
hand_from g cards zero i = some []
hand_from g cards (suc rounds) i = do
  c ← load cards i
  bytes ← held_at g c
  rest ← hand_from g cards rounds (i + 1)
  some (bytes ++ rest)

-- The cards of a player, an observer's or a null hand being left out.
unfoldable pub hand_of_player : Game → Bool → Option (List Cell) → Option (List ℕ)
hand_of_player g false cards = some []
hand_of_player g true none = some []
hand_of_player g true (some cards) = hand_from g cards g.nbr_cards_player 0

unfoldable pub hand_count_of : Game → Player → Option ℕ
hand_count_of g p = if is_player p.role then calc_hand_count p g.nbr_cards_player else some 0

abbrev pub board_length : Game → ℕ
board_length g = u16 (g.nbr_lign * g.nbr_cards_lign)

-- The payload of PKT_SESSION_INFO.
unfoldable pub info_payload : Session → Player → ℕ → ℕ → Option (List ℕ)
info_payload s p hand_count active = do
  scores ← scores_from s.players s.max_clients 0
  board ← board_from s.game (board_length s.game) 0
  hand ← hand_of_player s.game (is_player p.role) p.player_cards_id
  some (bytes_of_uint16 hand_count ++ (bytes_of_uint16 active ++ (scores ++ (board ++ hand))))

abbrev pub info_size : Session → ℕ → ℕ → ℕ
info_size s hand_count active =
    4 + active * score_size + board_length s.game * card_size + hand_count * card_size

unfoldable pub send_info_of : Session → ℕ → Option ℕ → Option (ℤ × Session)
send_info_of s user_id none = some (minus_one, s)
send_info_of s user_id (some index) = do
  p ← load s.players index
  hand_count ← hand_count_of s.game p
  active ← count_scored s.players s.max_clients 0 0
  if ltb protocol_max_size (header_size + info_size s hand_count active)
      then some (minus_one, s)
      else (info_payload s p hand_count active >>= λ payload.
          session_send_to_player s user_id Pkt.session_info payload)

unfoldable pub session_send_info : Session → ℕ → Option (ℤ × Session)
session_send_info s user_id = do index ← get_index_by_id s user_id; send_info_of s user_id index

unfoldable pub session_send_phase_result : Session → ℕ → Option (ℤ × Session)
session_send_phase_result s user_id = do
  active ← count_scored s.players s.max_clients 0 0
  if ltb protocol_max_size (header_size + (2 + active * score_size))
      then some (minus_one, s)
      else (scores_from s.players s.max_clients 0 >>= λ scores.
          session_send_to_player s user_id Pkt.phase_result (bytes_of_uint16 active ++ scores))

-- The loops that send to every client: `to_client` is what is sent to one.
unfoldable pub send_to_all : (Session → ℕ → Option (ℤ × Session)) → Session → ℕ → ℕ → Option Session
send_to_all to_client s zero i = some s
send_to_all to_client s (suc rounds) i = do
  p ← load s.players i
  s' ← if p.player_id == 0 then some s else (to_client s p.player_id >>= λ r. some r.1)
  send_to_all to_client s' rounds (i + 1)
