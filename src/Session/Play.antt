-- ===== src/Session/Play.antt =====
-- The game's packets: `game_handle_info_return` and `game_handle_response_extra` of
-- Session/Game/game_packet.c, and `handle_game_message` of Session/message_handler.c.
use pega_s.Prelude.{
  ℕ, ◌+◌, Bool, true, false, Option, none, some, List, ℤ, pos, minus_one, ltb, ◌==◌, if◌then◌else◌,
  not, u8, length, load, store, ◌>>=◌,
}
use pega_s.Prelude.Text.{codes}
use pega_s.SessionBus.{UserMessage}
use pega_s.Protocol.Pkt
use pega_s.Player.{Cell, Player}
use pega_s.Game.{State}
use pega_s.Game.Deal.{distrib_cards}
use pega_s.Game.Place.{take_line, place_card}
use pega_s.Game.Visible.{get_real_index_from_visible}
use pega_s.Session.{Session, get_index_by_id}
use pega_s.Session.Move.{start_move, with_game}
use pega_s.Session.Send.{session_send_error_packet, session_send_info, send_to_all}
use pega_s.Session.Result.{handle_result_of_play}

abbrev pub waits : State → Bool
waits State.inactive = false
waits State.waiting = true
waits State.waiting_extra = false
waits State.playing = false

abbrev pub waits_extra : State → Bool
waits_extra State.inactive = false
waits_extra State.waiting = false
waits_extra State.waiting_extra = true
waits_extra State.playing = false

-- An error is sent, and -1 returned.
unfoldable pub refuse : Session → ℕ → ℕ → List ℕ → Option (ℤ × Session)
refuse s user_id code text =
    session_send_error_packet s user_id code text >>= λ r. some (minus_one, r.1)

-- `get_index_by_id` as a `uint8_t`: -1 is 255.
abbrev pub as_byte : Option ℕ → ℕ
as_byte none = 255
as_byte (some index) = u8 index

-- The card at a place of the hand is played.
unfoldable pub put_ready : Session → ℕ → ℕ → Player → List Cell → ℕ → Cell → Option (ℤ × Session)
put_ready s user_id index p cards real none = some (minus_one, s)
put_ready s user_id index p cards real (some card_id) = do
  cards' ← store cards real none
  players ← store s.players index (record p { player_cards_id = some cards' })
  card ← load s.game.deck card_id
  deck ← store s.game.deck card_id (record card { client_id = user_id })
  ready ← store s.game.card_ready_to_place index (some card_id)
  some (
    pos 0,
    record s {
      players = players;
      game = record (s.game) {
        deck = deck;
        card_ready_to_place = ready;
        card_ready_to_place_count = s.game.card_ready_to_place_count + 1;
      };
    },
  )

unfoldable pub play_real : Session → ℕ → ℕ → Player → List Cell → Option ℕ → Option (ℤ × Session)
play_real s user_id index p cards none = some (minus_one, s)
play_real s user_id index p cards (some real) = do
  c ← load cards real
  put_ready s user_id index p cards real c

-- The seat has no card waiting.
unfoldable pub choose_card : Session → ℕ → ℕ → ℕ → Cell → Option (ℤ × Session)
choose_card s user_id index visible (some waiting) = some (minus_one, s)
choose_card s user_id index visible none = do
  p ← load s.players index
  cards ← p.player_cards_id
  real ← get_real_index_from_visible cards s.game.nbr_cards_player visible
  play_real s user_id index p cards real

unfoldable pub game_handle_info_return : Session → UserMessage → Option (ℤ × Session)
game_handle_info_return s msg =
    if not (waits s.game.game_state)
    then some (minus_one, s)
    else if ltb (length msg.payload) 1
    then refuse s msg.client_id 0x34 (codes "Bad session info return payload\n")
    else do
      visible ← load msg.payload 0
      found ← get_index_by_id s msg.client_id
      waiting ← load s.game.card_ready_to_place (as_byte found)
      choose_card s msg.client_id (as_byte found) visible waiting

-- The row, an `int16_t`, as the `uint8_t` that `take_line` gets: the low byte.
abbrev pub row_byte : ℕ → ℕ → ℕ
row_byte low high = low

-- `get_index_by_id` as the `uint8_t` that `take_line` gets is `as_byte`.
unfoldable pub game_handle_response_extra : Session → UserMessage → Option (ℤ × Session)
game_handle_response_extra s msg =
    if not (waits_extra s.game.game_state)
    then some (minus_one, s)
    else if not (msg.client_id == s.game.extra_wait_from)
    then refuse s msg.client_id 0x01 (codes "Unauthorized access")
    else if ltb (length msg.payload) 2
    then refuse s msg.client_id 0x34 (codes "Bad session response extra payload")
    else do
      low ← load msg.payload 0
      high ← load msg.payload 1
      found ← get_index_by_id s msg.client_id
      (g, ps) ← take_line s.game s.players (row_byte low high) (as_byte found)
      result ← place_card g ps s.max_clients
      some (with_game s result)

-- What malloc and getrandom give to `distrib_cards`.
pub record Shuffle : Type 0 where
  pub room : Bool
  pub first : ℕ → Option ℕ
  pub second : ℕ → Option ℕ

unfoldable pub start_session : Shuffle → Session → ℕ → Option Session
start_session shuffle s client_id =
    if not (client_id == s.id_creator)
    then (session_send_error_packet s client_id 0x01 (codes "Unauthorized access") >>= λ r.
        some r.1)
    else do
      result ←
          distrib_cards shuffle.room shuffle.first shuffle.second s.game s.players s.max_clients
      send_to_all session_send_info (with_game s result).1 s.max_clients 0

unfoldable pub play_card : Session → UserMessage → Option Session
play_card s msg = do
  (_, s₁) ← game_handle_info_return s msg
  (result, s₂) ← start_move s₁
  handle_result_of_play s₂ result

unfoldable pub choose_row : Session → UserMessage → Option Session
choose_row s msg = do
  (result, s₁) ← game_handle_response_extra s msg
  handle_result_of_play s₁ result

-- It returns 0 in every case; here it returns the session.
unfoldable pub handle_game_message : Shuffle → Session → UserMessage → Option Session
handle_game_message shuffle s msg =
    if msg.packet_type == Pkt.start_session
    then start_session shuffle s msg.client_id
    else if msg.packet_type == Pkt.session_info_return
    then play_card s msg
    else if msg.packet_type == Pkt.response_extra
    then choose_row s msg
    else some s
