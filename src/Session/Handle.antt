-- ===== src/Session/Handle.antt =====
-- The other messages of a session: `session_handle_set_rules` and `session_handle_add_bot` of
-- Session/session_packet.c, `handle_system_message` of Session/message_handler.c, and what the loop of
-- `session_main` in Session/session.c does with the messages it takes from its ring.
use pega_s.Prelude.{
  ℕ, zero, suc, ◌+◌, ◌*◌, Bool, true, false, Option, none, some, List, ℤ, pos, negsuc, minus_one,
  ltb, leb, ◌==◌, ◌&&◌, if◌then◌else◌, not, length, load, store, ◌>>=◌,
}
use pega_s.Prelude.Text.{codes}
use pega_s.SessionBus.{Message, SystemType, SystemMessage, UserMessage, session_bus_push}
use pega_s.Protocol.Pkt
use pega_s.Player.{Cell, Role, Player, is_player}
use pega_s.Game.{State, Blocks, init_game, cleanup_game}
use pega_s.Session.{Session, started, get_index_by_id, add_player}
use pega_s.Session.Send.{
  sent, session_send_error_packet, session_send_simple_packet, session_send_state,
  session_send_info, send_system_message_to_server, send_unregister, send_to_all,
}
use pega_s.Session.Leave.{remove_player, change_player_role}
use pega_s.Session.Play.{refuse, Shuffle, handle_game_message}

-- What malloc and getrandom give while a message is handled.
pub record Supply : Type 0 where
  pub hand_block : Option (List Cell)
  pub game_blocks : Blocks
  pub shuffle : Shuffle

-- `init_game` in place of the game; the blocks are freed first, and its code is not looked at.
unfoldable pub new_rules : Supply → Session → ℕ → ℕ → ℕ → ℕ → ℕ → Option Session
new_rules supply s lines line_cards player_cards cards heads =
    let g =
      (init_game supply.game_blocks (cleanup_game s.game) lines line_cards player_cards cards heads
        s.max_clients s.game_capacity).1 in
    send_to_all session_send_state (record s { game = g }) s.max_clients 0

unfoldable pub session_handle_set_rules : Supply → Session → UserMessage → Option (ℤ × Session)
session_handle_set_rules supply s msg =
    if not (msg.client_id == s.id_creator)
    then refuse s msg.client_id 0x01 (codes "Unauthorized access")
    else if ltb (length msg.payload) 6
    then refuse s msg.client_id 0x34 (codes "Bad session set rules payload")
    else if started s.game.game_state
    then refuse s msg.client_id 0x34 (codes "Session already started")
    else do
      lines ← load msg.payload 1
      line_cards ← load msg.payload 2
      cards ← load msg.payload 3
      player_cards ← load msg.payload 4
      heads ← load msg.payload 5
      if ltb cards (player_cards * s.game_capacity)
          then refuse s msg.client_id 0x34 (codes "Not enough cards")
          else (new_rules supply s lines line_cards player_cards cards heads >>= λ s'.
              some (pos 0, s'))

-- The bots asked for, over the rounds left; -1 at the first that cannot be sent.
unfoldable pub ask_bot : ℕ → Session → Option (ℤ × Session)
ask_bot difficulty s =
    session_bus_push s.write_queue (
      Message.system (record {
        message_type = SystemType.add_bot;
        session_id = s.id;
        user_id = 0;
        bot_difficulty = difficulty;
      }))
    >>= λ r. some (sent s r)

unfoldable pub more_bots : (Session → Option (ℤ × Session)) → ℤ × Session → Option (ℤ × Session)
more_bots rest (pos n, s) = rest s
more_bots rest (negsuc n, s) = some (minus_one, s)

unfoldable pub ask_bots : ℕ → ℕ → Session → Option (ℤ × Session)
ask_bots difficulty zero s = some (pos 0, s)
ask_bots difficulty (suc rounds) s = do
  r ← ask_bot difficulty s
  more_bots (λ s'. ask_bots difficulty rounds s') r

unfoldable pub session_handle_add_bot : Session → UserMessage → Option (ℤ × Session)
session_handle_add_bot s msg =
    if ltb (length msg.payload) 2
    then refuse s msg.client_id 0x41 (codes "Bad ADD_BOT payload")
    else do
      count ← load msg.payload 0
      difficulty ← load msg.payload 1
      if count == 0
          then some (pos 0, s)
          else if ltb s.game_capacity (s.active_players + count)
          then refuse s msg.client_id 0x06 (codes "Capacity exceeded")
          else ask_bots difficulty count s

-- An error packet, whose code is not looked at.
unfoldable pub tell : Session → ℕ → ℕ → List ℕ → Option Session
tell s user_id code text = session_send_error_packet s user_id code text >>= λ r. some r.1

unfoldable pub tell_server : Session → ℕ → SystemType → Option Session
tell_server s user_id message_type =
    send_system_message_to_server s user_id message_type >>= λ r. some r.1

-- The first client of an empty session is its creator.
abbrev pub first_client : Session → ℕ → Session
first_client s client_id =
    if s.number_clients == 0 then record s { id_creator = client_id; unregister_send = 0 } else s

abbrev pub target_role : Session → Role
target_role s =
    if not (started s.game.game_state) && ltb s.active_players s.game_capacity
    then Role.player
    else Role.observer

-- What a client who has joined is sent.
unfoldable pub welcome : Session → ℕ → Role → Option Session
welcome s client_id role = do
  (_, s₁) ← session_send_state s client_id
  s₂ ←
      if not (is_player role) && started s.game.game_state
      then (session_send_info s₁ client_id >>= λ r. some r.1)
      else some s₁
  tell_server s₂ client_id SystemType.user_connected

unfoldable pub after_add : ℕ → Role → ℤ × Session → Option Session
after_add client_id role (pos zero, s) = welcome s client_id role
after_add client_id role (pos (suc n), s) =
    tell s client_id 0x06 (codes "Internal error joining session")
after_add client_id role (negsuc n, s) =
    tell s client_id 0x06 (codes "Internal error joining session")

unfoldable pub join_as : Supply → Session → ℕ → Option ℕ → Option Session
join_as supply s client_id (some index) = tell s client_id 0x02 (codes "User already registered")
join_as supply s client_id none =
    let s' = first_client s client_id in
    add_player supply.hand_block s' client_id (target_role s') >>= λ r.
    after_add client_id (target_role s') r

unfoldable pub handle_join : Supply → Session → ℕ → Option Session
handle_join supply s client_id =
    if leb s.max_clients s.number_clients
    then tell s client_id 0x06 (codes "Server full")
    else (get_index_by_id s client_id >>= λ found. join_as supply s client_id found)

unfoldable pub handle_leave : Session → ℕ → Option Session
handle_leave s client_id = do
  s₁ ← remove_player s client_id
  (_, s₂) ← session_send_simple_packet s₁ client_id Pkt.session_end
  tell_server s₂ client_id SystemType.user_disconnected

-- Every client is removed; `farewell` is what it is sent.
unfoldable pub remove_all : (Session → ℕ → Option Session) → Session → ℕ → ℕ → Option Session
remove_all farewell s zero i = some s
remove_all farewell s (suc rounds) i = do
  p ← load s.players i
  s' ←
      if p.player_id == 0
      then some s
      else (remove_player s p.player_id >>= λ s₁. farewell s₁ p.player_id)
  remove_all farewell s' rounds (i + 1)

unfoldable pub say_end : Session → ℕ → Option Session
say_end s player_id = do
  (_, s') ← session_send_simple_packet s player_id Pkt.session_end
  tell_server s' player_id SystemType.user_disconnected

unfoldable pub say_gone : Session → ℕ → Option Session
say_gone s player_id = tell_server s player_id SystemType.user_disconnected

unfoldable pub handle_close : Session → ℕ → Option Session
handle_close s client_id =
    if not (client_id == s.id_creator)
    then tell s client_id 0x01 (codes "Unauthorized access")
    else do
      s' ←
          remove_all say_end (record s { game = record (s.game) { game_state = State.inactive } })
            s.max_clients 0
      if s'.unregister_send == 0 then send_unregister s' else some s'

-- `number_of_rest`, over the rounds left.
unfoldable pub count_connected : List Player → ℕ → ℕ → ℕ → Option ℕ
count_connected ps zero i n = some n
count_connected ps (suc rounds) i n = do
  p ← load ps i
  count_connected ps rounds (i + 1) (if p.is_connected == 1 then n + 1 else n)

unfoldable pub user_left_at : Session → ℕ → Option ℕ → Option Session
user_left_at s user_id none = some s
user_left_at s user_id (some index) = do
  (_, s₁) ← change_player_role true s user_id Role.observer
  p ← load s₁.players index
  players ← store s₁.players index (record p { is_connected = 0 })
  let s₂ = record s₁ { players = players }
  rest ← count_connected players s₂.max_clients 0 0
  if rest == 0 then (remove_all say_gone s₂ s₂.max_clients 0 >>= send_unregister) else some s₂

unfoldable pub handle_system : Session → SystemMessage → SystemType → Option Session
handle_system s msg SystemType.user_unregister = remove_player s msg.user_id
handle_system s msg SystemType.user_left =
    get_index_by_id s msg.user_id >>= λ found. user_left_at s msg.user_id found
handle_system s msg SystemType.session_unregistered = some (record s { running = 0 })
handle_system s msg SystemType.session_unregister = some s
handle_system s msg SystemType.user_connected = some s
handle_system s msg SystemType.user_disconnected = some s
handle_system s msg SystemType.update_state = some s
handle_system s msg SystemType.add_bot = some s

-- Whether the message is one of the session's own, and the session then.
unfoldable pub handle_user : Supply → Session → UserMessage → Option (Bool × Session)
handle_user supply s msg =
    if msg.packet_type == Pkt.session_join
    then (handle_join supply s msg.client_id >>= λ s'. some (true, s'))
    else if msg.packet_type == Pkt.session_set_game_rules
    then (session_handle_set_rules supply s msg >>= λ r. some (true, r.1))
    else if msg.packet_type == Pkt.add_bot
    then (if started s.game.game_state
        then (tell s msg.client_id 0x08 (codes "Session already started") >>= λ s'. some (true, s'))
        else (session_handle_add_bot s msg >>= λ r. some (true, r.1)))
    else if msg.packet_type == Pkt.session_leave
    then (handle_leave s msg.client_id >>= λ s'. some (true, s'))
    else if msg.packet_type == Pkt.session_close
    then (handle_close s msg.client_id >>= λ s'. some (true, s'))
    else some (false, s)

-- `true` for the code 1.
unfoldable pub handle_system_message : Supply → Session → Message → Option (Bool × Session)
handle_system_message supply s (Message.system msg) =
    handle_system s msg msg.message_type >>= λ s'. some (true, s')
handle_system_message supply s (Message.user msg) = handle_user supply s msg

-- The body of the loop over the messages received.
unfoldable pub session_step : Supply → Session → Message → Option Session
session_step supply s (Message.system msg) =
    handle_system_message supply s (Message.system msg) >>= λ r. some r.1
session_step supply s (Message.user msg) = do
  (taken, s') ← handle_system_message supply s (Message.user msg)
  if taken then some s' else handle_game_message supply.shuffle s' msg

-- The end of a round of the outer loop.
unfoldable pub end_round : Session → Option Session
end_round s =
    if (s.number_clients == 0) && (s.unregister_send == 0) then send_unregister s else some s
